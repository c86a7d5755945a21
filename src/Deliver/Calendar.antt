-- ===== src/Deliver/Calendar.antt =====
-- The calendar of the time stamps: `days_from_civil` counts the days of the Gregorian calendar.
use vodoge_edge.Common.{
  ℕ, ◌+◌, ◌-◌, ◌*◌, ◌/◌, ◌%◌, ◌≤◌, ◌<◌, ◌≡◌, refl, ◌≢◌, Bool, false, ◌&&◌, ◌||◌, not, if◌then◌else◌,
  ltb, leb, ◌==◌, ==_iff, Bool-cases, inl, inr, ap, ◌∙◌, arith,
}
use vodoge_edge.Common.Int.{ℤ, pos, ◌+ℤ◌, sub_ℕ}
use vodoge_edge.Deliver.{days_from_civil}

abbrev pub is_leap : ℕ → Bool
is_leap y = y % 4 == 0 && (not (y % 100 == 0) || y % 400 == 0)

abbrev pub month_length : ℕ → ℕ → ℕ
month_length y m =
    if m == 2
    then if is_leap y then 29 else 28
    else if m == 4 || m == 6 || m == 9 || m == 11
    then 30
    else 31

epoch : days_from_civil 1970 1 1 ≡ pos 0
unfolding days_from_civil
epoch = refl

-- The next day of the same month.
next_day : (y m d : ℕ) → 1 ≤ d → days_from_civil y m (d + 1) ≡ days_from_civil y m d +ℤ pos 1
unfolding days_from_civil ◌+ℤ◌
next_day y m d h = ground arith

-- The days of whole years, which begin in March here, before the year `z`.
days_before : ℕ → ℕ
days_before z =
    let year_of_era = z - z / 400 * 400 in
    z / 400 * 146_097 + (year_of_era * 365 + year_of_era / 4 - year_of_era / 100)

common_year : (z : ℕ) → (z + 1) % 4 ≢ 0 → days_before (z + 1) ≡ days_before z + 365
unfolding days_before
common_year z h = omega (arith, h)

leap_year :
    (z : ℕ) → (z + 1) % 4 ≡ 0 → (z + 1) % 100 ≢ 0 → days_before (z + 1) ≡ days_before z + 366
unfolding days_before
leap_year z h g = omega (arith, h, g)

century :
    (z : ℕ) → (z + 1) % 100 ≡ 0 → (z + 1) % 400 ≢ 0 → days_before (z + 1) ≡ days_before z + 365
unfolding days_before
century z h g = omega (arith, h, g)

fourth_century : (z : ℕ) → (z + 1) % 400 ≡ 0 → days_before (z + 1) ≡ days_before z + 366
unfolding days_before
fourth_century z h = omega (arith, h)

hundred_is_four : (z : ℕ) → (z + 1) % 100 ≡ 0 → (z + 1) % 4 ≡ 0
hundred_is_four z h = omega (arith, h)

year_length : (z : ℕ) → days_before (z + 1) ≡ days_before z + (if is_leap (z + 1) then 366 else 365)
year_length z =
    ground (arith, common_year z, leap_year z, century z, fourth_century z, hundred_is_four z)

-- The day of a year that begins in March, from 0.
abbrev day_in_year : ℕ → ℕ → ℕ
day_in_year m d = (153 * (if ltb 2 m then m - 3 else m + 9) + 2) / 5 + d - 1

civil_form :
    (y m d : ℕ)
    → days_from_civil y m d
      ≡ sub_ℕ (days_before (if leb m 2 then y - 1 else y) + day_in_year m d) 719_468
unfolding days_from_civil days_before
civil_form y m d = ground arith

month_ends :
    (m d : ℕ)
    → 1 ≤ m
    → m < 12
    → (m == 2) ≡ false
    → d ≡ (if m == 4 || m == 6 || m == 9 || m == 11 then 30 else 31)
    → day_in_year (m + 1) 1 ≡ day_in_year m d + 1
month_ends m d h g k e = ground arith

pub record Date : Type 0 where
  pub year : ℕ
  pub month : ℕ
  pub day : ℕ

pub record IsDate (t : Date) : Type 0 where
  pub after_zero : 1 ≤ t.year
  pub first_month : 1 ≤ t.month
  pub last_month : t.month ≤ 12
  pub first_day : 1 ≤ t.day
  pub last_day : t.day ≤ month_length t.year t.month

abbrev pub next_date : Date → Date
next_date t =
    if ltb t.day (month_length t.year t.month)
    then record t { day = t.day + 1 }
    else if t.month == 12
    then record { year = t.year + 1; month = 1; day = 1 }
    else record t { month = t.month + 1; day = 1 }

abbrev pub days_of : Date → ℤ
days_of t = days_from_civil t.year t.month t.day

one_more : (a b : ℕ) → b ≡ a + 1 → sub_ℕ b 719_468 ≡ sub_ℕ a 719_468 +ℤ pos 1
unfolding ◌+ℤ◌
one_more a b h = ground (arith, h)

last_of_february :
    (y d : ℕ)
    → 1 ≤ y
    → d ≡ month_length y 2
    → days_from_civil y 3 1 ≡ days_from_civil y 2 d +ℤ pos 1
last_of_february y d h e =
    rw (civil_form y 3 1, civil_form y 2 d)
      (one_more (days_before (y - 1) + day_in_year 2 d) (days_before y + day_in_year 3 1)
        (ground (arith, year_length (y - 1), before_and_after y h)))
  where
    before_and_after : (z : ℕ) → 1 ≤ z → z - 1 + 1 ≡ z
    before_and_after z g = omega arith

same_year : (y : ℕ) → y + 1 - 1 ≡ y
same_year y = omega arith

same_half :
    (y m : ℕ)
    → 1 ≤ m
    → (m == 2) ≡ false
    → (if leb (m + 1) 2 then y - 1 else y) ≡ (if leb m 2 then y - 1 else y)
same_half y m h k = ground arith

last_of_year : (y : ℕ) → days_from_civil (y + 1) 1 1 ≡ days_from_civil y 12 31 +ℤ pos 1
last_of_year y =
    rw (civil_form (y + 1) 1 1, civil_form y 12 31)
      (one_more (days_before y + day_in_year 12 31) (days_before (y + 1 - 1) + day_in_year 1 1)
        (rw (same_year y) (omega arith)))

last_of_month :
    (y m d : ℕ)
    → 1 ≤ m
    → m < 12
    → (m == 2) ≡ false
    → d ≡ month_length y m
    → days_from_civil y (m + 1) 1 ≡ days_from_civil y m d +ℤ pos 1
last_of_month y m d h g k e =
    rw (civil_form y (m + 1) 1, civil_form y m d)
      (one_more (days_before (if leb m 2 then y - 1 else y) + day_in_year m d)
        (days_before (if leb (m + 1) 2 then y - 1 else y) + day_in_year (m + 1) 1)
        (ground (arith, same_half y m h k, month_ends m d h g k, e)))

year_end :
    (y m d : ℕ)
    → m ≡ 12
    → d ≡ month_length y m
    → days_from_civil (y + 1) 1 1 ≡ days_from_civil y m d +ℤ pos 1
year_end y m d h e = rw (e, h) (last_of_year y)

february_end :
    (y m d : ℕ)
    → 1 ≤ y
    → m ≡ 2
    → d ≡ month_length y m
    → days_from_civil y (m + 1) 1 ≡ days_from_civil y m d +ℤ pos 1
february_end y m d g h e = rw h (last_of_february y d g (e ∙ ap (month_length y) h))

-- `days_from_civil` counts days: the date after a Gregorian date, over ends of months and leap years, has one more. With
-- 1970-01-01 at zero, this fixes the day of every date.
pub days_of-next_date : (t : Date) → IsDate t → days_of (next_date t) ≡ days_of t +ℤ pos 1
days_of-next_date t v = elim (Bool-cases (ltb t.day (month_length t.year t.month))) [
  | inl e ↦ rw e (next_day t.year t.month t.day v.first_day)
  | inr e ↦
      let d : t.day ≡ month_length t.year t.month = ground (arith, v.last_day, e) in
      elim (Bool-cases (t.month == 12)) [
        | inl f ↦ rw (e, f) (year_end t.year t.month t.day ((==_iff t.month 12).0 f) d)
        | inr f ↦ elim (Bool-cases (t.month == 2)) [
          | inl g ↦
              rw (e, f) (february_end t.year t.month t.day v.after_zero ((==_iff t.month 2).0 g) d)
          | inr g ↦
              rw (e, f)
                (last_of_month t.year t.month t.day v.first_month (ground (arith, v.last_month, f))
                  g d)
        ]
      ]
]
