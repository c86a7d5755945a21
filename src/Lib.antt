-- ===== src/Lib.antt =====
-- VoDoge Edge: a verification development for the agent that runs beside cellular modems.
--
-- The program is a Rust workspace. Its pure core decides what a journal may delete, what an inbound
-- message is and whether it may leave a modem, which bearer an outbound one takes, and when a fault is
-- announced; the crates around it move bytes. The development models the pure parts.
--
-- Common holds what the modules share: Boolean tests and case lemmas (Tests), lists by native numbers
-- (Lists), Rust's `Result` (Outcome), text as its code points (Text), ordered keys (Keys), and `BTreeMap`,
-- `BTreeSet` and `HashMap` as sorted lists of entries (Dict).
--
-- Uplink models edge-uplink/src/lib.rs, the cumulative acknowledgement protocol: Types has the records and
-- errors, Ranges the sequence ranges (`SequenceRange`, `UplinkAck::new`, `selected_sequences`,
-- `ranges_for`), Journal `UplinkState` with `rehydrate` and `append`, Loss `declare_loss`, GapAck
-- `accept_gap` with `advance_across_accepted_losses`, and Ack `observe_ack`. A method that takes `&mut self`
-- is a function that returns the new state beside its result, so that what a failure leaves is part of the
-- model. WellFormed has the invariant, and a module below it for each operation; History has runs of calls,
-- and Accounting says where each sequence is.
--
-- Outbox models edge-store/src/outbox.rs, `DurableOutbox`, over the journal of Uplink: Tables has the statements of
-- edge-store/src/lib.rs on the rows of the queue, each of which may be the last that succeeds, so that a stop of the
-- machine between two statements is a run of the model. Mirror and Calls keep rows and records equal, Restart reads
-- them back, Runs has the runs, Capacity the bound, and Torn and TornAck what a stop inside a call leaves. Reads do not
-- fail, and sequences stay below 2^63, where SQLite's integers hold them.
--
-- Session models edge-uplink/src/session.rs, one connection to the cloud, with the envelope of
-- contract/src/lib.rs: Wire has the message kinds, payloads and `validate_sequence`, Link `LinkSession` with the
-- handshake, the heartbeat and the backoff, and Inbound `on_inbound` and its handlers. serde_json is the
-- parameter `Codec`: what it reads out of a value, and what it writes. Instants and durations are nanoseconds,
-- and `Instant` and `next_id` do not wrap. Events, Cases, Sends and Backoff have the theorems.
--
-- Alert models edge-core/src/alert.rs, the throttle of announcements, with its saturating `i64` and `u32`
-- arithmetic. Concat models edge-core/src/concat.rs, `assemble`: a row is a slot together with the part that
-- stands in it, where the source keeps the slot and indexes again; `BTreeMap` of vectors is Common's Groups.
-- Settle models edge-core/src/settle.rs, `settle_inbound` and `deletable`, which call `assemble`.
--
-- Gsm7 models edge-core/src/gsm7.rs, the seven-bit alphabet; Submit edge-core/src/sms_draft.rs and the encoder of
-- edge-modem/src/pdu.rs; Deliver edge-core/src/pdu.rs, with Reports for the status reports. An octet is a number
-- below 256, and a bit test is a quotient and a remainder. The decoders index as Rust checks it: Common's
-- Checked has an Option whose `none` is the panic. The loop over information elements runs on the length of the
-- header as fuel, which is enough, for each round passes two octets or more. `encode_utf16` and
-- `from_utf16_lossy` of the standard library are written out.
--
-- Capability models edge-core/src/capability.rs, names and supports. Routing models edge-core/src/sms.rs with the
-- routers of edge-core/src/verticals, and Routing/Policies edge-core/src/policy.rs, edge-core/src/factory.rs and
-- the factories: a trait object is the data of the implementation behind it. Registration models
-- edge-core/src/registration.rs, the arbitration between sources. AtPolicy models edge-core/src/at_policy.rs, which
-- console commands are sent without being told twice, and AtGuard `guarded` of edge-core/src/at_guard.rs, which of
-- them the panel asks about; the chain of `if let` is a table of commands, each with what reads the rest.
--
-- Usb, Network, Matrix and Strategy model edge-core/src/strategy.rs with edge-core/src/strategies,
-- edge-core/src/network.rs and edge-core/src/matrix.rs: what `serde` makes of a document is where the model
-- starts, a trait object is the record of its answers, and a `HashMap` whose order nothing reads is a sorted map.
-- Adoption models edge-core/src/binding.rs and edge-core/src/retro.rs; Adoption/Registry the two tables of adopted
-- and retired modems in edge-store/src/lib.rs; Adoption/Pass and Adoption/Enforce the enforcement pass of
-- edge-bin/src/main.rs (`build_evidence` to `enforce_registration`). What a pass cannot read, and which of its
-- statements fail, comes with its input, so that every failure of one statement is covered; the pass holds the lock
-- of the store throughout, so passes and the other calls are one sequence of events (Adoption/Runs).
--
-- Numbers are the native ones. A `u64` keeps its bound where the source checks it (`checked_add`); the loop
-- of `advance_across_accepted_losses` runs on fuel, one more than the number of accepted losses, and each
-- round takes one out.
--
-- Matrix/Versions has the version of the agent that a document asks for.
--
-- Not modelled: the alerts that an enforcement pass raises, sockets, TLS, the other tables of the SQLite store, QMI and AT transport, the panel and its browser half, the Go
-- programs, and generated protocol types.
pub mod Adoption
pub mod Alert
pub mod AtGuard
pub mod AtPolicy
pub mod Capability
pub mod Common
pub mod Concat
pub mod Deliver
pub mod Gsm7
pub mod Matrix
pub mod Network
pub mod Outbox
pub mod Registration
pub mod Routing
pub mod Session
pub mod Settle
pub mod Strategy
pub mod Submit
pub mod Uplink
pub mod Usb
