-- ===== src/Lib.antt =====
-- AgentBell: the core of a program that takes the hooks of coding agents, keeps them in a durable
-- queue, and delivers them to channels under notification policies.
--
-- Parts, and the code that each models:
-- * Event (core/internal/event/event.go): the notification and `Validate`. Event.Names:
--   what a hook's adapter and event name stand for. Event.Normalize: `Normalize` and
--   `ShouldNotify`, from the decoded JSON of a hook.
-- * Queue (core/internal/queue): Types holds the envelopes and the errors; Disk the directories of
--   a queue and the system calls; Listing the writing, listing and quarantine of items; Items the
--   operations of queue.go, and Cleanup those that remove old items; Ledger and Settle the
--   functions of ledger.go on values, and Targets those that write items back; Reports what only
--   lists. Enqueue is `Enqueue` with the reservation of its key. Triple is a logic of pre- and postconditions for
--   actions, and Durable the invariant that it carries through every operation.
-- * Settings (core/internal/settings/settings.go): the settings and `Validate`, with the regular
--   expressions as functions on bytes in Settings.Text.
-- * Policy (core/internal/policy/policy.go): `Evaluate`. Policy.Quiet (core/internal/policy/quiet.go):
--   quiet hours. Policy.Template (core/internal/policy/template.go): the rendering of messages.
-- * Relay (core/internal/relay): Protocol models protocol.go, with the verification of a peer's
--   request; Storage the publication and removal of records of storage.go; Nonce nonce.go; Receipt
--   receipt.go; and Ingress the acceptance of a request of ingress.go, which goes through all of
--   them and enqueues in the queue.
-- * Service (core/internal/service): Targets models the resolution of a decision to targets, and
--   Resolved what becomes of an item whose targets are resolved, of processor.go and service.go.
--   Process composes these with the policies, the quiet hours and the templates, as `processM2`
--   does, and returns the errors that `processM2` joins.
-- * Remote (core/internal/remote/retry.go): the retries of a connector.
-- * Actions (for the queue and the relay alike): what an operation on files is.
-- * Frame (core/internal/relay/frame.go): the frames of the relay's stdio protocol.
-- * Semver (core/internal/pluginverify/semver.go): versions and their order.
-- Notifications are what the queue stores and what policies are matched against; policies come
-- from validated settings. Common holds what the parts share.
--
-- How the code is read:
-- * A Go string is the list of its bytes. An instant is a number of nanoseconds since Go's zero
--   time, which is 0, so `IsZero` is a test for 0; a duration is not negative. An `int` that may
--   be negative is an integer, without wrap-around: the counters only count deliveries.
-- * A function that returns an error is a function into `Result`, with one constructor of the
--   error type to a return. A method that changes the item it is given returns the changed item.
-- * A queue operation is a function of a world: the directories, the number of system calls made,
--   and a schedule that says which calls fail. A call that fails changes nothing. A process that
--   dies is a schedule under which all later calls fail. `write` renames a file that it has written
--   under another name, so only its last call changes a directory of the queue. The mutex makes
--   each operation one step. A file holds an envelope, or bytes that the JSON decoder rejects.
-- * The relay's operations are read in the same way, over the directories of nonces and receipts and
--   those of the queue. A record is linked under its name before its directory is synchronised, so
--   a call that fails behind the link leaves the record. A lock makes an operation on a receipt one
--   step. The store of nonces takes no lock: its operations are modelled as running one after the
--   other, and what interleaves them is not.
-- * The delivery service runs on the directories of the queue and a log of the calls of the sender,
--   to which the one function that calls it adds the arguments. What panics is not caught.
-- * Go leaves the order of items created at one instant open, and of maps; the model takes one.
-- * A `Queue` is open and no pointer is nil.
--
-- Recursion is structural. The scanner of placeholders in Settings.Text and the substitution in
-- Policy.Template run on fuel, the length of the text, of which every step uses at least one byte;
-- and the loop of the nonce store with fuel 2, for the second round finds no file where the first
-- has removed an expired one. What other processes do while a key's reservation is waited for is an
-- argument of `enqueue`, with one wait to a try, since `Enqueue` has no bound of its own on its
-- tries.
--
-- Parameters: the time zone database and the civil times of a location, SHA-256 and the marker
-- names made with it, JSON decoding of hooks and of relay envelopes, Ed25519, reading and printing
-- of RFC 3339 times, the validity of UTF-8, and the sender of messages with the texts of errors and
-- which of them are permanent.
--
-- Not modelled: `Open`; loading and saving of settings; the relay's outbox, forwarder, pairing and
-- servers, and the polling of its storage locks; signatures of plugins; the delivery service around
-- `processM2`, that is its loop, lock, workers and the delivery without settings; remote delivery
-- but for its retries; adapters, setup and the command line, which are glue to other programs and
-- to the operating system.
pub mod Actions
pub mod Common
pub mod Event
pub mod Frame
pub mod Policy
pub mod Queue
pub mod Relay
pub mod Remote
pub mod Semver
pub mod Service
pub mod Settings
