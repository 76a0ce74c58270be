-- ===== src/Stream.antt =====
-- The Anthropic event stream: the ledger that writes it, the contract that it has to meet, and the
-- translation of an upstream Responses stream into it.
pub mod Events
pub mod Ledger
pub mod Contract
pub mod Tracks
pub mod Active
pub mod Accepted
pub mod Writers
pub mod CloseAll
pub mod Responses
mod Samples
pub mod Linked
pub mod Passing
pub mod Stopping
pub mod Redacted
pub mod Orderly
pub mod Stepping
pub mod Closing
pub mod Finishing
pub mod Meeting
pub mod Content
pub mod Conveys
pub mod Told
pub mod Telling
pub mod Safety
pub mod Spoken
