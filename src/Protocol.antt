-- ===== src/Protocol.antt =====
-- `ProtocolHandler` (src/Services/ProtocolHandler.h and .cpp, src/Domain/ProtocolDefs.h): the frames
-- of the BLE protocol, the table of messages that wait for an acknowledgement, and the handlers.
pub mod Messages
pub mod Frame
pub mod State
pub mod Sending
pub mod World
pub mod Table
pub mod Outcome
pub mod Handlers
pub mod Settings
pub mod Acks
pub mod Commands
pub mod Dispatch
pub mod Acked
pub mod Delivered
pub mod Retries
pub mod Syncing
pub mod Extends
pub mod Replies
pub mod Branches
pub mod Answered
pub mod Corrupted
pub mod Replay
mod Samples
mod Tests
