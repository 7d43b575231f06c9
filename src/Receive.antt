-- ===== src/Receive.antt =====
-- pkg/receive: a send stream applied to a receiver.
pub mod Receiver
pub mod Context
pub mod Process
pub mod Loop
pub mod Attributes
pub mod Commands
pub mod Dispatch
pub mod Ends
pub mod Required
pub mod Diff
pub mod Replay
