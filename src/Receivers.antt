-- ===== src/Receivers.antt =====
-- pkg/receive/receivers: the receivers that btrsync has.
pub mod Os
pub mod Files
pub mod Nop
pub mod Dispatched
pub mod Local
pub mod MemFs
pub mod SshDir
pub mod Directory
pub mod Resume
pub mod Saving
