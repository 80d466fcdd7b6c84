-- ===== src/Tests.antt =====
-- Runs at concrete inputs: the parameters given by concrete functions, and a small network.
pub mod Values
pub mod Names
pub mod Files
pub mod Peers
pub mod Wire
pub mod Commands
pub mod Broadcasts
pub mod Writing
pub mod Services
pub mod Keeping
pub mod Running
pub mod Opening
pub mod Reaching
