-- ===== src/Obfs/Frame.antt =====
-- The frames that `obfs_wrap` puts round a packet, read back by `obfs_unwrap`, profile by profile.
mod Fixed
mod Variable
mod Dns
pub use Fixed.*
pub use Variable.*
pub use Dns.*
