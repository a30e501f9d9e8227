-- ===== src/Upgrade.antt =====
-- The upgrade tool of the Windows release: cpp-sdk-http-bridge-linux/src/windows-upgrade.cpp, which
-- replaces the installed directory and service by the package that it stands in, or puts both back.
pub mod World
pub mod Services
pub mod Files
pub mod Verify
pub mod Snapshots
pub mod Transaction
pub mod Rules
pub mod Undoing
pub mod Atomic
pub mod Finding
pub mod Copying
pub mod Outcome
