-- ===== src/Tests.antt =====
-- Runs of the model on concrete inputs.
pub mod Settings
pub mod VAccel
pub mod Initrd
pub mod Network
pub mod Shim
pub mod Launch
pub mod Command
pub mod Mounts
pub mod Guest
pub mod Host
pub mod Guests
pub mod Life
pub mod Resources
