-- ===== src/Scanner.antt =====
-- The scan of the Android plugin, android/src/main/kotlin/com/example/lan_scan/scanner/LanDeviceScanner.kt.
pub mod Host
pub mod Listing
pub mod Naming
pub mod Range
pub mod Tasks
mod Runs
