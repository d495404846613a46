-- ===== src/Resolver.antt =====
-- The name resolvers of the Android plugin, android/src/main/kotlin/com/example/lan_scan/networkUtils.
pub mod Attempt
pub mod Mdns
pub mod NetBios
