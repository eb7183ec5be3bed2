-- ===== src/ShimIpcp.antt =====
-- components/ShimIPCP: the shim over Ethernet.
pub mod ArpCache
pub mod Arp
pub mod Shim
mod Tests
mod ArpTests
mod ShimTests
