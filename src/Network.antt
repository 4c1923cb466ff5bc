-- ===== src/Network.antt =====
-- The network driver of the daemon: daemon/networkdriver.
mod Tests
pub mod PortAllocator
pub mod PortMapper
pub mod Bridge
pub mod Ip
pub mod Iptables
pub mod IpAllocator
