-- ===== src/Net.antt =====
-- kernel/src/net: packets as lists of bytes.
pub mod Checksum
pub mod Ip
pub mod Udp
pub mod Icmp
mod Tests
