-- ===== src/Tunnel.antt =====
-- measurement_proxy/tunnel.c, in the parts that `main` goes through.
pub mod Options
pub mod Auth
pub mod Packets
pub mod Local
pub mod Reachable
pub mod Invited
pub mod Arch
pub mod Upload
pub mod Announce
pub mod Targets
pub mod Login
pub mod Overflow
pub mod Transfer
pub mod Handshake
pub mod EndToEnd
pub mod Session
pub mod Calls
pub mod Resolv
pub mod Launch
pub mod Launched
pub mod Farewell
