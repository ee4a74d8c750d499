-- ===== src/Proxy.antt =====
-- measurement_proxy/proxy.c: what its parts share. The proxy holds three sockets: the UDP tunnel, a
-- packet socket that sees every Ethernet frame of the interface, and a raw socket for outgoing IP
-- packets. `FdSet` is `fd_set`; a handler returns the new state with what it handed to the kernel.
pub mod Arp
pub mod Raw
pub mod Udp
pub mod Loop
pub mod Setup
pub mod ArpFrame
pub mod Frames
pub mod Fields
pub mod Forwarding
pub mod Outgoing
pub mod Keeps
pub mod Shutdown
pub mod Drains
pub mod Safety
pub mod Descriptors
pub mod Exhaustion
pub mod Opening
use matador.Base.{
  ℕ, ◌+◌, ◌==◌, ◌||◌, Bool, Option, none, some, List, take, drop, length, leb, if◌then◌else◌,
}
use matador.Base.Int.{ℤ}
use matador.Memory.{Bytes}
use matador.Socket.{SockaddrIn}
use matador.BindPublic.{Sockaddr}

abbrev pub buflen : ℕ
buflen = 65535

abbrev pub fd_setsize : ℕ
fd_setsize = 1024

abbrev pub sizeof_ethhdr : ℕ
sizeof_ethhdr = 14

abbrev pub sizeof_arp : ℕ
sizeof_arp = 42

abbrev pub eth_p_ip : ℕ
eth_p_ip = 0x0800

abbrev pub eth_p_arp : ℕ
eth_p_arp = 0x0806

abbrev pub ipproto_icmp : ℕ
ipproto_icmp = 1

abbrev pub ipproto_tcp : ℕ
ipproto_tcp = 6

abbrev pub ipproto_udp : ℕ
ipproto_udp = 17

abbrev pub FdSet : Type 0
FdSet = ℕ → Bool

-- FD_SET
abbrev pub fd_set : ℕ → FdSet → FdSet
fd_set fd set = λ n. n == fd || set n

-- What `main` has settled when it enters its loop.
pub record Config : Type 0 where
  pub sock_udp : ℕ
  pub sock_raw_recv : ℕ
  pub sock_raw_send : ℕ
  pub if_raw_mac : Bytes
  pub if_raw_addr : ℕ
  pub port : ℤ
  pub rport : ℤ

-- The variables that the loop changes.
pub record State : Type 0 where
  pub buffer : Bytes
  pub arp : Bytes
  pub udp_client_addr : SockaddrIn
  pub fd_udp_port : List ℕ
  pub maxfd : ℤ
  pub rset : FdSet

-- A call that leaves the process: a frame on the interface, a datagram through the tunnel, an IP
-- packet to its destination, a new socket with the addresses that it was bound to, and a datagram
-- read from such a socket and thrown away.
pub data Effect : Type 0 where
  send_frame : Bytes → Effect
  send_tunnel : SockaddrIn → Bytes → Effect
  send_packet : ℕ → Bytes → Effect
  open_fake : ℕ → List Sockaddr → Effect
  drain : ℕ → Effect

-- `n` bytes of a buffer from `i` on, as `sendto` reads them
abbrev pub slice : Bytes → ℕ → ℕ → Option Bytes
slice buf i n = if leb (i + n) (length buf) then some (take n (drop i buf)) else none
