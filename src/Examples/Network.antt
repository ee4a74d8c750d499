-- ===== src/Examples/Network.antt =====
-- A small network for the runs of measurement_proxy/proxy.c: an interface, a host that asks, packets,
-- and kernels that answer.
use matador.Base.{
  ℕ, ◌≡◌, refl, arith, false, ◌&&◌, ◌==◌, none, some, [], ◌∷◌, length, replicate, length-replicate,
}
use matador.Base.Int.{ℤ, pos}
use matador.Memory.{Bytes, be32}
use matador.BindPublic.{failed, Resolver}
use matador.BindPublic.Rebind.{HonoursFamily}
use matador.Proxy.{Config, State, FdSet}
use matador.Proxy.ArpFrame.{arp_reply}
use matador.Proxy.Udp.{Sockets}
use matador.Proxy.Loop.{Kernel}
use matador.Proxy.Frames.{
  ArpPacket, IpPacket, arp_frame, ip_frame, encode_ip, encode_arp, encode_frame, IsIp, IsFrame,
}
use matador.Proxy.Forwarding.{KeepsReply}
use matador.Proxy.Safety.{IsSized, IsUsable}
use matador.Proxy.Descriptors.{IsUdpPacket}
use matador.Proxy.Drains.{IsSelect}
use matador.Proxy.Exhaustion.{DeliversUdp}

abbrev pub our_mac : Bytes
our_mac = 2 ∷ 0 ∷ 0 ∷ 0 ∷ 0 ∷ 1 ∷ []

abbrev pub cfg : Config
cfg = record {
  sock_udp = 3;
  sock_raw_recv = 4;
  sock_raw_send = 5;
  if_raw_mac = our_mac;
  if_raw_addr = 3232235521;
  port = pos 6001;
  rport = pos 7000;
}

abbrev pub first_asker : Bytes
first_asker = replicate 6 255

abbrev pub zeros : Bytes
zeros = replicate 65535 0

abbrev pub start_state : State
start_state = record {
  buffer = zeros;
  arp = arp_reply first_asker our_mac 3232235521;
  udp_client_addr = record { sin_port = 7000; s_addr = 167772161 };
  fd_udp_port = replicate 1024 0;
  maxfd = pos 5;
  rset = λ _. false;
}

pub zeros_size : length zeros ≡ 65535
zeros_size = length-replicate {A = ℕ} 65535 0

pub start_state-IsSized : IsSized start_state
start_state-IsSized = record {
  buffer_size = zeros_size;
  arp_size = refl;
  ports_size = length-replicate {A = ℕ} 1024 0;
}

pub start_state-KeepsReply : KeepsReply cfg start_state
start_state-KeepsReply = record { asker = first_asker; asker_size = refl; arp_is = refl }

abbrev pub macs : Bytes
macs = replicate 12 17

abbrev pub request : ArpPacket
request = record {
  fixed = 0 ∷ 1 ∷ 8 ∷ 0 ∷ 6 ∷ 4 ∷ [];
  opcode = 1;
  sender_mac = replicate 6 17;
  sender_ip = be32 3232235530;
  target_mac = replicate 6 0;
  target_ip = be32 3232235521;
  padding = [];
}

pub request-IsFrame : IsFrame (arp_frame macs request)
request-IsFrame = (
  refl,
  record {
    fixed = refl;
    opcode = omega arith;
    sender_mac = refl;
    sender_ip = refl;
    target_mac = refl;
    target_ip = refl;
  },
)

abbrev pub packet : ℕ → IpPacket
packet protocol = record {
  before = replicate 9 69;
  protocol = protocol;
  checksum = 0 ∷ 0 ∷ [];
  saddr = 134744072;
  daddr = 3232235521;
  source = 53;
  dest = 4000;
  body = 0 ∷ 12 ∷ 0 ∷ 0 ∷ [];
}

pub packet-IsIp : (protocol : ℕ) → IsIp (packet protocol)
packet-IsIp protocol = record {
  before = refl;
  checksum = refl;
  saddr = omega arith;
  daddr = omega arith;
  source = omega arith;
  dest = omega arith;
}

pub packet_size : (protocol : ℕ) → length (encode_ip (packet protocol)) ≡ 28
unfolding encode_ip
packet_size protocol = refl

pub frame_size : (protocol : ℕ) → length (encode_frame (ip_frame macs (packet protocol))) ≡ 42
unfolding encode_frame encode_ip
frame_size protocol = refl

pub request_size : length (encode_frame (arp_frame macs request)) ≡ 42
unfolding encode_frame encode_arp
request_size = refl

abbrev pub no_lookup : Resolver
no_lookup f = failed

pub no_lookup-HonoursFamily : HonoursFamily no_lookup
no_lookup-HonoursFamily = record { honours = λ f a e. absurd (ground arith) }

abbrev pub sockets : ℤ → Sockets
sockets fd = record { socket = fd; resolve = no_lookup; bind = λ _. pos 0 }

pub sockets-IsUsable : IsUsable (sockets (pos 6))
sockets-IsUsable = record {
  fd = 6;
  socket_is = refl;
  in_table = omega arith;
  honest = no_lookup-HonoursFamily;
}

-- `select` reports the tunnel's socket, and no other.
abbrev pub udp_ready : ℤ → FdSet → ℤ × FdSet
udp_ready nfds set = (pos 1, λ fd. set fd && fd == 3)

abbrev pub udp_packet : Bytes
udp_packet = encode_ip (packet 17)

abbrev pub kernel : ℕ → Kernel
kernel fd = record {
  select = udp_ready;
  frame = none;
  datagram = some udp_packet;
  sockets = sockets (pos fd);
  fake = λ _. none;
}

pub kernel-IsSelect : IsSelect udp_ready
kernel-IsSelect = record { subset = λ nfds set fd e. ground (arith, e) }

abbrev pub only_udp : ℕ → Kernel
only_udp fd = record (kernel fd) { select = λ nfds set. (pos 1, λ n. n == 3) }

pub udp_packet-IsUdpPacket : IsUdpPacket udp_packet
unfolding encode_ip
udp_packet-IsUdpPacket = record { protocol = refl; short = omega arith }

pub only_udp-DeliversUdp : (fd : ℕ) → DeliversUdp cfg fd (only_udp fd)
only_udp-DeliversUdp fd = record {
  packet = udp_packet;
  is_packet = udp_packet-IsUdpPacket;
  datagram_is = refl;
  selected = λ nfds set. refl;
  no_frame = λ nfds set. refl;
  ready = λ nfds set. refl;
  socket_is = refl;
}
