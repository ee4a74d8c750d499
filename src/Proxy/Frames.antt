-- ===== src/Proxy/Frames.antt =====
-- An independent description of the Ethernet frames that reach the proxy, and of what it should do
-- with each.
use matador.Base.{
  ℕ, ◌≡◌, ◌<◌, Bool, false, ◌&&◌, ◌||◌, not, List, [], ◌∷◌, ◌++◌, length, ◌==◌, if◌then◌else◌,
}
use matador.Memory.{Bytes, be16, be32}
use matador.CText.{streq}
use matador.Proxy.{Config, State, Effect, send_frame, send_tunnel}
use matador.Proxy.Raw.{eq_int}
use matador.Proxy.ArpFrame.{arp_reply}

-- An ARP packet as far as it is read; `fixed` are its first eight bytes less the opcode.
pub record ArpPacket : Type 0 where
  pub fixed : Bytes
  pub opcode : ℕ
  pub sender_mac : Bytes
  pub sender_ip : Bytes
  pub target_mac : Bytes
  pub target_ip : Bytes
  pub padding : Bytes

-- An IP packet with a header of 20 bytes and at least four bytes behind it: for TCP and UDP these
-- are the ports.
pub record IpPacket : Type 0 where
  pub before : Bytes
  pub protocol : ℕ
  pub checksum : Bytes
  pub saddr : ℕ
  pub daddr : ℕ
  pub source : ℕ
  pub dest : ℕ
  pub body : Bytes

pub data Frame : Type 0 where
  arp_frame : Bytes → ArpPacket → Frame
  ip_frame : Bytes → IpPacket → Frame
  other_frame : Bytes → ℕ → Bytes → Frame

unfoldable pub encode_ip : IpPacket → Bytes
encode_ip p =
    p.before
    ++ (p.protocol
        ∷ (p.checksum
            ++ (be32 p.saddr ++ (be32 p.daddr ++ (be16 p.source ++ (be16 p.dest ++ p.body))))))

unfoldable pub encode_arp : ArpPacket → Bytes
encode_arp p =
    p.fixed
    ++ (be16 p.opcode
        ++ (p.sender_mac ++ (p.sender_ip ++ (p.target_mac ++ (p.target_ip ++ p.padding)))))

-- The addresses, the type, and the packet.
unfoldable pub encode_frame : Frame → Bytes
unfolding encode_ip encode_arp
encode_frame (arp_frame macs p) = macs ++ (be16 0x0806 ++ encode_arp p)
encode_frame (ip_frame macs p) = macs ++ (be16 0x0800 ++ encode_ip p)
encode_frame (other_frame macs type payload) = macs ++ (be16 type ++ payload)

pub record IsArp (p : ArpPacket) : Type 0 where
  pub fixed : length p.fixed ≡ 6
  pub opcode : p.opcode < 65536
  pub sender_mac : length p.sender_mac ≡ 6
  pub sender_ip : length p.sender_ip ≡ 4
  pub target_mac : length p.target_mac ≡ 6
  pub target_ip : length p.target_ip ≡ 4

pub record IsIp (p : IpPacket) : Type 0 where
  pub before : length p.before ≡ 9
  pub checksum : length p.checksum ≡ 2
  pub saddr : p.saddr < 4294967296
  pub daddr : p.daddr < 4294967296
  pub source : p.source < 65536
  pub dest : p.dest < 65536

abbrev pub IsFrame : Frame → Type 0
IsFrame (arp_frame macs p) = (length macs ≡ 12) × IsArp p
IsFrame (ip_frame macs p) = (length macs ≡ 12) × IsIp p
IsFrame (other_frame macs type payload) =
    (length macs ≡ 12) × (type < 65536) × ((type == 0x0806 || type == 0x0800) ≡ false)

-- The tunnel's own traffic: UDP from the peer's address and port to the proxy's port.
abbrev pub is_own : Config → State → IpPacket → Bool
is_own cfg s p =
    p.protocol == 17
    && (p.saddr == s.udp_client_addr.s_addr
        && (eq_int p.source cfg.rport && eq_int p.dest cfg.port))

-- What goes through the tunnel: a packet for the proxy's address that is neither TCP nor the
-- tunnel's own.
abbrev pub is_forwarded : Config → State → IpPacket → Bool
is_forwarded cfg s p = p.daddr == cfg.if_raw_addr && (not (p.protocol == 6) && not (is_own cfg s p))

-- A request for the proxy's address.
abbrev pub is_asked : Config → ArpPacket → Bool
is_asked cfg p = p.opcode == 1 && streq p.target_ip (be32 cfg.if_raw_addr)

unfoldable pub action : Config → State → Frame → List Effect
action cfg s (arp_frame macs p) =
    if is_asked cfg p
    then send_frame (arp_reply p.sender_mac cfg.if_raw_mac cfg.if_raw_addr) ∷ []
    else []
action cfg s (ip_frame macs p) =
    if is_forwarded cfg s p then send_tunnel s.udp_client_addr (encode_ip p) ∷ [] else []
action cfg s (other_frame macs type payload) = []
