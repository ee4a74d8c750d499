-- ===== src/Proxy/Fields.antt =====
-- Where the fields of an encoded frame stand in a buffer.
use matador.Base.{ℕ, ◌≡◌, ◌<◌, ◌≤◌, refl, ap, arith, some, [], ◌∷◌, ◌++◌, length, drop, get_elem?}
use matador.Memory.{Bytes, be16, be32, be16_at, be32_at}
use matador.Memory.Laws.{head16-be16, head32-be32}
use matador.Proxy.{slice}
use matador.Proxy.Frames.{
  ArpPacket, IpPacket, arp_frame, ip_frame, encode_ip, encode_arp, encode_frame, IsIp, IsFrame,
}

-- Lists of a fixed length, taken apart.
pub data Two : Bytes → Type 0 where
  two : (a b : ℕ) → Two (a ∷ b ∷ [])

data Four : Bytes → Type 0 where
  four : (a b c d : ℕ) → Four (a ∷ b ∷ c ∷ d ∷ [])

data Six : Bytes → Type 0 where
  six : (a b c d e f : ℕ) → Six (a ∷ b ∷ c ∷ d ∷ e ∷ f ∷ [])

pub data Nine : Bytes → Type 0 where
  nine : (a b c d e f g h i : ℕ) → Nine (a ∷ b ∷ c ∷ d ∷ e ∷ f ∷ g ∷ h ∷ i ∷ [])

data Twelve : Bytes → Type 0 where
  twelve :
      (a b c d e f g h i j k l : ℕ) → Twelve (a ∷ b ∷ c ∷ d ∷ e ∷ f ∷ g ∷ h ∷ i ∷ j ∷ k ∷ l ∷ [])

pub Two-of : (xs : Bytes) → length xs ≡ 2 → Two xs
Two-of (a ∷ b ∷ []) h = two a b
Two-of _ h = absurd (omega arith)

Four-of : (xs : Bytes) → length xs ≡ 4 → Four xs
Four-of (a ∷ b ∷ c ∷ d ∷ []) h = four a b c d
Four-of _ h = absurd (omega arith)

Six-of : (xs : Bytes) → length xs ≡ 6 → Six xs
Six-of (a ∷ b ∷ c ∷ d ∷ e ∷ f ∷ []) h = six a b c d e f
Six-of _ h = absurd (omega arith)

pub Nine-of : (xs : Bytes) → length xs ≡ 9 → Nine xs
Nine-of (a ∷ b ∷ c ∷ d ∷ e ∷ f ∷ g ∷ h ∷ i ∷ []) z = nine a b c d e f g h i
Nine-of _ z = absurd (omega arith)

Twelve-of : (xs : Bytes) → length xs ≡ 12 → Twelve xs
Twelve-of (a ∷ b ∷ c ∷ d ∷ e ∷ f ∷ g ∷ h ∷ i ∷ j ∷ k ∷ l ∷ []) z = twelve a b c d e f g h i j k l
Twelve-of _ z = absurd (omega arith)

-- The fields of an IP packet behind an Ethernet header of 14 bytes.
pub record IpReads (buf post : Bytes) (p : IpPacket) : Type 0 where
  pub protocol_at : get_elem? buf 23 ≡ some p.protocol
  pub saddr_at : be32_at buf 26 ≡ some p.saddr
  pub daddr_at : be32_at buf 30 ≡ some p.daddr
  pub source_at : be16_at buf 34 ≡ some p.source
  pub dest_at : be16_at buf 36 ≡ some p.dest
  pub packet_at : drop 14 buf ≡ encode_ip p ++ post
  pub size : 14 ≤ length buf

ip_reads :
    (macs post : Bytes) (p : IpPacket) {before checksum : Bytes}
    → Twelve macs
    → Nine before
    → Two checksum
    → IsIp p
    → let q : IpPacket = record p { before = before; checksum = checksum } in
      IpReads ((macs ++ (be16 0x0800 ++ encode_ip q)) ++ post) post q
unfolding encode_ip be16_at be32_at
ip_reads macs post p (twelve a b c d e f g h i j k l) (nine a' b' c' d' e' f' g' h' i') (two x y)
      ok =
    record {
      protocol_at = refl;
      saddr_at =
          head32-be32 p.saddr ((be32 p.daddr ++ (be16 p.source ++ (be16 p.dest ++ p.body))) ++ post)
            ok.saddr;
      daddr_at = head32-be32 p.daddr ((be16 p.source ++ (be16 p.dest ++ p.body)) ++ post) ok.daddr;
      source_at = head16-be16 p.source ((be16 p.dest ++ p.body) ++ post) ok.source;
      dest_at = head16-be16 p.dest (p.body ++ post) ok.dest;
      packet_at = refl;
      size = omega arith;
    }

-- The fields of an ARP packet behind an Ethernet header.
pub record ArpReads (buf : Bytes) (p : ArpPacket) : Type 0 where
  pub opcode_at : be16_at buf 20 ≡ some p.opcode
  pub target_at : slice buf 38 4 ≡ some p.target_ip
  pub sender_at : slice buf 22 6 ≡ some p.sender_mac

arp_reads :
    (macs post : Bytes) (p : ArpPacket) {fixed sender_mac sender_ip target_mac target_ip : Bytes}
    → Twelve macs
    → Six fixed
    → Six sender_mac
    → Four sender_ip
    → Six target_mac
    → Four target_ip
    → p.opcode < 65536
    → let q : ArpPacket = record {
      fixed = fixed;
      opcode = p.opcode;
      sender_mac = sender_mac;
      sender_ip = sender_ip;
      target_mac = target_mac;
      target_ip = target_ip;
      padding = p.padding;
    } in
      ArpReads ((macs ++ (be16 0x0806 ++ encode_arp q)) ++ post) q
unfolding encode_arp be16_at
arp_reads macs post p (twelve a b c d e f g h i j k l) (six a₁ b₁ c₁ d₁ e₁ f₁)
      (six a₂ b₂ c₂ d₂ e₂ f₂) (four a₃ b₃ c₃ d₃) (six a₄ b₄ c₄ d₄ e₄ f₄) (four a₅ b₅ c₅ d₅) small =
    record { opcode_at = ap some (omega arith); target_at = ground arith; sender_at = ground arith }

type_at :
    (macs rest post : Bytes) (type : ℕ)
    → Twelve macs
    → type < 65536
    → be16_at ((macs ++ (be16 type ++ rest)) ++ post) 12 ≡ some type
unfolding be16_at
type_at macs rest post type (twelve a b c d e f g h i j k l) small = ap some (omega arith)

pub ip_frame_reads :
    (buf macs post : Bytes) (p : IpPacket)
    → IsFrame (ip_frame macs p)
    → buf ≡ encode_frame (ip_frame macs p) ++ post
    → IpReads buf post p
unfolding encode_frame
ip_frame_reads buf macs post p ok e = rw e (
    ip_reads macs post p (Twelve-of macs ok.0) (Nine-of p.before ok.1.before)
      (Two-of p.checksum ok.1.checksum) ok.1)

pub arp_frame_reads :
    (buf macs post : Bytes) (p : ArpPacket)
    → IsFrame (arp_frame macs p)
    → buf ≡ encode_frame (arp_frame macs p) ++ post
    → ArpReads buf p
unfolding encode_frame
arp_frame_reads buf macs post p ok e = rw e (
    arp_reads macs post p (Twelve-of macs ok.0) (Six-of p.fixed ok.1.fixed)
      (Six-of p.sender_mac ok.1.sender_mac) (Four-of p.sender_ip ok.1.sender_ip)
      (Six-of p.target_mac ok.1.target_mac) (Four-of p.target_ip ok.1.target_ip) ok.1.opcode)

pub frame_type_at :
    (buf macs rest post : Bytes) (type : ℕ)
    → length macs ≡ 12
    → type < 65536
    → buf ≡ (macs ++ (be16 type ++ rest)) ++ post
    → be16_at buf 12 ≡ some type
frame_type_at buf macs rest post type size small e =
    rw e (type_at macs rest post type (Twelve-of macs size) small)
