-- ===== src/Memory.antt =====
-- Memory as the C code of measurement_proxy uses it: a buffer is a list of bytes, a read or a write
-- past its end is undefined behaviour (`none`), and a multi-byte field is read in network order,
-- which is what `ntohs` or `ntohl` of the field gives.
pub mod Laws
use matador.Base.{
  ℕ, ◌+◌, ◌*◌, ◌/◌, ◌%◌, Option, none, some, List, [], ◌∷◌, ◌++◌, take, drop, length, leb,
  if◌then◌else◌,
}

abbrev pub Bytes : Type 0
Bytes = List ℕ

-- A 16-bit and a 32-bit number in network order.
abbrev pub be16 : ℕ → Bytes
be16 n = (n / 256 % 256) ∷ (n % 256) ∷ []

abbrev pub be32 : ℕ → Bytes
be32 n = (n / 16777216 % 256) ∷ (n / 65536 % 256) ∷ (n / 256 % 256) ∷ (n % 256) ∷ []

abbrev pub head16 : Bytes → Option ℕ
head16 (a ∷ b ∷ _) = some (a * 256 + b)
head16 _ = none

abbrev pub head32 : Bytes → Option ℕ
head32 (a ∷ b ∷ c ∷ d ∷ _) = some (((a * 256 + b) * 256 + c) * 256 + d)
head32 _ = none

unfoldable pub be16_at : Bytes → ℕ → Option ℕ
be16_at buf i = head16 (drop i buf)

unfoldable pub be32_at : Bytes → ℕ → Option ℕ
be32_at buf i = head32 (drop i buf)

-- `memcpy(buf + i, bytes, length bytes)`
unfoldable pub write_at : Bytes → ℕ → Bytes → Option Bytes
write_at buf i bytes =
    if leb (i + length bytes) (length buf)
    then some (take i buf ++ (bytes ++ drop (i + length bytes) buf))
    else none

-- What `recvfrom` leaves in a buffer: the datagram, cut to `size` bytes, over the old contents.
unfoldable pub recv_into : Bytes → ℕ → Bytes → Bytes
recv_into buf size datagram = take size datagram ++ drop (length (take size datagram)) buf
