-- ===== src/Stun/Message.antt =====
-- An independent description of a STUN message (RFC 3489): a list of attributes and their encoding.
use matador.Base.{ℕ, ◌+◌, ◌*◌, ◌<◌, ◌≡◌, List, [], ◌∷◌, ◌++◌, length}
use matador.Memory.{Bytes, be16, be32}
use matador.Socket.{SockaddrIn}

-- An attribute of RFC 3489: the address that the server saw, or any other.
pub data Attr : Type 0 where
  mapped : ℕ → ℕ → ℕ → ℕ → Attr
  other : ℕ → Bytes → Attr

-- `mapped unused family port addr`; the other attributes have another code or another length.
abbrev pub IsAttr : Attr → Type 0
IsAttr (mapped unused family port addr) = (port < 65536) × (addr < 4294967296)
IsAttr (other kind value) =
    (kind < 65536) × (length value < 65536) × ((kind ≡ 1) → (length value ≡ 8) → ⊥)

abbrev pub IsAttrs : List Attr → Type 0
IsAttrs [] = Unit
IsAttrs (a ∷ attrs) = IsAttr a × IsAttrs attrs

abbrev pub value_of : Attr → Bytes
value_of (mapped unused family port addr) = unused ∷ family ∷ (be16 port ++ be32 addr)
value_of (other kind value) = value

abbrev pub kind_of : Attr → ℕ
kind_of (mapped _ _ _ _) = 1
kind_of (other kind _) = kind

unfoldable pub encode_attr : Attr → Bytes
encode_attr a = be16 (kind_of a) ++ (be16 (length (value_of a)) ++ value_of a)

unfoldable pub encode : List Attr → Bytes
encode [] = []
encode (a ∷ attrs) = encode_attr a ++ encode attrs

-- The address that a list of attributes gives: the last mapped one.
abbrev pub address_of : SockaddrIn → Attr → SockaddrIn
address_of sa (mapped unused family port addr) = record { sin_port = port; s_addr = addr }
address_of sa (other kind value) = sa

unfoldable pub mapped_address : SockaddrIn → List Attr → SockaddrIn
mapped_address sa [] = sa
mapped_address sa (a ∷ attrs) = mapped_address (address_of sa a) attrs

-- What ends the loop: nothing, less than an attribute's head, or an attribute that is longer than
-- what is left.
abbrev pub IsTail : Bytes → Type 0
IsTail (_ ∷ _ ∷ c ∷ d ∷ rest) = length rest < c * 256 + d
IsTail _ = Unit
