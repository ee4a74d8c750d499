-- ===== src/Stun/Attributes.antt =====
-- `stun_handle_packet`: the fields of one encoded attribute, and its mapped address.
use matador.Base.{
  ℕ, ◌+◌, ◌<◌, ◌≡◌, refl, arith, some, [], ◌∷◌, ◌++◌, length, ◌∙◌, sym, ap, append_assoc, drop,
  drop-append,
}
use matador.Memory.{Bytes, be16, be32, head16, head32, be16_at, be32_at, write_at}
use matador.Memory.Laws.{head16-be16, head32-be32, write_at-append, drop-append_add}
use matador.Socket.{SockaddrIn}
use matador.Stun.{stun_get_mapped, call_cb}
use matador.Stun.Message.{Attr, mapped, other, IsAttr, value_of, kind_of, encode_attr, address_of}

pub be16_at-append :
    (pre xs : Bytes) (k : ℕ) → be16_at (pre ++ xs) (length pre + k) ≡ head16 (drop k xs)
unfolding be16_at
be16_at-append pre xs k = rw (drop-append_add pre xs k)

be32_at-append :
    (pre xs : Bytes) (k : ℕ) → be32_at (pre ++ xs) (length pre + k) ≡ head32 (drop k xs)
unfolding be32_at
be32_at-append pre xs k = rw (drop-append_add pre xs k)

be16_at_start : (pre xs : Bytes) → be16_at (pre ++ xs) (length pre) ≡ head16 xs
unfolding be16_at
be16_at_start pre xs = rw (drop-append pre xs)

kind-lt : (a : Attr) → IsAttr a → kind_of a < 65536
kind-lt (mapped unused family port addr) ok = omega arith
kind-lt (other kind value) ok = ok.0

length-lt : (a : Attr) → IsAttr a → length (value_of a) < 65536
length-lt (mapped unused family port addr) ok = omega arith
length-lt (other kind value) ok = ok.1

module _ (pre rest : Bytes) (a : Attr) (sa : SockaddrIn) where
  abbrev pub here : Bytes
  here = pre ++ (encode_attr a ++ rest)

  pub kind-here : IsAttr a → be16_at here (length pre) ≡ some (kind_of a)
  unfolding encode_attr
  kind-here ok =
      be16_at_start pre (encode_attr a ++ rest)
      ∙ head16-be16 (kind_of a) ((be16 (length (value_of a)) ++ value_of a) ++ rest) (kind-lt a ok)

  pub length-here : IsAttr a → be16_at here (length pre + 2) ≡ some (length (value_of a))
  unfolding encode_attr
  length-here ok =
      be16_at-append pre (encode_attr a ++ rest) 2
      ∙ head16-be16 (length (value_of a)) (value_of a ++ rest) (length-lt a ok)

  pub written-here :
      write_at here (length pre) (0 ∷ 0 ∷ [])
      ≡ some ((pre ++ (0 ∷ 0 ∷ (be16 (length (value_of a)) ++ value_of a))) ++ rest)
  unfolding encode_attr
  written-here =
      write_at-append pre (be16 (kind_of a)) (0 ∷ 0 ∷ [])
        (be16 (length (value_of a)) ++ (value_of a ++ rest)) refl
      ∙ ap some (sym (append_assoc pre (0 ∷ 0 ∷ (be16 (length (value_of a)) ++ value_of a)) rest))

mapped-here :
    (pre rest : Bytes) (unused family port addr : ℕ) (sa : SockaddrIn)
    → IsAttr (mapped unused family port addr)
    → (be16_at (here pre rest (mapped unused family port addr) sa) (length pre + 4 + 2) ≡ some port)
      × (be32_at (here pre rest (mapped unused family port addr) sa) (length pre + 4 + 4)
          ≡ some addr)
unfolding encode_attr
mapped-here pre rest unused family port addr sa ok =
    let a = mapped unused family port addr in
    let six : length pre + 4 + 2 ≡ length pre + 6 = omega arith in
    let eight : length pre + 4 + 4 ≡ length pre + 8 = omega arith in
    (
      rw six (
          be16_at-append pre (encode_attr a ++ rest) 6 ∙ head16-be16 port (be32 addr ++ rest) ok.0),
      rw eight (be32_at-append pre (encode_attr a ++ rest) 8 ∙ head32-be32 addr rest ok.1),
    )

pub stun_get_mapped-here :
    (pre rest : Bytes) (a : Attr) (sa : SockaddrIn)
    → IsAttr a
    → call_cb (some stun_get_mapped) (here pre rest a sa) (length pre) sa ≡ some (address_of sa a)
unfolding call_cb stun_get_mapped
stun_get_mapped-here pre rest (mapped unused family port addr) sa ok =
    let a = mapped unused family port addr in
    let e = mapped-here pre rest unused family port addr sa ok in
    rw (kind-here pre rest a sa ok, length-here pre rest a sa ok, e.0, e.1)
stun_get_mapped-here pre rest (other kind value) sa ok =
    let a = other kind value in
    rw (kind-here pre rest a sa ok, length-here pre rest a sa ok) (ground (arith, ok.2))
