-- ===== src/Stun/Parse.antt =====
-- `stun_handle_packet` beside a description of the messages it reads.
use matador.Base.{
  ℕ, zero, suc, ◌+◌, ◌-◌, ◌*◌, ◌≤◌, ◌<◌, ◌≡◌, refl, arith, Option, none, some, List, [], ◌∷◌, ◌++◌,
  length, ltb, ◌==◌, false, Runs, Runs-some, Runs-bind, append_assoc, length-append,
}
use native.Mathlib.Nat.{zero-add, add_assoc}
use Prim.Native.Nat.{min}
use matador.Base.Int.{pos}
use matador.Memory.{Bytes, be16, be16_at}
use matador.Memory.Laws.{write_at-Runs, be16_at-prefix}
use matador.Socket.{SockaddrIn}
use matador.Stun.{
  StunCb, StunState, stun_process_attr, stun_get_mapped, Cursor, break_loop, continue_loop,
  attr_step, attr_loop, clamp_len, Handled, stun_handle_packet, sizeof_stun_header, stun_ignore,
}
use matador.Stun.Message.{
  Attr, IsAttr, IsAttrs, value_of, kind_of, encode_attr, encode, address_of, mapped_address, IsTail,
}
use matador.Stun.Attributes.{
  here, kind-here, length-here, written-here, be16_at-append, stun_get_mapped-here,
}

-- With STUN_BINDREQ_PROCESS undefined no attribute changes the state, and none fails.
stun_process_attr_lem : (st : StunState) (kind : ℕ) → stun_process_attr st kind ≡ (st, 0)
unfolding stun_process_attr
stun_process_attr_lem st kind = ground arith

module _ (pre rest : Bytes) (a : Attr) (st : StunState) (sa : SockaddrIn) (left : ℕ) where
  -- The cursor at an attribute, and behind it.
  abbrev before : Cursor
  before = record {
    buf = here pre rest a sa;
    at = length pre;
    left = length (encode_attr a) + left;
    st = st;
    arg = sa;
  }

  abbrev passed : Bytes
  passed = pre ++ (0 ∷ 0 ∷ (be16 (length (value_of a)) ++ value_of a))

  abbrev behind : Cursor
  behind = record {
    buf = passed ++ rest;
    at = length passed;
    left = left;
    st = st;
    arg = address_of sa a;
  }

  attr_step-here : IsAttr a → attr_step (some stun_get_mapped) before ≡ some (continue_loop behind)
  unfolding attr_step
  attr_step-here ok =
      let size : length (encode_attr a) ≡ length (value_of a) + 4 =
        unfold encode_attr in (omega arith) in
      let nonempty : (length (encode_attr a) + left == 0) ≡ false = ground arith in
      let whole : ltb (length (encode_attr a) + left) 4 ≡ false = ground arith in
      let fits : ltb (length (encode_attr a) + left) (length (value_of a) + 4) ≡ false =
        ground arith in
      rw
        (
          nonempty,
          whole,
          length-here pre rest a sa ok,
          fits,
          stun_get_mapped-here pre rest a sa ok,
          kind-here pre rest a sa ok,
          stun_process_attr_lem st (kind_of a),
          written-here pre rest a sa,
        )
        (ground (arith, length-append pre (0 ∷ 0 ∷ (be16 (length (value_of a)) ++ value_of a))))

attr_step_tail :
    (pre tail post : Bytes) (cb : Option StunCb) (st : StunState) (sa : SockaddrIn)
    → IsTail tail
    → let w : Cursor = record {
      buf = pre ++ (tail ++ post);
      at = length pre;
      left = length tail;
      st = st;
      arg = sa;
    } in
      attr_step cb w ≡ some (break_loop w)
unfolding attr_step
attr_step_tail pre (x ∷ y ∷ c ∷ d ∷ rest) post cb st sa stuck =
    let e : be16_at (pre ++ ((x ∷ y ∷ c ∷ d ∷ rest) ++ post)) (length pre + 2)
        ≡ some (c * 256 + d) =
      be16_at-append pre ((x ∷ y ∷ c ∷ d ∷ rest) ++ post) 2 in
    rw e (ground arith)
attr_step_tail pre [] post cb st sa stuck = refl
attr_step_tail pre _ post cb st sa stuck = ground arith

encode_attr-pos : (a : Attr) → 0 < length (encode_attr a)
unfolding encode_attr
encode_attr-pos a = omega arith

-- The loop over an encoded list, with a tail that ends it.
attr_loop-encode :
    (attrs : List Attr) (fuel : ℕ) (pre tail post : Bytes) (st : StunState) (sa : SockaddrIn)
    → IsAttrs attrs
    → IsTail tail
    → 0 < length post
    → length (encode attrs) + length tail < fuel
    → Runs
        (λ (w : Cursor). (w.arg ≡ mapped_address sa attrs) × (w.at < length w.buf))
        (attr_loop fuel (some stun_get_mapped) (record {
          buf = pre ++ (encode attrs ++ (tail ++ post));
          at = length pre;
          left = length (encode attrs) + length tail;
          st = st;
          arg = sa;
        }))
unfolding attr_loop encode mapped_address
attr_loop-encode attrs zero pre tail post st sa ok stuck room h = absurd (omega arith)
attr_loop-encode [] (suc fuel) pre tail post st sa ok stuck room h =
    rw (zero-add (length tail), attr_step_tail pre tail post (some stun_get_mapped) st sa stuck)
      (Runs-some _ (refl, omega (arith, length-append pre (tail ++ post), length-append tail post)))
attr_loop-encode (a ∷ attrs) (suc fuel) pre tail post st sa ok stuck room h =
    let rest = encode attrs ++ (tail ++ post) in
    let left = length (encode attrs) + length tail in
    let shorter : left < fuel =
      omega (arith, encode_attr-pos a, length-append (encode_attr a) (encode attrs)) in
    rw
      (
        append_assoc (encode_attr a) (encode attrs) (tail ++ post),
        length-append (encode_attr a) (encode attrs),
        add_assoc (length (encode_attr a)) (length (encode attrs)) (length tail),
        attr_step-here pre rest a st sa left ok.0,
      )
      (attr_loop-encode attrs fuel (passed pre rest a st sa left) tail post st (address_of sa a)
        ok.1 stuck room shorter)

-- A message whose attributes are `attrs`, with a tail that is no whole attribute, gives the last
-- mapped address among them, or leaves the answer as it was. `len` bytes were received, and the
-- header advertises `x`; what lies behind the smaller of the two is not read.
pub stun_handle_packet-encode :
    (header : Bytes) (attrs : List Attr) (tail post : Bytes) (x len : ℕ) (sa : SockaddrIn)
    → length header ≡ sizeof_stun_header
    → be16_at header 2 ≡ some x
    → IsAttrs attrs
    → IsTail tail
    → sizeof_stun_header ≤ len
    → min x (len - sizeof_stun_header) ≡ length (encode attrs) + length tail
    → 0 < length post
    → Runs
        (λ (r : Handled). (r.ret ≡ pos stun_ignore) × (r.arg ≡ mapped_address sa attrs))
        (stun_handle_packet
          (header ++ (encode attrs ++ (tail ++ post)))
          len
          (some stun_get_mapped)
          sa)
unfolding stun_handle_packet
stun_handle_packet-encode header attrs tail post x len sa size advertised ok stuck whole left room =
    let body = encode attrs ++ (tail ++ post) in
    let clamped : clamp_len x (len - 20) ≡ length (encode attrs) + length tail =
      unfold clamp_len in (ground arith) in
    let long : ltb len 20 ≡ false = ground arith in
    let w =
      attr_loop-encode attrs (suc (length (encode attrs) + length tail)) header tail post
        (record { username = none; password = none }) sa ok stuck room (omega arith) in
    rw (long, be16_at-prefix header body 2 advertised, clamped, ← size)
      (Runs-bind _ w λ v _ p.
        Runs-bind _ (write_at-Runs v.buf v.at (0 ∷ []) (omega arith))
          λ terminated _ _. Runs-some _ (refl, p.0))
