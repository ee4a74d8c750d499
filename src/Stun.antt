-- ===== src/Stun.antt =====
-- measurement_proxy/ministun.h and the incoming half of measurement_proxy/ministun.c: the message
-- layout, `stun_process_attr`, `stun_get_mapped` and `stun_handle_packet`, compiled as in the
-- source with STUN_BINDREQ_PROCESS undefined. Messages printed to stderr are left out.
pub mod Names
pub mod Request
pub mod Bounds
pub mod Message
pub mod Attributes
pub mod Parse
pub mod Rounds
pub mod Retries
use matador.Base.{
  ℕ, zero, suc, ◌+◌, ◌-◌, Bool, true, false, ◌||◌, not, Option, none, some, List, [], ◌∷◌, length,
  ltb, ◌==◌, if◌then◌else◌, ◌>>=◌,
}
use matador.Base.Int.{ℤ, pos, negsuc, minus_one}
use matador.Memory.{Bytes, be16_at, be32_at, write_at}
use matador.Socket.{SockaddrIn}

abbrev pub sizeof_stun_header : ℕ
sizeof_stun_header = 20

abbrev pub sizeof_stun_attr : ℕ
sizeof_stun_attr = 4

abbrev pub stun_ignore : ℕ
stun_ignore = 0

abbrev pub stun_mapped_address : ℕ
stun_mapped_address = 0x0001

-- Credentials extracted from a message; the pointers are offsets, `none` is NULL.
pub record StunState : Type 0 where
  pub username : Option ℕ
  pub password : Option ℕ

-- `ntohs(attr->attr)` is the second argument. The cases that would set a field are compiled out.
unfoldable pub stun_process_attr : StunState → ℕ → StunState × ℕ
stun_process_attr st attr = if attr == stun_mapped_address then (st, 0) else (st, 0)

-- A callback reads the attribute at an offset of the buffer and updates the answer.
abbrev pub StunCb : Type 0
StunCb = Bytes → ℕ → SockaddrIn → Option (SockaddrIn × ℕ)

unfoldable pub stun_get_mapped : StunCb
stun_get_mapped buf attr sa = do
  kind ← be16_at buf attr
  len ← be16_at buf (attr + 2)
  if not (kind == stun_mapped_address) || not (len == 8) then some (sa, 1) else (do
    port ← be16_at buf (attr + sizeof_stun_attr + 2)
    addr ← be32_at buf (attr + sizeof_stun_attr + 4)
    some (record { sin_port = port; s_addr = addr }, 0))

-- `if (stun_cb) stun_cb(attr, arg);`, whose result is not read
unfoldable pub call_cb : Option StunCb → Bytes → ℕ → SockaddrIn → Option SockaddrIn
call_cb none buf attr sa = some sa
call_cb (some cb) buf attr sa = do r ← cb buf attr sa; some r.0

-- The variables of the loop: `data`, as an offset of the buffer, and `len`.
pub record Cursor : Type 0 where
  pub buf : Bytes
  pub at : ℕ
  pub left : ℕ
  pub st : StunState
  pub arg : SockaddrIn

pub data Step : Type 0 where
  break_loop continue_loop : Cursor → Step

-- One round of `while (len)`, its condition included.
unfoldable pub attr_step : Option StunCb → Cursor → Option Step
attr_step stun_cb w =
    if w.left == 0
    then some (break_loop w)
    else if ltb w.left sizeof_stun_attr
    then some (break_loop w)
    else (do
      advertised ← be16_at w.buf (w.at + 2)
      let x = advertised + sizeof_stun_attr
      if ltb w.left x then some (break_loop w) else (do
        arg ← call_cb stun_cb w.buf w.at w.arg
        kind ← be16_at w.buf w.at
        let processed = stun_process_attr w.st kind
        if not (processed.1 == 0)
            then some (break_loop (record w { st = processed.0; arg = arg }))
            else (do
              buf ← write_at w.buf w.at (0 ∷ 0 ∷ [])
              some (
                  continue_loop (record {
                    buf = buf;
                    at = w.at + x;
                    left = w.left - x;
                    st = processed.0;
                    arg = arg;
                  })))))

-- The end of a round: `break`, or the loop again.
abbrev pub next_round : (Cursor → Option Cursor) → Step → Option Cursor
next_round again (break_loop w) = some w
next_round again (continue_loop w) = again w

-- The loop, with fuel: each round that goes on takes at least four bytes off `left`.
unfoldable pub attr_loop : ℕ → Option StunCb → Cursor → Option Cursor
attr_loop zero cb w = none
attr_loop (suc fuel) cb w = attr_step cb w >>= next_round (attr_loop fuel cb)

pub record Handled : Type 0 where
  pub ret : ℤ
  pub buf : Bytes
  pub arg : SockaddrIn

-- `len` becomes the advertised length, unless that is larger than what was received.
unfoldable pub clamp_len : ℕ → ℕ → ℕ
clamp_len x len = if ltb len x then len else x

unfoldable pub stun_handle_packet : Bytes → ℕ → Option StunCb → SockaddrIn → Option Handled
unfolding clamp_len
stun_handle_packet buf len stun_cb arg =
    if ltb len sizeof_stun_header
    then some (record { ret = minus_one; buf = buf; arg = arg })
    else (do
      x ← be16_at buf 2
      let left = clamp_len x (len - sizeof_stun_header)
      w ← attr_loop (suc left) stun_cb (record {
        buf = buf;
        at = sizeof_stun_header;
        left = left;
        st = record { username = none; password = none };
        arg = arg;
      })
      terminated ← write_at w.buf w.at (0 ∷ [])
      some (record { ret = pos stun_ignore; buf = terminated; arg = w.arg }))
