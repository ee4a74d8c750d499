-- ===== src/Tunnel/Local.antt =====
-- measurement_proxy/tunnel.c: the local side of the UDP tunnel, from `socket` to the STUN request. The
-- answers of the kernel and of the resolver are arguments; what the stack holds where `main` writes
-- nothing is one, too.
use matador.Base.{ℕ, Option, none, some, if◌then◌else◌, ◌>>=◌}
use matador.Base.Int.{ℤ, to_u16}
use matador.Memory.{Bytes}
use matador.Socket.{SockaddrIn}
use matador.Ports.{is_minus_one, open_port}
use matador.Stun.Request.{Round, Requested, stun_count, stun_request}
use matador.Tunnel.Options.{Options}

pub record Network : Type 0 where
  pub rand : ℕ → ℕ
  pub bind : ℕ → ℤ
  pub gethostbyname : Bytes → Option ℕ
  pub stun : ℕ → Round
  pub random_id : Bytes
  pub request_junk : Bytes
  pub reply_junk : Bytes
  pub mapped_junk : SockaddrIn

-- `exit(EXIT_FAILURE)` behind `close`, `return -1`, or the port and what `stun_request` has done.
pub data Local : Type 0 where
  exit_failure return_minus_one : Local
  opened : ℤ → Requested → Local

-- Behind the lookup of the STUN server.
unfoldable pub ask_stun : Network → Options → ℤ → Option ℕ → Option Local
ask_stun w o port none = some return_minus_one
ask_stun w o port (some addr) = do
  r ←
      stun_request stun_count (record { sin_port = to_u16 o.stunport; s_addr = addr }) w.random_id
        w.request_junk w.reply_junk w.stun (some w.mapped_junk)
  some (opened port r)

unfoldable pub open_local : ℕ → Network → Options → Option Local
open_local fuel w o = do
  bound ← open_port fuel o.port w.rand w.bind
  if is_minus_one bound.1
      then some exit_failure
      else ask_stun w o bound.0 (w.gethostbyname o.stunserver)
