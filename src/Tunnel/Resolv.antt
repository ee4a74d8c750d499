-- ===== src/Tunnel/Resolv.antt =====
-- measurement_proxy/tunnel.c: the copy of the remote `/etc/resolv.conf`: the file is read into an
-- array on the stack and written with `fprintf(f, "%s\n", resolv)`.
use matador.Base.{
  ℕ, take, ◌+◌, ◌≡◌, ◌<◌, ap, arith, false, Option, none, some, [], ◌++◌, append_assoc, length, leb,
  ◌>>=◌,
}
use matador.Memory.{Bytes, write_at}
use matador.Memory.Laws.{write_at-append}
use matador.CText.{text}
use matador.CText.Search.{Lacks}
use matador.Tunnel.Arch.{c_string}
use matador.Tunnel.Handshake.{c_string-append}

-- `resolv` holds `junk` before. `ssh_scp_read` delivers the first `amount` bytes of the file, which may
-- be fewer than were asked for; the file's size, as the remote host gives it, is not checked.
unfoldable pub resolv_conf : Bytes → Bytes → ℕ → Option Bytes
resolv_conf junk file amount = do
  resolv ← write_at junk 0 (take amount file)
  s ← c_string resolv
  some (s ++ text "\n")

-- What is read of the file, if it fits and has no NUL, is written with what stands behind it in the
-- array, up to the first NUL there: the copy is right only if that is nothing.
pub resolv_conf-stale :
    (file old stale : Bytes) (amount : ℕ)
    → Lacks 0 (take amount file)
    → c_string old ≡ some stale
    → (junk : Bytes) → length junk ≡ length (take amount file)
    → resolv_conf (junk ++ old) file amount ≡ some (take amount file ++ (stale ++ text "\n"))
unfolding resolv_conf
resolv_conf-stale file old stale amount clean rest junk size =
    rw
      (
        write_at-append [] junk (take amount file) old size,
        c_string-append (take amount file) old clean rest,
      )
      (ap some (append_assoc (take amount file) stale (text "\n")))

-- More than the array holds is written past its end.
pub resolv_conf-outside :
    (junk file : Bytes) (amount : ℕ)
    → length junk < length (take amount file)
    → resolv_conf junk file amount ≡ none
unfolding resolv_conf write_at
resolv_conf-outside junk file amount h =
    let over : leb (0 + length (take amount file)) (length junk) ≡ false = ground arith in rw over
