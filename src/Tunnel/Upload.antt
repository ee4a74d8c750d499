-- ===== src/Tunnel/Upload.antt =====
-- measurement_proxy/tunnel.c: the `do … while(total < buf.st_size)` loop that uploads the proxy
-- binary. The results of `read` and `ssh_scp_write` are arguments; progress output is left out.
use matador.Base.{
  ℕ, leb, ◌^◌, ◌>>=◌, zero, suc, ◌+◌, Bool, Option, none, some, [], ◌++◌, length, ltb, ◌==◌,
  if◌then◌else◌,
}
use matador.Memory.{Bytes}

-- `read(fd, buffer, sizeof(buffer))` at the position that was reached, `none` for an error, and
-- whether `ssh_scp_write` of these bytes returns SSH_ERROR.
pub record Transfer : Type 0 where
  pub read : ℕ → Option Bytes
  pub write_fails : Bytes → Bool

-- `total`, an `int` that is never negative, and what was written.
pub record Uploaded : Type 0 where
  pub total : ℕ
  pub written : Bytes

pub data Step : Type 0 where
  break_loop next : Uploaded → Step

-- The body of the loop, behind its `read`. A `total` that is no `int` is a fault.
unfoldable pub upload_chunk : Transfer → Uploaded → Option Bytes → Option Step
upload_chunk t u none = some (break_loop u)
upload_chunk t u (some chunk) =
    if length chunk == 0
    then some (break_loop u)
    else if t.write_fails chunk
    then some (break_loop u)
    else if leb (2 ^ 31) (u.total + length chunk)
    then none
    else some (next (record { total = u.total + length chunk; written = u.written ++ chunk }))

abbrev pub while_more : ℕ → (Uploaded → Option Uploaded) → Step → Option Uploaded
while_more st_size again (break_loop u) = some u
while_more st_size again (next u) = if ltb u.total st_size then again u else some u

-- The loop, with fuel: each round that goes on has read a byte at least.
unfoldable pub upload_loop : ℕ → ℕ → Transfer → Uploaded → Option Uploaded
upload_loop zero st_size t u = none
upload_loop (suc fuel) st_size t u =
    upload_chunk t u (t.read u.total) >>= while_more st_size (upload_loop fuel st_size t)

unfoldable pub upload : ℕ → Transfer → Option Uploaded
upload st_size t = upload_loop (suc st_size) st_size t (record { total = 0; written = [] })
