-- ===== src/Tun2socks/Closing.antt =====
-- tun2socks.c: how a client is taken down: `client_handle_freed_client`, `client_free_client`,
-- `client_free_socks`, `client_abort_client`, `client_murder` and `client_dealloc`.
use matador.Base.{
  ℕ, zero, suc, ◌-◌, true, false, not, ◌&&◌, ◌||◌, Option, none, some, ltb, if◌then◌else◌,
}
use matador.Tun2socks.{
  Client, Lwip, tcp_close, tcp_abort, socks_free, free, require, call, is_some, is_empty,
}

unfoldable pub client_dealloc : Client → Option Client
client_dealloc c =
    require (c.live && (c.client_closed && (c.socks_closed && ltb 0 c.num_clients)))
      (some (call free (record c { num_clients = c.num_clients - 1; live = false })))

-- `tcp_err`, `tcp_recv` and `tcp_sent` with NULL
abbrev pub remove_callbacks : Client → Client
remove_callbacks c = record c { recv_on = false; sent_on = false }

-- `tcp_close`, and `tcp_abort` where it fails
abbrev pub close_pcb : Lwip → Client → Client
close_pcb k c = if k.close_fails then call tcp_abort (call tcp_close c) else call tcp_close c

abbrev pub with_client_closed : Client → Client
with_client_closed c = record c { client_closed = true }

-- `tcp_recv` with NULL if the callback may be set, and `BSocksClient_Free`
abbrev pub with_socks_closed : Client → Client
with_socks_closed c = call socks_free (record c {
  recv_on = c.recv_on && not (c.socks_up && not c.client_closed);
  socks_closed = true;
})

-- These three call each other; a call passes on less fuel than it got, and four are enough: each
-- side is closed once.
unfoldable mutual
  pub client_handle_freed_client : ℕ → Lwip → Client → Option Client
  client_handle_freed_client zero k c = none
  client_handle_freed_client (suc fuel) k c = require (not c.client_closed) (
      if not (is_empty c.buf) && not c.socks_closed
      then some (with_client_closed c)
      else if not c.socks_closed
      then client_free_socks fuel k (with_client_closed c)
      else client_dealloc (with_client_closed c))

  pub client_free_client : ℕ → Lwip → Client → Option Client
  client_free_client zero k c = none
  client_free_client (suc fuel) k c =
      require (not c.client_closed)
        (client_handle_freed_client fuel k (close_pcb k (remove_callbacks c)))

  pub client_free_socks : ℕ → Lwip → Client → Option Client
  client_free_socks zero k c = none
  client_free_socks (suc fuel) k c = require (not c.socks_closed) (
      if c.socks_up && ((is_some c.recv_buf || ltb 0 c.recv_pending) && not c.client_closed)
      then some (with_socks_closed c)
      else if not c.client_closed
      then client_free_client fuel k (with_socks_closed c)
      else client_dealloc (with_socks_closed c))

abbrev pub depth : ℕ
depth = 4

unfoldable pub client_abort_client : Lwip → Client → Option Client
client_abort_client k c =
    require (not c.client_closed)
      (client_handle_freed_client depth k (call tcp_abort (remove_callbacks c)))

-- The pcb is already gone.
unfoldable pub client_err_func : Lwip → Client → Option Client
client_err_func k c = require (not c.client_closed) (client_handle_freed_client depth k c)

abbrev pub murder_client : Client → Client
murder_client c =
    if c.client_closed
    then c
    else record (call tcp_abort (remove_callbacks c)) { client_closed = true }

abbrev pub murder_socks : Client → Client
murder_socks c = if c.socks_closed then c else record (call socks_free c) { socks_closed = true }

unfoldable pub client_murder : Client → Option Client
client_murder c = client_dealloc (murder_socks (murder_client c))
