-- ===== src/Tun2socks/Relay.antt =====
-- tun2socks.c: the data of a client, in both directions.
use matador.Base.{
  ℕ, zero, suc, ◌+◌, ◌-◌, true, false, not, ◌&&◌, Option, none, some, ◌++◌, length, take, drop, ltb,
  leb, ◌==◌, if◌then◌else◌, ◌>>=◌,
}
use Prim.Native.Nat.{min}
use matador.Memory.{Bytes}
use matador.Tun2socks.{
  Client, Lwip, Written, err_ok, err_mem, err_other, tcp_recved, tcp_write, tcp_output, socks_send,
  socks_receive, require, call, is_some, is_empty, tcp_wnd, client_socks_recv_buf_size,
}
use matador.Tun2socks.Closing.{client_free_client, client_free_socks, client_abort_client, depth}

unfoldable pub client_send_to_socks : Client → Option Client
client_send_to_socks c =
    require (not c.socks_closed && (c.socks_up && not (is_empty c.buf)))
      (some (call (socks_send c.buf) c))

-- `client_recv_func`: no pbuf means that the peer has closed. Data that does not fit is refused.
unfoldable pub client_recv_func : Lwip → Option Bytes → Client → Option Client
client_recv_func k none c = require (not c.client_closed) (client_free_client depth k c)
client_recv_func k (some data_in) c =
    let filled = record c { buf = c.buf ++ data_in } in
    require (not c.client_closed && not (is_empty data_in)) (
      if ltb (tcp_wnd - length c.buf) (length data_in)
      then some c
      else if is_empty c.buf && c.socks_up
      then client_send_to_socks filled
      else some filled)

-- The end of `client_socks_send_handler_done`.
abbrev pub send_more : Lwip → Client → Option Client
send_more k c =
    if not (is_empty c.buf)
    then some (call (socks_send c.buf) c)
    else if c.client_closed
    then client_free_socks depth k c
    else some c

unfoldable pub client_socks_send_handler_done : Lwip → ℕ → Client → Option Client
client_socks_send_handler_done k data_len c =
    let rest = record c { buf = drop data_len c.buf } in
    require (not c.socks_closed && (c.socks_up && (ltb 0 data_len && leb data_len (length c.buf))))
      (send_more k (if c.client_closed then rest else call (tcp_recved data_len) rest))

unfoldable pub client_socks_recv_initiate : Client → Option Client
client_socks_recv_initiate c =
    require
      (not c.client_closed && (not c.socks_closed && (c.socks_up && not (is_some c.recv_buf))))
      (some (call socks_receive c))

-- How the loop of `client_socks_recv_send_out` ends.
pub data Queue : Type 0 where
  queued write_failed : Client → Queue

-- A round that has queued `to_write` bytes from `recv_sent` on.
abbrev pub wrote : Bytes → ℕ → Client → Client
wrote b to_write c =
    call (tcp_write (take to_write (drop c.recv_sent b)))
      (record c { recv_sent = c.recv_sent + to_write; recv_pending = c.recv_pending + to_write })

abbrev pub after_write : Written → Client → (Client → Option Queue) → Client → Option Queue
after_write err_ok c again c' = again c'
after_write err_mem c again c' = some (queued c)
after_write err_other c again c' = some (write_failed c)

-- The loop, with fuel: a round that goes on queues a byte at least.
unfoldable pub queue_loop : ℕ → ℕ → Lwip → Bytes → Client → Option Queue
queue_loop zero i k b c = none
queue_loop (suc fuel) i k b c =
    let to_write = min (length b - c.recv_sent) (k.sndbuf i) in
    let again : Client → Option Queue = λ c'.
      (if ltb c'.recv_sent (length b) then queue_loop fuel (suc i) k b c' else some (queued c')) in
    if to_write == 0 then some (queued c) else after_write (k.write i) c again (wrote b to_write c)

-- The result of `client_socks_recv_send_out`: -1 after an abort, or 0.
pub data Sent : Type 0 where
  aborted up_still : Client → Sent

abbrev pub abort : Lwip → Client → Option Sent
abort k c = do c' ← client_abort_client k c; some (aborted c')

-- Behind the loop: `tcp_output`, and what is left waits for `client_sent_func`.
unfoldable pub send_out_end : Lwip → Bytes → Queue → Option Sent
send_out_end k b (write_failed c) = abort k c
send_out_end k b (queued c) =
    let out = call tcp_output c in
    if k.output_fails
    then abort k out
    else if ltb c.recv_sent (length b)
    then (if c.recv_pending == 0
        then abort k out
        else some (up_still (record out { recv_waiting = true })))
    else some (up_still (record out { recv_buf = none }))

unfoldable pub client_socks_recv_send_out : Lwip → Bytes → Client → Option Sent
client_socks_recv_send_out k b c =
    require
      (not c.client_closed && (c.socks_up && (ltb c.recv_sent (length b) && not c.recv_waiting)))
      (do q ← queue_loop (suc (length b)) 0 k b c; send_out_end k b q)

-- Behind `client_socks_recv_send_out` in `client_socks_recv_handler_done`.
abbrev pub receive_more : Sent → Option Client
receive_more (aborted c) = some c
receive_more (up_still c) = if is_some c.recv_buf then some c else client_socks_recv_initiate c

unfoldable pub client_socks_recv_handler_done : Lwip → Bytes → Client → Option Client
client_socks_recv_handler_done k b c =
    require
      (not (is_empty b)
        && (leb (length b) client_socks_recv_buf_size
            && (not c.socks_closed && (c.socks_up && not (is_some c.recv_buf)))))
      (if c.client_closed then some c else (do
        s ←
            client_socks_recv_send_out k b
              (record c { recv_buf = some b; recv_sent = 0; recv_waiting = false })
        receive_more s))

-- Behind `client_socks_recv_send_out` in `client_sent_func`.
abbrev pub sent_more : Sent → Option Client
sent_more (aborted c) = some c
sent_more (up_still c) = require (ltb 0 c.recv_pending) (
    if not (is_some c.recv_buf) && not c.socks_closed then client_socks_recv_initiate c else some c)

abbrev pub after_sent : Lwip → Client → Option Bytes → Option Client
after_sent k c (some b) =
    require (c.recv_waiting && ltb c.recv_sent (length b))
      (do s ← client_socks_recv_send_out k b (record c { recv_waiting = false }); sent_more s)
after_sent k c none =
    if c.socks_closed && c.recv_pending == 0 then client_free_client depth k c else some c

unfoldable pub client_sent_func : Lwip → ℕ → Client → Option Client
client_sent_func k len c =
    require (not c.client_closed && (c.socks_up && (ltb 0 len && leb len c.recv_pending)))
      (after_sent k (record c { recv_pending = c.recv_pending - len }) c.recv_buf)
