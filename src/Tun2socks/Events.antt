-- ===== src/Tun2socks/Events.antt =====
-- tun2socks.c: the events of a client, in the order in which lwIP and the SOCKS client deliver them.
-- The jobs that BReactor_Synchronize runs inside of a callback are the events that follow it, since
-- the callbacks do nothing behind it but return.
use matador.Base.{ℕ, ◌+◌, true, false, not, ◌&&◌, Option, none, some, [], if◌then◌else◌, ◌>>=◌}
use matador.Memory.{Bytes}
use matador.Tun2socks.{Client, Lwip, require, is_empty}
use matador.Tun2socks.Closing.{client_free_socks, client_err_func, depth}
use matador.Tun2socks.Relay.{
  client_send_to_socks, client_recv_func, client_socks_send_handler_done,
  client_socks_recv_initiate, client_socks_recv_handler_done, client_sent_func,
}

-- `listener_accept_func` for a new connection, with `num` clients before. `junk` is what the fields
-- hold that it does not set.
unfoldable pub accepted : ℕ → Option Bytes → Client
accepted num junk = record {
  client_closed = false;
  socks_up = false;
  socks_closed = false;
  buf = [];
  recv_buf = junk;
  recv_sent = 0;
  recv_waiting = false;
  recv_pending = 0;
  recv_on = true;
  sent_on = false;
  live = true;
  num_clients = num + 1;
  calls = [];
  sending = [];
}

-- BSOCKSCLIENT_EVENT_UP: sending starts if there is data, receiving if the client is still there.
abbrev pub start_sending : Client → Option Client
start_sending c = if is_empty c.buf then some c else client_send_to_socks c

abbrev pub start_receiving : Client → Option Client
start_receiving c = if c.client_closed then some c else client_socks_recv_initiate c

unfoldable pub socks_event_up : Client → Option Client
socks_event_up c = require (not c.socks_closed && not c.socks_up) (do
  c' ← start_sending (record c {
    recv_buf = none;
    recv_pending = 0;
    sent_on = not c.client_closed;
    socks_up = true;
  })
  start_receiving c')

pub data Event : Type 0 where
  recv : Option Bytes → Event
  err socks_error socks_is_up socks_went_down : Event
  socks_sent : ℕ → Event
  socks_received : Bytes → Event
  sent : ℕ → Event

unfoldable pub step : Lwip → Event → Client → Option Client
step k (recv p) c = client_recv_func k p c
step k err c = client_err_func k c
step k socks_error c = require (not c.socks_closed) (client_free_socks depth k c)
step k socks_is_up c = socks_event_up c
step k socks_went_down c = require (not c.socks_closed && c.socks_up) (client_free_socks depth k c)
step k (socks_sent n) c = client_socks_send_handler_done k n c
step k (socks_received b) c = client_socks_recv_handler_done k b c
step k (sent n) c = client_sent_func k n c
