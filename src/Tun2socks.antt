-- ===== src/Tun2socks.antt =====
-- measurement_proxy/tun2socks/tun2socks/tun2socks.c: the TCP half of the tunnel. A `tcp_client` ties
-- a TCP connection of the device, which lwIP ends here, to a connection through the SOCKS server.
-- What lwIP, the SOCKS client and the event loop do is an argument, or an event in Tun2socks/Events.
pub mod Closing
pub mod Relay
pub mod Events
pub mod Sound
pub mod TakenDown
pub mod Queued
pub mod Keeps
pub mod ComesUp
pub mod Steps
pub mod History
pub mod Holds
pub mod Relayed
pub mod Offered
pub mod Conserved
pub mod Flow
pub mod Device
pub mod Output
pub mod Input
pub mod Arguments
pub mod CommandLine
pub mod Setup
pub mod Begin
pub mod Loop
pub mod Program
pub mod Halves
pub mod Left
pub mod Released
pub mod Kept
pub mod Exit
pub mod Accept
pub mod Accepts
pub mod Untouched
pub mod Delivered
pub mod Arrivals
pub mod Backflow
pub mod Flushed
pub mod Drained
pub mod Tally
pub mod Clients
pub mod Census
use matador.Base.{
  ℕ, ◌+◌, ◌-◌, Bool, true, false, not, ◌&&◌, Option, none, some, List, [], ◌∷◌, ◌++◌, length, ltb,
  if◌then◌else◌,
}
use matador.Memory.{Bytes}

-- TCP_WND (four times TCP_MSS), the size of `buf`, and CLIENT_SOCKS_RECV_BUF_SIZE
abbrev pub tcp_wnd : ℕ
tcp_wnd = 5840

abbrev pub client_socks_recv_buf_size : ℕ
client_socks_recv_buf_size = 8192

-- The calls for a client that leave tun2socks.c, in order.
pub data Call : Type 0 where
  tcp_recved : ℕ → Call
  tcp_write : Bytes → Call
  tcp_output tcp_close tcp_abort : Call
  socks_send : Bytes → Call
  socks_receive socks_free free : Call

-- `struct tcp_client`. `buf` is the used part of the array; `recv_buf` is the used part of
-- `socks_recv_buf`, `none` where `socks_recv_buf_used` is -1. `recv_on` and `sent_on` say whether the
-- callbacks are set in the pcb. `live` ends with `free`; `num_clients` is the global counter.
-- `sending` is the state of the SOCKS client's sender: what it was handed last. It sends the bytes
-- from there and reports them by `client_socks_send_handler_done`.
pub record Client : Type 0 where
  pub client_closed : Bool
  pub socks_up : Bool
  pub socks_closed : Bool
  pub buf : Bytes
  pub recv_buf : Option Bytes
  pub recv_sent : ℕ
  pub recv_waiting : Bool
  pub recv_pending : ℕ
  pub recv_on : Bool
  pub sent_on : Bool
  pub live : Bool
  pub num_clients : ℕ
  pub calls : List Call
  pub sending : Bytes

-- What lwIP answers: whether `tcp_close` fails, the room in the send buffer and the result of
-- `tcp_write` in each round of a loop, and whether `tcp_output` fails.
pub data Written : Type 0 where
  err_ok err_mem err_other : Written

pub record Lwip : Type 0 where
  pub close_fails : Bool
  pub sndbuf : ℕ → ℕ
  pub write : ℕ → Written
  pub output_fails : Bool

-- ASSERT: a condition that does not hold is a fault.
abbrev pub require : {A : Type 0} → Bool → Option A → Option A
require b m = if b then m else none

-- What the SOCKS client has to send after a call: `StreamPassInterface_Sender_Send` hands it bytes.
abbrev pub to_send : Call → Bytes → Bytes
to_send (socks_send b) s = b
to_send _ s = s

abbrev pub call : Call → Client → Client
call m c = record c { calls = c.calls ++ m ∷ []; sending = to_send m c.sending }

abbrev pub is_some : Option Bytes → Bool
is_some none = false
is_some (some b) = true

abbrev pub is_empty : Bytes → Bool
is_empty [] = true
is_empty (b ∷ bs) = false
