-- ===== src/Tun2socks/Sound.antt =====
-- What holds of a client between two callbacks.
use matador.Base.{◌≡◌, ◌<◌, ◌≤◌, ◌⊎◌, true, false, ◌&&◌, ◌||◌, none, some, length, ltb}
use matador.Memory.{Bytes}
use matador.Tun2socks.{Client, is_some, tcp_wnd, client_socks_recv_buf_size}
use matador.Tun2socks.Events.{
  Event, recv, err, socks_error, socks_is_up, socks_went_down, socks_sent, socks_received, sent,
}

-- Not both sides are closed, and a client with one side closed has data for the other. A callback of
-- lwIP is only set where its assertions hold, and what is left of `socks_recv_buf` waits for data that
-- the peer has not confirmed.
pub record IsSound (c : Client) : Type 0 where
  pub alive : c.live ≡ true
  pub counted : 0 < c.num_clients
  pub room : length c.buf ≤ tcp_wnd
  pub one_open : (c.client_closed && c.socks_closed) ≡ false
  pub recv_open : c.recv_on ≡ true → c.client_closed ≡ false → c.socks_closed ≡ false
  pub sent_open : c.sent_on ≡ true → c.client_closed ≡ false → c.socks_up ≡ true
  pub waiting :
      c.client_closed ≡ false
      → c.socks_up ≡ true
      → (b : Bytes) → c.recv_buf ≡ some b
      → (c.recv_waiting ≡ true) × (c.recv_sent < length b) × (0 < c.recv_pending)
  pub owes_client :
      c.socks_closed ≡ true
      → (c.socks_up ≡ true) × ((is_some c.recv_buf || ltb 0 c.recv_pending) ≡ true)
  pub owes_socks : c.client_closed ≡ true → 0 < length c.buf

-- A callback leaves the client sound, or has freed it.
abbrev pub Fares : Client → Type 0
Fares c = (c.live ≡ false) ⊎ IsSound c

-- What lwIP and the SOCKS client may deliver: lwIP calls what is set in a pcb that exists, and
-- confirms what is pending; the SOCKS client takes what it was given and delivers into a free buffer.
abbrev pub IsEnabled : Event → Client → Type 0
IsEnabled (recv none) c = (c.recv_on ≡ true) × (c.client_closed ≡ false)
IsEnabled (recv (some b)) c = (c.recv_on ≡ true) × (c.client_closed ≡ false) × (0 < length b)
IsEnabled err c = c.client_closed ≡ false
IsEnabled socks_error c = c.socks_closed ≡ false
IsEnabled socks_is_up c = (c.socks_closed ≡ false) × (c.socks_up ≡ false)
IsEnabled socks_went_down c = (c.socks_closed ≡ false) × (c.socks_up ≡ true)
IsEnabled (socks_sent n) c =
    (c.socks_closed ≡ false) × (c.socks_up ≡ true) × (0 < n) × (n ≤ length c.buf)
IsEnabled (socks_received b) c =
    (c.socks_closed ≡ false)
    × (c.socks_up ≡ true)
    × (c.recv_buf ≡ none)
    × (0 < length b)
    × (length b ≤ client_socks_recv_buf_size)
IsEnabled (sent n) c =
    (c.sent_on ≡ true) × (c.client_closed ≡ false) × (0 < n) × (n ≤ c.recv_pending)
