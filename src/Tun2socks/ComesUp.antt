-- ===== src/Tun2socks/ComesUp.antt =====
-- tun2socks.c: `client_socks_handler` when the connection to the SOCKS server is up.
use matador.Base.{
  ◌≡◌, refl, arith, true, false, not, ◌&&◌, none, inr, Runs, Runs-some, Runs-if, Runs-bind,
}
use matador.Tun2socks.{Client, socks_send, is_empty}
use matador.Tun2socks.Relay.{client_send_to_socks}
use matador.Tun2socks.Events.{start_sending, start_receiving, socks_event_up}
use matador.Tun2socks.Sound.{IsSound, Fares}
use matador.Tun2socks.TakenDown.{require-Runs}
use matador.Tun2socks.Keeps.{call-IsSound, client_socks_recv_initiate-Runs}

-- The client when the SOCKS connection comes up.
abbrev up_client : Client → Client
up_client c = record c {
  recv_buf = none;
  recv_pending = 0;
  sent_on = not c.client_closed;
  socks_up = true;
}

up_client-IsSound : (c : Client) → IsSound c → c.socks_closed ≡ false → IsSound (up_client c)
up_client-IsSound c s h = record {
  alive = s.alive;
  counted = s.counted;
  room = s.room;
  one_open = s.one_open;
  recv_open = s.recv_open;
  sent_open = λ _ _. refl;
  waiting = λ _ _ b e. absurd (ground (arith, e));
  owes_client = λ f. absurd (ground (arith, f, h));
  owes_socks = s.owes_socks;
}

-- After the start of sending, receiving starts.
start_receiving-Runs :
    (c : Client)
    → IsSound c
    → c.socks_closed ≡ false
    → c.socks_up ≡ true
    → c.recv_buf ≡ none
    → Runs Fares (start_receiving c)
start_receiving-Runs c s h up free =
    Runs-if c.client_closed _ _ (λ _. Runs-some c (inr s))
      λ e. client_socks_recv_initiate-Runs c s e h up free

abbrev IsUp : Client → Type 0
IsUp c = IsSound c × (c.socks_closed ≡ false) × (c.socks_up ≡ true) × (c.recv_buf ≡ none)

start_sending-Runs :
    (c : Client)
    → IsSound c
    → c.socks_closed ≡ false
    → c.socks_up ≡ true
    → c.recv_buf ≡ none
    → Runs IsUp (start_sending c)
start_sending-Runs c s h up free =
    Runs-if (is_empty c.buf) _ _ (λ _. Runs-some c (s, h, up, free))
      λ e.
        unfold client_send_to_socks in
        (require-Runs (not c.socks_closed && (c.socks_up && not (is_empty c.buf))) _
          (ground (arith, h, up, e))
          (Runs-some _ (call-IsSound (socks_send c.buf) c s, h, up, free)))

pub socks_event_up-Runs :
    (c : Client)
    → IsSound c
    → c.socks_closed ≡ false
    → c.socks_up ≡ false
    → Runs Fares (socks_event_up c)
unfolding socks_event_up
socks_event_up-Runs c s h down =
    require-Runs (not c.socks_closed && not c.socks_up) _ (ground (arith, h, down)) (
      Runs-bind _ (start_sending-Runs (up_client c) (up_client-IsSound c s h) h refl refl)
        λ d _ p. start_receiving-Runs d p.0 p.1 p.2 p.3)
