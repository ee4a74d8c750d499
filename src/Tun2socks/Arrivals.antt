-- ===== src/Tun2socks/Arrivals.antt =====
-- tun2socks.c: the handlers that move bytes from the SOCKS server to the device.
use matador.Base.{
  ◌≡◌, refl, ◌∙◌, sym, ap, arith, true, false, not, ◌&&◌, Bool, Option, none, some, [], ◌++◌,
  append-nil, length, ltb, leb, ◌==◌, if◌then◌else◌, Ensures, Ensures-none, Ensures-some,
  Ensures-if, Ensures-bind,
}
use mathlib.Core.Path.{subst}
use matador.Memory.{Bytes}
use matador.Tun2socks.{Client, Lwip, require, is_some, is_empty, client_socks_recv_buf_size}
use matador.Tun2socks.Closing.{depth}
use matador.Tun2socks.Relay.{client_socks_recv_send_out, client_socks_recv_handler_done, after_sent}
use matador.Tun2socks.Events.{Event, socks_received, start_sending, socks_event_up}
use matador.Tun2socks.Holds.{require-Ensures}
use matador.Tun2socks.Untouched.{
  written, Spares, Spares-refl, closers-Spare, initiate-Spares, send_to_socks-Spares,
}
use matador.Tun2socks.Delivered.{
  Delivers, Relays, Ensures-Spares-Delivers, Spares-Delivers, send_out-Delivers,
  receive_more-Delivers, sent_more-Delivers,
}

pub require-then :
    {A : Type 0} {P : A → Type 0} (b : Bool) (m : Option A)
    → (b ≡ true → Ensures P m)
    → Ensures P (require b m)
require-then true m h = h refl
require-then false m h = Ensures-none

-- The bytes that an event brings for the device: none if its connection is closed.
abbrev pub arrived : Event → Client → Bytes
arrived (socks_received b) c = if c.client_closed then [] else b
arrived _ c = []

no_buf : (o : Option Bytes) → is_some o ≡ false → o ≡ none
no_buf none h = refl
no_buf (some b) h = absurd (ground (arith, h))

pub cast-Delivers :
    {m : Option Client} {g g' : Bytes} → g ≡ g' → Ensures (Delivers g') m → Ensures (Delivers g) m
cast-Delivers e h = record { at = λ d f. subst (λ x. Delivers x d) (sym e) (h.at d f) }

-- A field that is no matter here changes.
pub same-Spares :
    (c d : Client)
    → d.calls ≡ c.calls
    → d.recv_buf ≡ c.recv_buf
    → d.recv_sent ≡ c.recv_sent
    → d.socks_up ≡ c.socks_up
    → d.client_closed ≡ c.client_closed
    → Spares c d
same-Spares c d calls buf pos up closed = record {
  same_written = ap written calls;
  same_buf = buf;
  same_sent = pos;
  same_up = up;
  closes = λ h. sym closed ∙ h;
}

pub received-Delivers :
    (got : Bytes) (k : Lwip) (b : Bytes) (c : Client)
    → Delivers got c
    → Ensures
        (Delivers (got ++ arrived (socks_received b) c))
        (client_socks_recv_handler_done k b c)
unfolding client_socks_recv_handler_done
received-Delivers got k b c h =
    let c₁ : Client = record c { recv_buf = some b; recv_sent = 0; recv_waiting = false } in
    require-then
      (not (is_empty b)
        && (leb (length b) client_socks_recv_buf_size
            && (not c.socks_closed && (c.socks_up && not (is_some c.recv_buf)))))
      _
      λ ready.
        Ensures-if c.client_closed _ _
          (λ closed.
            let nothing : got ++ arrived (socks_received b) c ≡ got = rw closed (append-nil got) in
            Ensures-some c (subst (λ g. Delivers g c) (sym nothing) h))
          λ is_open.
            let more : got ++ arrived (socks_received b) c ≡ got ++ b = rw is_open refl in
            let up : c.socks_up ≡ true = ground (arith, ready) in
            let none_left : c.recv_buf ≡ none = no_buf c.recv_buf (ground (arith, ready)) in
            let all : got ≡ written c.calls ++ [] = rw none_left at (h.open_is is_open up) in
            let r : Relays (got ++ b) b c₁ = record {
              is_open = is_open;
              up = up;
              relayed = refl;
              flows = ap (λ g. g ++ b) (all ∙ append-nil (written c.calls));
            } in
            cast-Delivers more (
              Ensures-bind (client_socks_recv_send_out k b c₁) _ λ s e.
                receive_more-Delivers (got ++ b) s ((send_out-Delivers (got ++ b) b k c₁ r).at s e))

pub after_sent-Delivers :
    (got : Bytes) (k : Lwip) (c : Client) (o : Option Bytes)
    → Delivers got c
    → c.client_closed ≡ false
    → c.socks_up ≡ true
    → c.recv_buf ≡ o
    → Ensures (Delivers got) (after_sent k c o)
after_sent-Delivers got k c none h is_open up e =
    Ensures-if (c.socks_closed && c.recv_pending == 0) _ _
      (λ _. Ensures-Spares-Delivers got c h ((closers-Spare depth k).free_client c))
      (λ _. Ensures-some c h)
after_sent-Delivers got k c (some b) h is_open up e =
    let c₁ : Client = record c { recv_waiting = false } in
    let r : Relays got b c₁ = record {
      is_open = is_open;
      up = up;
      relayed = e;
      flows = rw e at (h.open_is is_open up);
    } in
    require-Ensures (c.recv_waiting && ltb c.recv_sent (length b)) _ (
      Ensures-bind (client_socks_recv_send_out k b c₁) _
        λ s f. sent_more-Delivers got s ((send_out-Delivers got b k c₁ r).at s f))

pub up-Delivers :
    (got : Bytes) (c : Client) → Delivers got c → Ensures (Delivers got) (socks_event_up c)
unfolding socks_event_up
up-Delivers got c h =
    let c₁ : Client = record c {
      recv_buf = none;
      recv_pending = 0;
      sent_on = not c.client_closed;
      socks_up = true;
    } in
    require-then (not c.socks_closed && not c.socks_up) _ λ ready.
      let all : got ≡ written c.calls = h.before (ground (arith, ready)) in
      let h₁ : Delivers got c₁ = record {
        open_is = λ _ _. all ∙ sym (append-nil (written c.calls));
        before = λ down. absurd (ground (arith, down));
        lost = h.lost;
        begins = h.begins;
      } in
      Ensures-bind (start_sending c₁) _ λ d e.
        let started =
          (Ensures-if {P = Spares c₁} (is_empty c.buf) _ _ (λ _. Ensures-some c₁ (Spares-refl c₁))
              (λ _. send_to_socks-Spares c₁)).at
            d e in
        let h₂ = Spares-Delivers got c₁ d h₁ started in
        Ensures-if d.client_closed _ _ (λ _. Ensures-some d h₂)
          (λ _. Ensures-Spares-Delivers got d h₂ (initiate-Spares d))
