-- ===== src/Tun2socks/Backflow.antt =====
-- tun2socks.c: the bytes from the SOCKS server over a whole history of a client.
use matador.Base.{
  ℕ, ◌-◌, ◌≡◌, refl, arith, true, false, not, ◌&&◌, Bool, Option, none, some, [], ◌++◌, append-nil,
  length, drop, ltb, leb, if◌then◌else◌, Ensures, Ensures-some, Ensures-if,
}
use matador.Memory.{Bytes}
use matador.Tun2socks.{Client, Lwip, call, is_empty, tcp_wnd, tcp_recved}
use matador.Tun2socks.Closing.{client_err_func, depth}
use matador.Tun2socks.Relay.{client_recv_func, client_socks_send_handler_done, client_sent_func}
use matador.Tun2socks.Events.{
  Event, recv, err, socks_error, socks_is_up, socks_went_down, socks_sent, socks_received, sent,
  accepted, step,
}
use matador.Tun2socks.Holds.{require-Ensures}
use matador.Tun2socks.Untouched.{
  written, Spares, Spares-refl, Spares-trans, then-Spares, call-Spares, closers-Spare,
  send_to_socks-Spares, send_more-Spares,
}
use matador.Tun2socks.Delivered.{Delivers, Ensures-Spares-Delivers, Spares-Delivers}
use matador.Tun2socks.Arrivals.{
  require-then, arrived, cast-Delivers, same-Spares, received-Delivers, after_sent-Delivers,
  up-Delivers,
}

confirmed-Spares :
    (closed : Bool) (n : ℕ) (c : Client) → Spares c (if closed then c else call (tcp_recved n) c)
confirmed-Spares true n c = Spares-refl c
confirmed-Spares false n c = call-Spares (tcp_recved n) c refl

-- What holds is kept by each event, with the bytes that the event brings.
pub step-Delivers :
    (got : Bytes) (k : Lwip) (e : Event) (c : Client)
    → Delivers got c
    → Ensures (Delivers (got ++ arrived e c)) (step k e c)
unfolding step
step-Delivers got k (recv none) c h = rw (append-nil got) (
    unfold client_recv_func in
    (Ensures-Spares-Delivers got c h
      (require-Ensures (not c.client_closed) _ ((closers-Spare depth k).free_client c))))
step-Delivers got k (recv (some b)) c h =
    let filled : Client = record c { buf = c.buf ++ b } in
    let s = same-Spares c filled refl refl refl refl refl in
    cast-Delivers (append-nil got) (
      unfold client_recv_func in
      (Ensures-Spares-Delivers got c h (
        require-Ensures (not c.client_closed && not (is_empty b)) _ (
          Ensures-if (ltb (tcp_wnd - length c.buf) (length b)) _ _
            (λ _. Ensures-some c (Spares-refl c))
            λ _.
              Ensures-if (is_empty c.buf && c.socks_up) _ _
                (λ _. then-Spares c filled s (send_to_socks-Spares filled))
                (λ _. Ensures-some filled s)))))
step-Delivers got k err c h = rw (append-nil got) (
    unfold client_err_func in
    (Ensures-Spares-Delivers got c h
      (require-Ensures (not c.client_closed) _ ((closers-Spare depth k).freed c))))
step-Delivers got k socks_error c h = rw (append-nil got) (
    Ensures-Spares-Delivers got c h
      (require-Ensures (not c.socks_closed) _ ((closers-Spare depth k).free_socks c)))
step-Delivers got k socks_is_up c h = rw (append-nil got) (up-Delivers got c h)
step-Delivers got k socks_went_down c h = rw (append-nil got) (
    Ensures-Spares-Delivers got c h
      (require-Ensures (not c.socks_closed && c.socks_up) _ ((closers-Spare depth k).free_socks c)))
step-Delivers got k (socks_sent n) c h =
    let left : Client = record c { buf = drop n c.buf } in
    let s = same-Spares c left refl refl refl refl refl in
    let now : Client = if c.client_closed then left else call (tcp_recved n) left in
    cast-Delivers (append-nil got) (
      unfold client_socks_send_handler_done in
      (Ensures-Spares-Delivers got c h (
        require-Ensures (not c.socks_closed && (c.socks_up && (ltb 0 n && leb n (length c.buf)))) _
          (then-Spares c now (Spares-trans c left now s (confirmed-Spares c.client_closed n left))
            (send_more-Spares k now)))))
step-Delivers got k (socks_received b) c h = received-Delivers got k b c h
step-Delivers got k (sent n) c h = rw (append-nil got) (
    unfold client_sent_func in
    (require-then (not c.client_closed && (c.socks_up && (ltb 0 n && leb n c.recv_pending))) _
      λ ready.
        after_sent-Delivers got k (record c { recv_pending = c.recv_pending - n }) c.recv_buf
          (Spares-Delivers got c _ h (same-Spares c _ refl refl refl refl refl))
          (ground (arith, ready)) (ground (arith, ready)) refl))

-- A history of a client, with all that the SOCKS server has sent for the device.
pub data Backflow (num : ℕ) : Client → Bytes → Type 0 where
  began : (junk : Option Bytes) → Backflow num (accepted num junk) []
  went :
      (k : Lwip) (e : Event) {c d : Client} {got : Bytes}
      → Backflow num c got
      → step k e c ≡ some d
      → Backflow num d (got ++ arrived e c)

accepted-Delivers : (num : ℕ) (junk : Option Bytes) → Delivers [] (accepted num junk)
unfolding accepted written
accepted-Delivers num junk = record {
  open_is = λ _ up. absurd (ground (arith, up));
  before = λ _. refl;
  lost = [];
  begins = refl;
}

-- What lwIP has taken for the device is at any time a prefix of what the SOCKS server has sent: no byte
-- is changed, repeated or left out. While both connections are there, the rest is what is left in
-- `socks_recv_buf`.
pub Backflow-Delivers : (num : ℕ) (c : Client) (got : Bytes) → Backflow num c got → Delivers got c
Backflow-Delivers num c got (began junk) = accepted-Delivers num junk
Backflow-Delivers num c got (went k e {c = b} {got = g} f s) =
    (step-Delivers g k e b (Backflow-Delivers num b g f)).at c s
