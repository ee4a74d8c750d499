-- ===== src/Tun2socks/Tally.antt =====
-- tun2socks.c: `num_clients` over an event of a client.
use matador.Base.{
  ◌-◌, refl, ap, ◌∙◌, not, ◌&&◌, Option, none, some, ◌++◌, length, drop, ltb, leb, if◌then◌else◌,
  Ensures, Ensures-some, Ensures-if, ◌≡◌,
}
use matador.Memory.{Bytes}
use matador.Tun2socks.{Client, Lwip, is_empty, call, tcp_recved, tcp_wnd}
use matador.Tun2socks.Closing.{client_err_func, depth}
use matador.Tun2socks.Relay.{client_recv_func, client_socks_send_handler_done, client_sent_func}
use matador.Tun2socks.Events.{
  Event, recv, err, socks_error, socks_is_up, socks_went_down, socks_sent, socks_received, sent,
  step,
}
use matador.Tun2socks.Holds.{tally, Mark, Holds, require-Ensures, closers-Hold}
use matador.Tun2socks.Relayed.{
  after_sent-Holds, received-Holds, send_to_socks-Holds, up-Holds, send_more-Holds, confirmed-Holds,
}

counts :
    {m : Option Client} {t : Mark} (b : Bytes)
    → Ensures (Holds b t) m
    → Ensures (λ d. tally d ≡ t.0) m
counts b h = record { at = λ d e. ap (λ (t : Mark). t.0) (h.at d e).marked }

-- An event that frees the client takes one from `num_clients`; any other leaves it.
pub step-tally : (k : Lwip) (e : Event) (c : Client) → Ensures (λ d. tally d ≡ tally c) (step k e c)
unfolding step
step-tally k (recv none) c =
    unfold client_recv_func in
    (counts c.buf (require-Ensures (not c.client_closed) _ ((closers-Hold depth k).free_client c)))
step-tally k (recv (some b)) c =
    unfold client_recv_func in
    (require-Ensures (not c.client_closed && not (is_empty b)) _ (
      Ensures-if (ltb (tcp_wnd - length c.buf) (length b)) _ _ (λ _. Ensures-some c refl)
        λ _.
          Ensures-if (is_empty c.buf && c.socks_up) _ _
            (λ _. counts _ (send_to_socks-Holds (record c { buf = c.buf ++ b })))
            (λ _. Ensures-some _ refl)))
step-tally k err c =
    unfold client_err_func in
    (counts c.buf (require-Ensures (not c.client_closed) _ ((closers-Hold depth k).freed c)))
step-tally k socks_error c =
    counts c.buf (require-Ensures (not c.socks_closed) _ ((closers-Hold depth k).free_socks c))
step-tally k socks_is_up c = counts c.buf (up-Holds c)
step-tally k socks_went_down c =
    counts c.buf
      (require-Ensures (not c.socks_closed && c.socks_up) _ ((closers-Hold depth k).free_socks c))
step-tally k (socks_sent n) c =
    let rest : Client = record c { buf = drop n c.buf } in
    let now : Client = if c.client_closed then rest else call (tcp_recved n) rest in
    unfold client_socks_send_handler_done in
    (require-Ensures (not c.socks_closed && (c.socks_up && (ltb 0 n && leb n (length c.buf)))) _
      (record {
        at = λ d f.
            ap (λ (t : Mark). t.0) ((send_more-Holds k now).at d f).marked
            ∙ ap (λ (t : Mark). t.0) (confirmed-Holds c.client_closed n rest).marked;
      }))
step-tally k (socks_received b) c = counts c.buf (received-Holds k b c)
step-tally k (sent n) c =
    unfold client_sent_func in
    (counts c.buf (
      require-Ensures (not c.client_closed && (c.socks_up && (ltb 0 n && leb n c.recv_pending))) _
        (after_sent-Holds k (record c { recv_pending = c.recv_pending - n }) c.recv_buf)))
