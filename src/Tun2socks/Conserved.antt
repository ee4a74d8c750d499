-- ===== src/Tun2socks/Conserved.antt =====
-- tun2socks.c: the bytes from the device on their way to the SOCKS server.
use matador.Base.{
  ℕ, ◌-◌, ◌≡◌, refl, sym, ap, ◌∙◌, not, ◌&&◌, Option, none, some, [], ◌++◌, append-nil, length,
  take, drop, ltb, leb, if◌then◌else◌, Bool-cases, inl, inr, Ensures, Ensures-none, Ensures-some,
  Ensures-if, take-append-drop, take-before, ◌≤◌, ◌<◌, arith,
}
use matador.Memory.{Bytes}
use matador.Tun2socks.{Client, Lwip, is_empty, tcp_wnd}
use matador.Tun2socks.Closing.{client_err_func, depth}
use matador.Tun2socks.Relay.{client_recv_func, client_socks_send_handler_done, client_sent_func}
use matador.Tun2socks.Events.{
  Event, recv, err, socks_error, socks_is_up, socks_went_down, socks_sent, socks_received, sent,
  step,
}
use matador.Tun2socks.Offered.{IsOffered}
use matador.Tun2socks.Holds.{Mark, Holds, require-Ensures, closers-Hold}
use matador.Tun2socks.Relayed.{
  after_confirmed, after_sent-Holds, received-Holds, send_to_socks-Holds, up-Holds,
}

-- The bytes that an event brings from the device, and those that the SOCKS client has taken: the
-- first of those that it was handed last.
abbrev pub given : Event → Client → Bytes
given (recv (some b)) c = if ltb (tcp_wnd - length c.buf) (length b) then [] else b
given _ c = []

abbrev pub taken : Event → Client → Bytes
taken (socks_sent n) c = take n c.sending
taken _ c = []

-- The SOCKS client reports no more bytes as sent than it was handed.
abbrev pub IsReport : Event → Client → Type 0
IsReport (socks_sent n) c = n ≤ length c.sending
IsReport _ c = Unit {0}

keeps_buf :
    {m : Option Client} {t : Mark} (b : Bytes)
    → Ensures (Holds b t) m
    → Ensures (λ d. b ++ [] ≡ d.buf) m
keeps_buf b h = record { at = λ d e. append-nil b ∙ sym (h.at d e).held }

-- What it reports is what the buffer begins with.
take-sending :
    (c : Client) (n : ℕ)
    → IsOffered c
    → n ≤ length c.sending
    → n ≤ length c.buf
    → 0 < n
    → take n c.buf ≡ take n c.sending
take-sending c n o h k some_sent =
    let s = c.sending in
    ap (take n) (
      sym (take-append-drop (length s) c.buf)
      ∙ ap (λ t. t ++ drop (length s) c.buf) (o.begins (omega arith)))
    ∙ take-before n s (drop (length s) c.buf) h

-- What is in the buffer, with what an event brings behind it, is what the SOCKS client has taken by
-- the event, with what is in the buffer then behind it. A segment that does not fit brings nothing.
pub step-conserves :
    (k : Lwip) (e : Event) (c : Client)
    → IsOffered c
    → IsReport e c
    → Ensures (λ d. c.buf ++ given e c ≡ taken e c ++ d.buf) (step k e c)
unfolding step
step-conserves k (recv none) c o h =
    unfold client_recv_func in
    (keeps_buf c.buf
      (require-Ensures (not c.client_closed) _ ((closers-Hold depth k).free_client c)))
step-conserves k (recv (some b)) c o h =
    unfold client_recv_func in
    (require-Ensures (not c.client_closed && not (is_empty b)) _
      (elim (Bool-cases (ltb (tcp_wnd - length c.buf) (length b))) [
        | inl over ↦ rw over (Ensures-some c (append-nil c.buf))
        | inr fits ↦ rw fits (
            Ensures-if (is_empty c.buf && c.socks_up) _ _
              (λ _. record {
                at = λ d f. sym ((send_to_socks-Holds (record c { buf = c.buf ++ b })).at d f).held;
              })
              (λ _. Ensures-some _ refl))
      ]))
step-conserves k err c o h =
    unfold client_err_func in
    (keeps_buf c.buf (require-Ensures (not c.client_closed) _ ((closers-Hold depth k).freed c)))
step-conserves k socks_error c o h =
    keeps_buf c.buf (require-Ensures (not c.socks_closed) _ ((closers-Hold depth k).free_socks c))
step-conserves k socks_is_up c o h = keeps_buf c.buf (up-Holds c)
step-conserves k socks_went_down c o h =
    keeps_buf c.buf
      (require-Ensures (not c.socks_closed && c.socks_up) _ ((closers-Hold depth k).free_socks c))
step-conserves k (socks_sent n) c o h =
    let rest : Client = record c { buf = drop n c.buf } in
    unfold client_socks_send_handler_done in
    (Ensures-if (not c.socks_closed && (c.socks_up && (ltb 0 n && leb n (length c.buf)))) _ _
      (λ up. record {
        at = λ d f.
            append-nil c.buf
            ∙ sym (take-append-drop n c.buf)
            ∙ ap (λ t. t ++ drop n c.buf)
                (take-sending c n o h (ground (arith, up)) (ground (arith, up)))
            ∙ ap (◌++◌ (take n c.sending))
                (sym ((after_confirmed k c.client_closed n rest).at d f).held);
      })
      λ _. Ensures-none)
step-conserves k (socks_received b) c o h = keeps_buf c.buf (received-Holds k b c)
step-conserves k (sent n) c o h =
    unfold client_sent_func in
    (keeps_buf c.buf (
      require-Ensures (not c.client_closed && (c.socks_up && (ltb 0 n && leb n c.recv_pending))) _
        (after_sent-Holds k (record c { recv_pending = c.recv_pending - n }) c.recv_buf)))
