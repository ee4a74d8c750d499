-- ===== src/Tun2socks/Offered.antt =====
-- tun2socks.c: what the SOCKS client has to send is what the buffer of the client begins with.
use matador.Base.{
  ℕ, ◌-◌, ◌≡◌, ◌≤◌, ◌<◌, refl, arith, ap, sym, ◌∙◌, Bool, true, false, not, ◌&&◌, Option, none,
  some, [], ◌∷◌, ◌++◌, length, take, drop, ltb, leb, Bool-cases, inl, inr, Ensures, Ensures-none,
  Ensures-some, Ensures-if, take-append-drop, take-all, take-before, length-append,
}
use matador.Memory.{Bytes}
use matador.Tun2socks.{Client, Lwip, is_empty, tcp_wnd}
use matador.Tun2socks.Closing.{client_err_func, depth}
use matador.Tun2socks.Relay.{client_recv_func, client_socks_send_handler_done, client_sent_func}
use matador.Tun2socks.Events.{
  Event, recv, err, socks_error, socks_is_up, socks_went_down, socks_sent, socks_received, sent,
  accepted, step,
}
use matador.Tun2socks.Holds.{Mark, handed_over, Holds, require-Ensures, closers-Hold}
use matador.Tun2socks.Relayed.{
  after_sent-Holds, received-Holds, send_to_socks-Holds, up-Holds, after_confirmed,
}

-- The buffer `b` begins with the bytes `s` that the SOCKS client has to send, if there is anything
-- in it; there are some then if the SOCKS client is up, and none if it is not.
pub record Offers (b s : Bytes) (up : Bool) : Type 0 where
  pub begins : 0 < length b → take (length s) b ≡ s
  pub some_if_up : up ≡ true → 0 < length b → 0 < length s
  pub none_if_not : up ≡ false → s ≡ []

abbrev pub IsOffered : Client → Type 0
IsOffered c = Offers c.buf c.sending c.socks_up

is_empty-length : (b : Bytes) → is_empty b ≡ true → length b ≡ 0
is_empty-length [] h = refl
is_empty-length (x ∷ b) h = absurd (ground (arith, h))

Offers-all : (b : Bytes) → Offers b b true
Offers-all b = record {
  begins = λ _. take-all (length b) b (omega arith);
  some_if_up = λ _ h. h;
  none_if_not = λ h. absurd (ground (arith, h));
}

handed_over-Offers : (c : Client) → Offers c.buf (handed_over c) true
handed_over-Offers c = elim (Bool-cases (is_empty c.buf)) [
  | inl e ↦ rw e (record {
    begins = λ h. absurd (omega (arith, h, is_empty-length c.buf e));
    some_if_up = λ _ h. absurd (omega (arith, h, is_empty-length c.buf e));
    none_if_not = λ h. absurd (ground (arith, h));
  })
  | inr e ↦ rw e (Offers-all c.buf)
]

-- More data from the device.
Offers-more :
    (b s x : Bytes) (up : Bool) → (is_empty b && up) ≡ false → Offers b s up → Offers (b ++ x) s up
Offers-more b s x false h o = record {
  begins = λ _. rw (o.none_if_not refl) refl;
  some_if_up = λ e. absurd (ground (arith, e));
  none_if_not = o.none_if_not;
}
Offers-more [] s x true h o = absurd (ground (arith, h))
Offers-more (y ∷ b) s x true h o =
    let bytes = y ∷ b in
    let here : 0 < length bytes = omega arith in
    let whole : s ++ drop (length s) bytes ≡ bytes =
      ap (λ t. t ++ drop (length s) bytes) (sym (o.begins here))
      ∙ take-append-drop (length s) bytes in
    let short : length s ≤ length bytes =
      omega (arith, ap length whole, length-append s (drop (length s) bytes)) in
    record {
      begins = λ _. take-before (length s) bytes x short ∙ o.begins here;
      some_if_up = λ _ _. o.some_if_up refl here;
      none_if_not = o.none_if_not;
    }

keeps_offer :
    {m : Option Client} (b s : Bytes) (up : Bool) (n : ℕ)
    → Offers b s up
    → Ensures (Holds b (n, (s, up))) m
    → Ensures IsOffered m
keeps_offer b s up n o h = record {
  at = λ d e.
      let here = h.at d e in
      rw (here.held, ap (λ (t : Mark). t.1.0) here.marked, ap (λ (t : Mark). t.1.1) here.marked) o;
}

pub accepted-IsOffered : (num : ℕ) (junk : Option Bytes) → IsOffered (accepted num junk)
unfolding accepted
accepted-IsOffered num junk = record {
  begins = λ h. absurd (omega (arith, h));
  some_if_up = λ e. absurd (ground (arith, e));
  none_if_not = λ _. refl;
}

-- Every event keeps it so.
pub step-IsOffered :
    (k : Lwip) (e : Event) (c : Client) → IsOffered c → Ensures IsOffered (step k e c)
unfolding step
step-IsOffered k (recv none) c o =
    unfold client_recv_func in
    (keeps_offer c.buf c.sending c.socks_up _ o
      (require-Ensures (not c.client_closed) _ ((closers-Hold depth k).free_client c)))
step-IsOffered k (recv (some b)) c o =
    unfold client_recv_func in
    (require-Ensures (not c.client_closed && not (is_empty b)) _ (
      Ensures-if (ltb (tcp_wnd - length c.buf) (length b)) _ _ (λ _. Ensures-some c o)
        λ _.
          Ensures-if (is_empty c.buf && c.socks_up) _ _
            (λ up.
              let is_up : c.socks_up ≡ true = ground (arith, up) in
              keeps_offer (c.buf ++ b) (c.buf ++ b) c.socks_up _
                (rw is_up (Offers-all (c.buf ++ b)))
                (send_to_socks-Holds (record c { buf = c.buf ++ b })))
            (λ no. Ensures-some _ (Offers-more c.buf c.sending b c.socks_up no o))))
step-IsOffered k err c o =
    unfold client_err_func in
    (keeps_offer c.buf c.sending c.socks_up _ o
      (require-Ensures (not c.client_closed) _ ((closers-Hold depth k).freed c)))
step-IsOffered k socks_error c o =
    keeps_offer c.buf c.sending c.socks_up _ o
      (require-Ensures (not c.socks_closed) _ ((closers-Hold depth k).free_socks c))
step-IsOffered k socks_is_up c o =
    keeps_offer c.buf (handed_over c) true _ (handed_over-Offers c) (up-Holds c)
step-IsOffered k socks_went_down c o =
    keeps_offer c.buf c.sending c.socks_up _ o
      (require-Ensures (not c.socks_closed && c.socks_up) _ ((closers-Hold depth k).free_socks c))
step-IsOffered k (socks_sent n) c o =
    let rest : Client = record c { buf = drop n c.buf } in
    unfold client_socks_send_handler_done in
    (Ensures-if (not c.socks_closed && (c.socks_up && (ltb 0 n && leb n (length c.buf)))) _ _
      (λ up.
        let is_up : c.socks_up ≡ true = ground (arith, up) in
        keeps_offer rest.buf (handed_over rest) c.socks_up _ (rw is_up (handed_over-Offers rest))
          (after_confirmed k c.client_closed n rest))
      λ _. Ensures-none)
step-IsOffered k (socks_received b) c o =
    keeps_offer c.buf c.sending c.socks_up _ o (received-Holds k b c)
step-IsOffered k (sent n) c o =
    unfold client_sent_func in
    (keeps_offer c.buf c.sending c.socks_up _ o (
      require-Ensures (not c.client_closed && (c.socks_up && (ltb 0 n && leb n c.recv_pending))) _
        (after_sent-Holds k (record c { recv_pending = c.recv_pending - n }) c.recv_buf)))
