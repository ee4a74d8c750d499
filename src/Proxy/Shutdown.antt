-- ===== src/Proxy/Shutdown.antt =====
-- When the proxy's loop ends: `strcmp` reads one byte more than the datagram "EXIT" brings.
use matador.Base.{
  ℕ, suc, ◌≡◌, ◌<◌, ◌≤◌, refl, ap, ◌∙◌, arith, false, ◌&&◌, some, ◌∷◌, length, take, drop,
  get_elem?, ◌==◌, take-all, ==_iff, &&-left, get_elem?-lt, get_elem?-append, Ensures, Ensures-some,
  Ensures-bind, Ensures-if,
}
use matador.Memory.{Bytes, recv_into}
use matador.CText.{text}
use matador.Proxy.{State, buflen}
use matador.Proxy.Keeps.{handle_packet-KeepsBuffer}
use matador.Proxy.Udp.{Sockets, handle_packet, holds_text, handle_udp}

abbrev pub exit : Bytes
exit = text "EXIT"

-- The fifth byte of the buffer stays under a datagram of four.
holds_text-exit :
    (buffer : Bytes) (b : ℕ)
    → get_elem? buffer 4 ≡ some b
    → holds_text (recv_into buffer buflen exit) exit ≡ (b == 0)
unfolding holds_text recv_into
holds_text-exit (x ∷ y ∷ z ∷ w ∷ c ∷ rest) b e = ground arith
holds_text-exit _ b e = absurd (ground arith)

-- A datagram of five bytes or more is in the buffer when the next one is read.
handle_udp-buffer :
    (k : Sockets) (s : State) (d : Bytes) (b : ℕ)
    → length d ≤ buflen
    → get_elem? d 4 ≡ some b
    → Ensures (λ r. (r.0 ≡ false) × (get_elem? r.1.buffer 4 ≡ some b)) (handle_udp k s (some d))
unfolding handle_udp recv_into
handle_udp-buffer k s d b short e =
    let s' = record s { buffer = recv_into s.buffer buflen d } in
    let n = length (take buflen d) in
    let whole : take buflen d ≡ d = take-all buflen d short in
    let long : 4 < length d = get_elem?-lt d 4 e in
    Ensures-if (n == 4 && holds_text s'.buffer exit) _ _
      (λ h. absurd (
        omega (
          arith,
          (==_iff n 4).0 (&&-left (n == 4) (holds_text s'.buffer exit) h),
          ap length whole,
        )))
      λ _.
        Ensures-if (n == 0) _ _ (λ h. absurd (omega (arith, (==_iff n 0).0 h, ap length whole)))
          λ _. Ensures-bind (handle_packet k s' n) _ λ r er.
            Ensures-some (false, r.0, r.1)
              (
                refl,
                rw (((handle_packet-KeepsBuffer k s' n).at r er).same_buffer, whole)
                    (get_elem?-append d (drop (length d) s.buffer) 4 e),
              )

-- "EXIT", unless the step faults, ends the loop exactly if the byte behind the last four is 0:
-- `strcmp` compares the literal's NUL with what an earlier datagram left there.
pub exit_exact :
    (k : Sockets) (s : State) (b : ℕ)
    → get_elem? s.buffer 4 ≡ some b
    → Ensures (λ r. r.0 ≡ (b == 0)) (handle_udp k s (some exit))
unfolding handle_udp
exit_exact k s b e =
    let s' = record s { buffer = recv_into s.buffer buflen exit } in
    let heard = holds_text-exit s.buffer b e in
    Ensures-if (holds_text s'.buffer exit) _ _ (λ h. Ensures-some _ (ground arith))
      λ h. Ensures-bind (handle_packet k s' 4) _ λ r er. Ensures-some _ (ground arith)

-- "EXIT" is ignored behind a datagram whose fifth byte, the high byte of an IP packet's
-- identification, is not 0.
pub exit_ignored :
    (k k' : Sockets) (s : State) (d : Bytes) (b : ℕ)
    → length d ≤ buflen
    → get_elem? d 4 ≡ some (suc b)
    → Ensures
        (λ r. Ensures (λ r'. r'.0 ≡ false) (handle_udp k' r.1 (some exit)))
        (handle_udp k s (some d))
exit_ignored k k' s d b short e = record {
  at = λ r er.
      let kept = ((handle_udp-buffer k s d (suc b) short e).at r er).1 in
      record { at = λ r' er'. (exit_exact k' r.1 (suc b) kept).at r' er' ∙ ground arith };
}
