-- ===== src/Tunnel/Handshake.antt =====
-- measurement_proxy: the lines that proxy.c prints and tunnel.c reads.
use matador.Base.{
  ℕ, zero, suc, ◌+◌, ◌/◌, ◌%◌, ◌≡◌, ◌≢◌, ◌<◌, ◌≤◌, refl, ◌∙◌, arith, true, false, Option, some,
  List, [], ◌∷◌, ◌++◌, length, take, drop, leb, ◌==◌, append_assoc, length-append, take-all,
  take-append, ==-of_lt,
}
use matador.Base.Int.{pos}
use matador.Memory.{Bytes, recv_into}
use matador.Socket.{SockaddrIn}
use matador.CText.{text, dec, inet_ntoa, is_digit, strstr, strcspn, member}
use matador.CText.Decimal.{dec-head, length-dec_port}
use matador.CText.Search.{
  Lacks, LacksAll, Lacks-append, strstr-prefix, strstr-skip, is_prefix-append, strcspn-append,
}
use matador.CText.Address.{dec-Lacks, inet_ntoa-Lacks, length-inet_ntoa, LacksAll-one, LacksAll-two}
use matador.Proxy.Setup.{tunip_line, connect_line}
use matador.Tunnel.Options.{host_port}
use matador.Tunnel.Targets.{host_port-dec}
use matador.Tunnel.Arch.{buflen, c_string, strcat, strncat}
use matador.Tunnel.Announce.{Heard, hear_tunip, hear_connect, hear_loop, at, remote_of, hear_proxy}

-- A text without NUL in front of a text.
pub c_string-append :
    (a b : Bytes) {s : Bytes} → Lacks 0 a → c_string b ≡ some s → c_string (a ++ b) ≡ some (a ++ s)
unfolding c_string
c_string-append [] b h e = e
c_string-append (zero ∷ a) b h e = absurd (ground (arith, h.0))
c_string-append (suc c ∷ a) b h e = rw (c_string-append a b h.1 e)

-- What `strncat` copies: up to a byte of the set.
strncat_upto :
    (found rest reject : Bytes) (c : ℕ)
    → LacksAll reject found
    → member c reject ≡ true
    → length found < 128
    → strncat 128 [] (found ++ (c ∷ rest)) (strcspn (found ++ (c ∷ rest)) reject) ≡ some found
unfolding strncat strcat
strncat_upto found rest reject c clean stop short =
    let fits : leb (0 + length found + 1) 128 ≡ true = ground arith in
    rw (strcspn-append found rest reject c clean stop, take-append found (c ∷ rest), fits)

remote_of-cons :
    (s : Bytes) → s ≢ [] → remote_of s ≡ at (host_port s (pos 0)).0 (host_port s (pos 0)).1
unfolding remote_of
remote_of-cons [] h = absurd (h refl)
remote_of-cons (c ∷ s) h = refl

tunip_line-Lacks : (addr : ℕ) → Lacks b'C' (tunip_line addr)
unfolding tunip_line
tunip_line-Lacks addr =
    Lacks-append b'C' (text "TUNIP=") (inet_ntoa addr ++ text " \n")
      (refl, (refl, (refl, (refl, (refl, (refl, tt))))))
      (Lacks-append b'C' (inet_ntoa addr) (text " \n") (inet_ntoa-Lacks b'C' addr refl refl)
        (refl, (refl, tt)))

module _ (noise stale : Bytes) (addr : ℕ) (mapped : SockaddrIn) where
  -- What the shell prints before the proxy does, the proxy's two lines, and the rest of the text.
  abbrev pub printed : Bytes
  printed = noise ++ (tunip_line addr ++ connect_line mapped)

  abbrev endpoint : Bytes
  endpoint = inet_ntoa mapped.s_addr ++ (b':' ∷ dec mapped.sin_port)

  hear_tunip-printed :
      (h : Heard)
      → Lacks b'T' noise
      → hear_tunip h (strstr (printed ++ stale) (text "TUNIP="))
        ≡ some (record h { tunip_string = inet_ntoa addr })
  unfolding tunip_line
  hear_tunip-printed h quiet =
      let rest = 10 ∷ (connect_line mapped ++ stale) in
      let line = text "TUNIP=" ++ (inet_ntoa addr ++ (32 ∷ rest)) in
      let whole : printed ++ stale ≡ noise ++ line = simp append_assoc in
      let found : strstr (printed ++ stale) (text "TUNIP=") ≡ some line = rw whole (
        strstr-skip noise line (text "UNIP=") b'T' quiet
        ∙ strstr-prefix line (text "TUNIP=")
            (is_prefix-append (text "TUNIP=") (inet_ntoa addr ++ (32 ∷ rest)))) in
      let copied : strncat 128 [] (inet_ntoa addr ++ (32 ∷ rest))
            (strcspn (inet_ntoa addr ++ (32 ∷ rest)) (text " "))
          ≡ some (inet_ntoa addr) =
        strncat_upto (inet_ntoa addr) rest (text " ") 32
          (LacksAll-one 32 (inet_ntoa addr) (inet_ntoa-Lacks 32 addr refl refl))
          (unfold member in refl) (omega (arith, length-inet_ntoa addr)) in
      rw (found, copied)

  hear_connect-printed :
      (again : Option Heard)
      → mapped.sin_port < 65536
      → Lacks b'C' noise
      → hear_connect
          (record { remote_host = []; tunip_string = inet_ntoa addr })
          again
          (strstr (printed ++ stale) (text "CONNECT="))
        ≡ some (record { remote_host = endpoint; tunip_string = inet_ntoa addr })
  unfolding connect_line
  hear_connect-printed again small quiet =
      let rest = stale in
      let line = text "CONNECT=" ++ (endpoint ++ (10 ∷ rest)) in
      let whole : printed ++ stale ≡ (noise ++ tunip_line addr) ++ line =
        unfold tunip_line in (simp append_assoc) in
      let skipped : Lacks b'C' (noise ++ tunip_line addr) =
        Lacks-append b'C' noise (tunip_line addr) quiet (tunip_line-Lacks addr) in
      let found : strstr (printed ++ stale) (text "CONNECT=") ≡ some line = rw whole (
        strstr-skip (noise ++ tunip_line addr) line (text "ONNECT=") b'C' skipped
        ∙ strstr-prefix line (text "CONNECT=")
            (is_prefix-append (text "CONNECT=") (endpoint ++ (10 ∷ rest)))) in
      let clean =
        λ (c : ℕ) (d : is_digit c ≡ false) (dot : (b'.' == c) ≡ false)
            (colon : (b':' == c) ≡ false).
          Lacks-append c (inet_ntoa mapped.s_addr) (b':' ∷ dec mapped.sin_port)
            (inet_ntoa-Lacks c mapped.s_addr d dot) (colon, dec-Lacks c mapped.sin_port d) in
      let copied : strncat 128 [] (endpoint ++ (10 ∷ rest))
            (strcspn (endpoint ++ (10 ∷ rest)) (text "\r\n"))
          ≡ some endpoint =
        strncat_upto endpoint rest (text "\r\n") 10
          (LacksAll-two 13 10 endpoint (clean 13 refl refl refl) (clean 10 refl refl refl))
          (unfold member in refl)
          (omega (
            arith,
            length-append (inet_ntoa mapped.s_addr) (b':' ∷ dec mapped.sin_port),
            length-inet_ntoa mapped.s_addr,
            length-dec_port mapped.sin_port,
          )) in
      rw (found, copied)

printed-Lacks :
    (noise : Bytes) (addr : ℕ) (mapped : SockaddrIn)
    → Lacks 0 noise
    → Lacks 0 (printed noise [] addr mapped)
unfolding tunip_line connect_line
printed-Lacks noise addr mapped quiet = Lacks-append 0 noise _ quiet (
    Lacks-append 0 (tunip_line addr) _
      (Lacks-append 0 (text "TUNIP=") _ (refl, (refl, (refl, (refl, (refl, (refl, tt))))))
        (Lacks-append 0 (inet_ntoa addr) (text " \n") (inet_ntoa-Lacks 0 addr refl refl)
          (refl, (refl, tt))))
      (Lacks-append 0 (text "CONNECT=") _
        (refl, (refl, (refl, (refl, (refl, (refl, (refl, (refl, tt))))))))
        (Lacks-append 0 (inet_ntoa mapped.s_addr) _ (inet_ntoa-Lacks 0 mapped.s_addr refl refl) (
          refl,
          Lacks-append 0 (dec mapped.sin_port) (text "\n") (dec-Lacks 0 mapped.sin_port refl)
              (refl, tt),
        ))))

inet_ntoa-head : (a : ℕ) (s : Bytes) → inet_ntoa a ++ s ≢ []
unfolding inet_ntoa
inet_ntoa-head a s e =
    let (d, t, h, _) = dec-head (a / 16777216 % 256) in ground (arith, h, rw h at e)

printed-positive :
    (noise stale : Bytes) (addr : ℕ) (mapped : SockaddrIn)
    → 0 < length (printed noise stale addr mapped)
unfolding tunip_line
printed-positive noise stale addr mapped = omega (
  arith,
  length-append noise (tunip_line addr ++ connect_line mapped),
  length-append (tunip_line addr) (connect_line mapped),
  length-append (text "TUNIP=") (inet_ntoa addr ++ text " \n"),
)

-- If the proxy prints its two lines in one piece, behind anything without "T", "C" or NUL, the
-- tunnel has the proxy's own address as the address of its TUN device, and the mapped address and
-- port as the place to send to. What an earlier read left in the buffer does no harm, as long as
-- it ends in a NUL.
pub hear_proxy-printed :
    (noise stale buffer : Bytes) (addr : ℕ) (mapped : SockaddrIn) (chunks : List Bytes)
    → mapped.sin_port < 65536
    → Lacks 0 noise
    → Lacks b'T' noise
    → Lacks b'C' noise
    → length (printed noise stale addr mapped) ≤ buflen
    → c_string (drop (length (printed noise stale addr mapped)) buffer) ≡ some stale
    → hear_proxy buffer (printed noise stale addr mapped ∷ chunks)
      ≡ some (record {
        remote = at (inet_ntoa mapped.s_addr) (pos mapped.sin_port);
        tunip = inet_ntoa addr;
      })
unfolding hear_proxy hear_loop recv_into
hear_proxy-printed noise stale buffer addr mapped chunks small no_nul no_t no_c short old =
    let chunk = printed noise stale addr mapped in
    let whole : take buflen chunk ≡ chunk = take-all buflen chunk short in
    let filled : (length chunk == 0) ≡ false =
      ==-of_lt (length chunk) 0 (printed-positive noise stale addr mapped) in
    let read : c_string (chunk ++ drop (length chunk) buffer) ≡ some (chunk ++ stale) =
      c_string-append chunk (drop (length chunk) buffer) (printed-Lacks noise addr mapped no_nul)
        old in
    let start : Heard = record { remote_host = []; tunip_string = [] } in
    rw
      (
        whole,
        filled,
        read,
        hear_tunip-printed noise stale addr mapped start no_t,
        hear_connect-printed noise stale addr mapped
            (hear_loop (record { remote_host = []; tunip_string = inet_ntoa addr })
              (chunk ++ drop (length chunk) buffer) chunks)
            small no_c,
      )
      (rw (
        remote_of-cons (endpoint noise stale addr mapped)
            (inet_ntoa-head mapped.s_addr (b':' ∷ dec mapped.sin_port)),
        host_port-dec (inet_ntoa mapped.s_addr) mapped.sin_port (pos 0)
            (inet_ntoa-Lacks b':' mapped.s_addr refl refl) (omega arith),
      ))
