-- ===== src/Tun2socks/Output.antt =====
-- tun2socks.c: `common_netif_output` beside the packet that its chunks make up.
use matador.Base.{
  ℕ, ◌+◌, ◌-◌, ◌≡◌, ◌≤◌, refl, ap, arith, Bool, true, false, some, List, [], ◌∷◌, ◌++◌, append-nil,
  append_assoc, length, drop, ltb, leb, if◌then◌else◌, Bool-cases, inl, inr, Runs, Runs-some,
  Runs-if, length-append, length-drop, take-append,
}
use matador.Memory.{Bytes, write_at}
use matador.Memory.Laws.{drop-append_add}
use matador.Tun2socks.Device.{no_space, gather, sent_chunks, common_netif_output}

-- The packet that the chunks of a pbuf make up.
abbrev pub packet_of : List Bytes → Bytes
packet_of [] = []
packet_of (chunk ∷ chunks) = chunk ++ packet_of chunks

-- A packet that is not longer than the MTU is sent.
abbrev pub sent_whole : ℕ → Bytes → List Bytes
sent_whole mtu packet = if leb (length packet) mtu then packet ∷ [] else []

write_over :
    (got old chunk : Bytes)
    → length chunk ≤ length old
    → write_at (got ++ old) (length got) chunk ≡ some ((got ++ chunk) ++ drop (length chunk) old)
unfolding write_at
write_over got old chunk h =
    let fits : leb (length got + length chunk) (length (got ++ old)) ≡ true =
      ground (arith, length-append got old) in
    rw
      (
        fits,
        take-append got old,
        drop-append_add got old (length chunk),
        append_assoc got chunk (drop (length chunk) old),
      )
      refl

-- `got` is in the buffer.
gather-Runs :
    (mtu : ℕ) (got old : Bytes) (chunks : List Bytes)
    → length got + length old ≡ mtu
    → Runs
        (λ g. sent_chunks g ≡ sent_whole mtu (got ++ packet_of chunks))
        (gather mtu (got ++ old) (length got) chunks)
unfolding gather
gather-Runs mtu got old [] h =
    let fits : leb (length (got ++ [])) mtu ≡ true = ground (arith, length-append got []) in
    Runs-some _ (rw (fits, append-nil got, take-append got old) refl)
gather-Runs mtu got old (chunk ∷ chunks) h =
    Runs-if (ltb (mtu - length got) (length chunk)) _ _
      (λ over.
        let long : leb (length (got ++ (chunk ++ packet_of chunks))) mtu ≡ false = ground (
          arith,
          length-append got (chunk ++ packet_of chunks),
          length-append chunk (packet_of chunks),
        ) in
        Runs-some no_space (rw long refl))
      λ fits.
        let short : length chunk ≤ length old = ground (arith, fits, h) in
        let room : length (got ++ chunk) + length (drop (length chunk) old) ≡ mtu =
          omega (arith, length-append got chunk, length-drop (length chunk) old) in
        rw
          (
            write_over got old chunk short,
            ← length-append got chunk,
            ← append_assoc got chunk (packet_of chunks),
          )
          (gather-Runs mtu (got ++ chunk) (drop (length chunk) old) chunks room)

-- A packet that lwIP sends is written to the device whole, whatever its chunks are, if it is not
-- longer than the MTU, and not at all otherwise or when the program is quitting; nothing is written
-- outside of `device_write_buf`, which has room for the MTU.
pub common_netif_output-sent_whole :
    (quitting : Bool) (mtu : ℕ) (device_write_buf chunk : Bytes) (chunks : List Bytes)
    → length device_write_buf ≡ mtu
    → common_netif_output quitting mtu device_write_buf (chunk ∷ chunks)
      ≡ some (if quitting then [] else sent_whole mtu (packet_of (chunk ∷ chunks)))
unfolding common_netif_output
common_netif_output-sent_whole true mtu buf chunk [] h = refl
common_netif_output-sent_whole true mtu buf chunk (next ∷ chunks) h = refl
common_netif_output-sent_whole false mtu buf chunk [] h =
    elim (Bool-cases (ltb mtu (length chunk))) [
      | inl long ↦
          let over : leb (length chunk) mtu ≡ false = ground arith in
          rw (append-nil chunk, long, over) refl
      | inr short ↦
          let fits : leb (length chunk) mtu ≡ true = ground arith in
          rw (append-nil chunk, short, fits) refl
    ]
common_netif_output-sent_whole false mtu buf chunk (next ∷ chunks) h =
    let r = gather-Runs mtu [] buf (chunk ∷ next ∷ chunks) (omega arith) in
    rw r.runs (ap some r.holds)
