-- ===== src/Tunnel/Launched.antt =====
-- measurement_proxy/tunnel.c: the arrays that `main` prints into behind the SSH session.
use matador.Base.{
  ℕ, suc, ◌+◌, ◌^◌, ◌≡◌, ◌≤◌, ◌<◌, refl, ap, arith, Bool, true, false, not, ◌&&◌, Option, none,
  some, List, [], ◌∷◌, ◌++◌, length, ltb, leb, if◌then◌else◌, Bool-cases, inl, inr, length-append,
  Runs, Runs-some, Runs-bind, Runs-if,
}
use matador.Base.Int.{ℤ, pos, negsuc, is_neg}
use matador.Memory.{Bytes}
use matador.Socket.{SockaddrIn}
use matador.CText.{text, dec, dec_int}
use matador.CText.Decimal.{length-dec-le, length-dec-gt}
use matador.Tunnel.Arch.{strcat, buflen}
use matador.Tunnel.Launch.{
  sprintf, Route, socks_address, ssh_args, move_device, device_up, add_address, add_route, System,
  Action, ssh_child, Ending, configure, open_tunnel, launch_to, launch,
}

-- A value of an `int`.
abbrev pub IsInt : ℤ → Type 0
IsInt (pos n) = n < 2 ^ 31
IsInt (negsuc n) = n < 2 ^ 31

-- A number with nine characters at most.
abbrev pub fits_nine : ℤ → Bool
fits_nine (pos n) = ltb n (10 ^ 9)
fits_nine (negsuc n) = ltb (suc n) (10 ^ 8)

length-dec_int : (z : ℤ) → IsInt z → length (dec_int z) ≤ 11
unfolding dec_int
length-dec_int (pos n) h = omega (arith, length-dec-le 9 n (omega arith))
length-dec_int (negsuc n) h = omega (arith, length-dec-le 9 (suc n) (omega arith))

sprintf-int : (z : ℤ) → sprintf 10 (dec_int z) ≡ (if fits_nine z then some (dec_int z) else none)
unfolding strcat dec_int
sprintf-int (pos n) = elim (Bool-cases (ltb n (10 ^ 9))) [
  | inl short ↦
      let fits : leb (0 + length (dec n) + 1) 10 ≡ true =
        ground (arith, length-dec-le 8 n (ground (arith, short))) in
      rw (short, fits) refl
  | inr long ↦
      let over : leb (0 + length (dec n) + 1) 10 ≡ false =
        ground (arith, length-dec-gt 9 n (ground (arith, long))) in
      rw (long, over) refl
]
sprintf-int (negsuc n) = elim (Bool-cases (ltb (suc n) (10 ^ 8))) [
  | inl short ↦
      let fits : leb (0 + suc (length (dec (suc n))) + 1) 10 ≡ true =
        ground (arith, length-dec-le 7 (suc n) (ground (arith, short))) in
      rw (short, fits) refl
  | inr long ↦
      let over : leb (0 + suc (length (dec (suc n))) + 1) 10 ≡ false =
        ground (arith, length-dec-gt 8 (suc n) (ground (arith, long))) in
      rw (long, over) refl
]

abbrev pub has_args : Option (List Bytes) → Bool
has_args none = false
has_args (some xs) = true

-- The child that starts ssh prints both ports into arrays of ten bytes, which hold them exactly if
-- neither has more than nine characters; a port of up to 65535 has five.
pub ssh_args-fits :
    (r : Route) → has_args (ssh_args r) ≡ (fits_nine r.sport && fits_nine r.socksport)
unfolding ssh_args
ssh_args-fits r =
    rw (sprintf-int r.sport, sprintf-int r.socksport)
      (elim (Bool-cases (fits_nine r.sport)) [
        | inl e ↦
            rw e
              (elim (Bool-cases (fits_nine r.socksport)) [ inl f ↦ rw f refl | inr f ↦ rw f refl ])
        | inr e ↦ rw e refl
      ])

sprintf-Runs : (cap : ℕ) (s : Bytes) → length s < cap → Runs (λ t. t ≡ s) (sprintf cap s)
unfolding strcat
sprintf-Runs cap s h =
    let fits : leb (0 + length s + 1) cap ≡ true = ground (arith, h) in rw fits (Runs-some s refl)

abbrev pub has_addr : Option ℕ → Bool
has_addr none = false
has_addr (some a) = true

-- The answers with which `main` does not give up.
abbrev pub succeeds : System → Bool
succeeds k =
    has_addr k.host_addr
    && (not k.init_failed && (not (is_neg k.sshpid) && not (is_neg k.child_pid)))

-- The answers with which the child that becomes ssh is started, whatever comes behind it.
abbrev pub starts_ssh : System → Bool
starts_ssh k = has_addr k.host_addr && (not k.init_failed && not (is_neg k.sshpid))

-- The arguments of the children that become ssh; a child that overflows an array has none.
abbrev pub children : List Action → List (Option (List Bytes))
children [] = []
children (ssh_child args ∷ rest) = args ∷ children rest
children (_ ∷ rest) = children rest

abbrev pub EndsWell : Bool → List (Option (List Bytes)) → Ending → Type 0
EndsWell success ssh e = (e.code ≡ (if success then 0 else 1)) × (children e.actions ≡ ssh)

module _ (r : Route) (k : System) (int : IsInt r.socksport) (name : length k.devname < 16)
    (address : length r.tunip_string < 128) where
  configure-Runs : (peer : SockaddrIn) → Runs (EndsWell true []) (configure r k peer)
  unfolding configure move_device device_up add_address add_route
  configure-Runs peer =
      Runs-bind _
        (sprintf-Runs 128 _ (omega (arith, length-append k.devname (text " netns tunnel"))))
        λ cmd _ _.
          Runs-bind _ (sprintf-Runs buflen _ (omega (arith, length-append k.devname (text " up"))))
            λ up _ _.
              Runs-bind _
                (sprintf-Runs buflen _
                  (omega (arith, length-append r.tunip_string (text "/32 dev " ++ k.devname))))
                λ addr _ _.
                  Runs-bind _ (sprintf-Runs buflen _ (omega arith))
                    λ route _ _. Runs-some _ (refl, refl)

  open_tunnel-Runs :
      (peer : SockaddrIn) → Runs (EndsWell (not (is_neg k.child_pid)) []) (open_tunnel r k peer)
  unfolding open_tunnel
  open_tunnel-Runs peer = elim (Bool-cases (is_neg k.child_pid)) [
    | inl failed ↦ rw failed (Runs-some _ (refl, refl))
    | inr child ↦
        rw child (Runs-bind _ (configure-Runs peer) λ e _ zero_code. Runs-some _ zero_code)
  ]

  launch_to-Runs :
      (host : Option ℕ)
      → Runs
          (EndsWell
            (has_addr host
              && (not k.init_failed && (not (is_neg k.sshpid) && not (is_neg k.child_pid))))
            (if has_addr host && (not k.init_failed && not (is_neg k.sshpid))
              then ssh_args r ∷ []
              else []))
          (launch_to r k host)
  unfolding launch_to socks_address
  launch_to-Runs none = Runs-some _ (refl, refl)
  launch_to-Runs (some a) =
      Runs-bind _
        (sprintf-Runs 32 _ (
          omega (
            arith,
            length-dec_int r.socksport int,
            length-append (text "127.0.0.1:") (dec_int r.socksport),
          )))
        λ socksaddress _ _.
          Runs-if k.init_failed _ _
            (λ failed. Runs-some _ (ground (arith, failed), ground (arith, failed)))
            λ started.
              Runs-if (is_neg k.sshpid) _ _
                (λ failed.
                  Runs-some _ (ground (arith, started, failed), ground (arith, started, failed)))
                λ ssh. Runs-bind _ (open_tunnel-Runs _) λ e _ q.
                  let starts : (not k.init_failed && not (is_neg k.sshpid)) ≡ true =
                    ground (arith, started, ssh) in
                  Runs-some _
                    (ground (arith, started, ssh, q.0), rw starts (ap (◌∷◌ (ssh_args r)) q.1))

  -- With a device name of less than IFNAMSIZ bytes and an address from `tunip_string`, `main` overflows
  -- none of its arrays, whatever the port of the SOCKS proxy is, and returns 0 exactly if the remote
  -- host has an address, tun2socks starts, and both calls of `fork` succeed. The child that becomes ssh
  -- is started once if all these succeed but, perhaps, the second `fork`, and not at all otherwise. It
  -- overflows none of its own arrays exactly if neither of the two ports has more than nine characters.
  pub launch-Runs :
      Runs (EndsWell (succeeds k) (if starts_ssh k then ssh_args r ∷ [] else [])) (launch r k)
      × (has_args (ssh_args r) ≡ (fits_nine r.sport && fits_nine r.socksport))
  unfolding launch
  launch-Runs = (launch_to-Runs k.host_addr, ssh_args-fits r)
