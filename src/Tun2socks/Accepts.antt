-- ===== src/Tun2socks/Accepts.antt =====
-- tun2socks.c: what `listener_accept_func` leaves behind.
use matador.Base.{
  ℕ, ap, ◌%◌, ◌+◌, ◌-◌, ◌≡◌, refl, arith, Bool, true, false, not, ◌&&◌, ◌||◌, Option, none, some,
  List, [], ◌∷◌, if◌then◌else◌, Bool-cases, inl, inr, Runs, Runs-some, Runs-if,
}
use mathlib.Core.Path.{subst, sym}
use matador.Memory.{Bytes}
use matador.Tun2socks.Events.{accepted}
use matador.Tun2socks.TakenDown.{require-Runs}
use matador.Tun2socks.Arguments.{is_given}
use matador.Tun2socks.Setup.{AuthInfo, ipv4, ipv6}
use matador.Tun2socks.Accept.{
  BAddr, baddr_from_lwip, Accepting, AcceptCall, tcp_accepted, malloc_client, concat_strings,
  socks_init, free_username, free_client, AcceptResult, socks_username, accept_socks, accept_named,
  listener_accept_func,
}

-- The blocks of memory that are left, with `n` before.
abbrev pub blocks : ℕ → List AcceptCall → ℕ
blocks n [] = n
blocks n (malloc_client ∷ cs) = blocks (n + 1) cs
blocks n (concat_strings s ∷ cs) = blocks (n + 1) cs
blocks n (free_username ∷ cs) = blocks (n - 1) cs
blocks n (free_client ∷ cs) = blocks (n - 1) cs
blocks n (_ ∷ cs) = blocks n cs

-- Where the SOCKS server is asked to connect to.
abbrev pub targets : List AcceptCall → List BAddr
targets [] = []
targets (socks_init server auth dest ∷ cs) = dest ∷ targets cs
targets (_ ∷ cs) = targets cs

-- Is a name made, and does every step succeed.
abbrev pub makes_name : Option Bytes → Bool → Bool
makes_name username append_source = is_given username && append_source

abbrev pub gets_client : Accepting → Bool → Bool
gets_client a named = a.malloc_ok && ((not named || a.concat_ok) && a.socks_ok)

-- The address and port that the device has connected to, by the family of its connection.
abbrev pub asked_for : Accepting → BAddr
asked_for a = (if a.is_ipv6 then ipv6 a.local_ip.ip6 else ipv4 a.local_ip.ip4, a.local_port % 65536)

-- A client that is accepted is new, has its own blocks of memory, and the address that it is to be
-- connected to is the local one of the device's connection.
abbrev pub AcceptsWell : Accepting → ℕ → Bool → Bool → AcceptResult → Type 0
AcceptsWell a num named success r =
    (r.client ≡ (if success then some (accepted num a.junk) else none))
    × (blocks 0 r.calls ≡ (if success then (if named then 2 else 1) else 0))
    × (success ≡ true → targets r.calls ≡ asked_for a ∷ [])

asked_for-baddr_from_lwip :
    (a : Accepting) → baddr_from_lwip a.is_ipv6 a.local_ip a.local_port ≡ asked_for a
unfolding baddr_from_lwip
asked_for-baddr_from_lwip a = elim (Bool-cases a.is_ipv6) [ inl e ↦ rw e refl | inr e ↦ rw e refl ]

accept_socks-lem :
    (a : Accepting) (server : BAddr) (num : ℕ) (auth : List AuthInfo)
    → AcceptsWell a num false a.socks_ok
        (accept_socks a server num auth (tcp_accepted a.is_ipv6 ∷ malloc_client ∷ []) [])
unfolding accept_socks
accept_socks-lem a server num auth = elim (Bool-cases a.socks_ok) [
  | inl ok ↦ rw ok (refl, refl, λ _. ap (λ x. x ∷ []) (asked_for-baddr_from_lwip a))
  | inr failed ↦ rw failed (refl, refl, λ h. absurd (ground (arith, h)))
]

accept_socks-named :
    (a : Accepting) (server : BAddr) (num : ℕ) (auth : List AuthInfo) (name : Bytes)
    → AcceptsWell a num true a.socks_ok (
        accept_socks a server num auth
          (tcp_accepted a.is_ipv6 ∷ malloc_client ∷ concat_strings name ∷ [])
          (free_username ∷ []))
unfolding accept_socks
accept_socks-named a server num auth name = elim (Bool-cases a.socks_ok) [
  | inl ok ↦ rw ok (refl, refl, λ _. ap (λ x. x ∷ []) (asked_for-baddr_from_lwip a))
  | inr failed ↦ rw failed (refl, refl, λ h. absurd (ground (arith, h)))
]

accept_named-lem :
    (a : Accepting) (server : BAddr) (num : ℕ) (username : Option Bytes) (append_source : Bool)
    (auth : List AuthInfo)
    → AcceptsWell a num
        (makes_name username append_source)
        ((not (makes_name username append_source) || a.concat_ok) && a.socks_ok)
        (accept_named a server num username append_source auth)
unfolding accept_named
accept_named-lem a server num none append_source auth = accept_socks-lem a server num auth
accept_named-lem a server num (some u) false auth = accept_socks-lem a server num auth
accept_named-lem a server num (some u) true auth = elim (Bool-cases a.concat_ok) [
  | inl ok ↦ rw ok (accept_socks-named a server num _ (socks_username u a.printed))
  | inr failed ↦ rw failed (refl, refl, λ h. absurd (ground (arith, h)))
]

-- A connection that the device opens gets a client exactly if every step succeeds; then the client is
-- new, it is to be connected to the address that the device asked for, and its memory is kept; on
-- every error path all that was allocated is freed.
pub listener_accept_func-Runs :
    (a : Accepting) (server : BAddr) (num : ℕ) (username : Option Bytes) (append_source : Bool)
    (auth : List AuthInfo)
    → a.err_ok ≡ true
    → Runs
        (AcceptsWell a num
          (makes_name username append_source)
          (gets_client a (makes_name username append_source)))
        (listener_accept_func a server num username append_source auth)
unfolding listener_accept_func
listener_accept_func-Runs a server num username append_source auth fine =
    let named = makes_name username append_source in
    let rest = (not named || a.concat_ok) && a.socks_ok in
    require-Runs a.err_ok _ fine (
      Runs-if (not a.malloc_ok) _ _
        (λ failed.
          let none_is : gets_client a named ≡ false = ground (arith, failed) in
          Runs-some _ (rw none_is (refl, refl, λ h. absurd (ground (arith, h)))))
        λ got.
          let same : gets_client a named ≡ rest = ground (arith, got) in
          Runs-some _ (
            subst
              (λ b.
                AcceptsWell a num named b (accept_named a server num username append_source auth))
              (sym same) (accept_named-lem a server num username append_source auth)))
