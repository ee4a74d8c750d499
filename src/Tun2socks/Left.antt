-- ===== src/Tun2socks/Left.antt =====
-- tun2socks.c: the clients that are left when the event loop has ended, and the loop that frees them.
use matador.Base.{
  ℕ, suc, ◌-◌, ◌≡◌, refl, ◌∙◌, arith, true, false, List, [], ◌∷◌, length, ltb, Bool-cases, inl, inr,
  Runs, Runs-some, Runs-bind, Runs-map, ap,
}
use matador.Tun2socks.{Client}
use matador.Tun2socks.Closing.{client_dealloc, murder_client, murder_socks, client_murder}
use matador.Tun2socks.Sound.{IsSound}
use matador.Tun2socks.TakenDown.{
  IsListed, murder_client-closed, murder_socks-closed, murder_socks-client, murder_client-IsListed,
  murder_socks-IsListed,
}
use matador.Tun2socks.Loop.{free_clients}

abbrev pub AllSound : List Client → Type 0
AllSound [] = Unit {0}
AllSound (c ∷ cs) = IsSound c × AllSound cs

-- Freed one after the other: the counter falls by one with each, to 0.
abbrev pub AllFreed : ℕ → List Client → Type 0
AllFreed num [] = num ≡ 0
AllFreed num (d ∷ ds) = (d.live ≡ false) × (num ≡ suc d.num_clients) × AllFreed d.num_clients ds

client_dealloc-counts :
    (c : Client)
    → IsListed c
    → c.client_closed ≡ true
    → c.socks_closed ≡ true
    → Runs (λ d. (d.live ≡ false) × (d.num_clients ≡ c.num_clients - 1)) (client_dealloc c)
unfolding client_dealloc
client_dealloc-counts c l h g =
    let counted : ltb 0 c.num_clients ≡ true = ground (arith, l.counted) in
    rw (l.alive, h, g, counted) (Runs-some _ (refl, refl))

murder-num_clients : (c : Client) → (murder_socks (murder_client c)).num_clients ≡ c.num_clients
murder-num_clients c = elim (Bool-cases c.client_closed) [
  | inl e ↦ rw e (elim (Bool-cases c.socks_closed) [ inl f ↦ rw f refl | inr f ↦ rw f refl ])
  | inr e ↦ rw e (elim (Bool-cases c.socks_closed) [ inl f ↦ rw f refl | inr f ↦ rw f refl ])
]

client_murder-counts :
    (c : Client)
    → IsListed c
    → Runs (λ d. (d.live ≡ false) × (d.num_clients ≡ c.num_clients - 1)) (client_murder c)
unfolding client_murder
client_murder-counts c l =
    Runs-map (λ d p. (p.0, p.1 ∙ ap (λ n. n - 1) (murder-num_clients c)))
      (client_dealloc-counts (murder_socks (murder_client c))
        (murder_socks-IsListed (murder_client c) (murder_client-IsListed c l))
        (murder_socks-client (murder_client c) ∙ murder_client-closed c)
        (murder_socks-closed (murder_client c)))

-- The loop frees each client that is left, whatever state it is in, and ends with `num_clients` at 0.
pub free_clients-AllFreed :
    (cs : List Client) (num : ℕ)
    → AllSound cs
    → num ≡ length cs
    → Runs (AllFreed num) (free_clients num cs)
unfolding free_clients
free_clients-AllFreed [] num s n = Runs-some [] n
free_clients-AllFreed (c ∷ cs) num s n =
    Runs-bind _
      (client_murder-counts (record c { num_clients = num })
        (record { alive = s.0.alive; counted = omega arith; room = s.0.room }))
      λ d _ freed.
        Runs-bind _ (free_clients-AllFreed cs d.num_clients s.1 (omega (arith, freed.1)))
          λ ds _ all. Runs-some _ (freed.0, omega (arith, freed.1, n), all)
