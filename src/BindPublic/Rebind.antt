-- ===== src/BindPublic/Rebind.antt =====
-- Which address `bind_public` binds.
use matador.Base.{
  ℕ, ◌≡◌, refl, arith, Bool, true, false, [], ◌∷◌, ◌==◌, if◌then◌else◌, Runs, Runs-some, ◌&&◌,
  Bool-cases, inl, inr,
}
use matador.Base.Int.{ℤ}
use matador.CText.{streq, inet_ntoa}
use matador.BindPublic.{
  Sockaddr, inet, inet6, other_family, Family, af_inet, af_inet6, sa_family, in6addr_any, Lookup,
  failed, found, Resolver, is_addr_any, print_ip4, Bound, readdress, bind_public, is_positive,
  is_zero,
}

-- `getaddrinfo` with `hints.ai_family` set gives addresses of that family only.
pub record HonoursFamily (resolve : Resolver) : Type 0 where
  pub honours : (f : Family) (a : Sockaddr) → resolve f ≡ found a → sa_family a ≡ f

-- The wildcard addresses 0.0.0.0 and ::.
abbrev pub is_wildcard : Sockaddr → Bool
is_wildcard (inet a) = a.s_addr == 0
is_wildcard (inet6 port addr) = streq addr in6addr_any
is_wildcard (other_family f) = false

-- `addr` with the address of `public`; the port is that of `addr`.
abbrev pub with_address : Sockaddr → Sockaddr → Sockaddr
with_address (inet a) (inet b) = inet (record { sin_port = a.sin_port; s_addr = b.s_addr })
with_address (inet6 port addr) (inet6 _ addr') = inet6 port addr'
with_address addr _ = addr

-- What should be bound.
abbrev pub public_address : Lookup → Sockaddr → Sockaddr
public_address failed addr = addr
public_address (found public) addr = with_address addr public

pub target : Resolver → Sockaddr → Sockaddr
target resolve addr =
    if is_wildcard addr then public_address (resolve (sa_family addr)) addr else addr

-- What a wildcard is bound to, given the lookup's answer.
readdress-Runs :
    (resolve : Resolver) (bind : Sockaddr → ℤ) (addr : Sockaddr) (l : Lookup)
    → resolve (sa_family addr) ≡ l
    → HonoursFamily resolve
    → is_wildcard addr ≡ true
    → Runs
        (λ (b : Bound).
          (b.rc ≡ bind (public_address l addr)) × (b.binds ≡ public_address l addr ∷ []))
        (readdress resolve bind addr)
unfolding readdress
readdress-Runs resolve bind addr failed e honest w =
    let tried : (is_zero (bind addr) && false) ≡ false = ground arith in
    rw (e, tried) (Runs-some _ (refl, refl))
readdress-Runs resolve bind (inet a) (found (inet b)) e honest w = rw e (Runs-some _ (refl, refl))
readdress-Runs resolve bind (inet6 p a) (found (inet6 q b)) e honest w =
    rw e (Runs-some _ (refl, refl))
readdress-Runs resolve bind (other_family f) (found b) e honest w = absurd (cc)
readdress-Runs resolve bind (inet a) (found b) e honest w = absurd (cc (honest.honours af_inet b e))
readdress-Runs resolve bind (inet6 p a) (found b) e honest w =
    absurd (cc (honest.honours af_inet6 b e))

is_addr_any-is_wildcard : (addr : Sockaddr) → is_positive (is_addr_any addr) ≡ is_wildcard addr
unfolding is_addr_any
is_addr_any-is_wildcard (inet a) = ground arith
is_addr_any-is_wildcard (inet6 port addr) = ground arith
is_addr_any-is_wildcard (other_family f) = refl

-- The call binds exactly one address, once: a wildcard with the node's public address in its place
-- and the port kept, or unchanged where the lookup fails; any other address as it is. The result is
-- that of `bind`.
pub bind_public-target :
    (resolve : Resolver) (bind : Sockaddr → ℤ) (addr : Sockaddr)
    → HonoursFamily resolve
    → Runs
        (λ (b : Bound). (b.rc ≡ bind (target resolve addr)) × (b.binds ≡ target resolve addr ∷ []))
        (bind_public resolve bind addr)
unfolding bind_public target
bind_public-target resolve bind addr honest = elim (Bool-cases (is_wildcard addr)) [
  | inl w ↦
      rw (is_addr_any-is_wildcard addr, w)
        (readdress-Runs resolve bind addr (resolve (sa_family addr)) refl honest w)
  | inr plain ↦ rw (is_addr_any-is_wildcard addr, plain) (Runs-some _ (refl, refl))
]

-- `print_ip4` prints what `inet_ntoa` prints.
pub print_ip4-inet_ntoa : (i : ℕ) → print_ip4 i ≡ inet_ntoa i
unfolding print_ip4 inet_ntoa
print_ip4-inet_ntoa i = refl
