-- ===== src/BindPublic.antt =====
-- measurement_proxy/bind_public.c: a `bind` that puts the node's public address in the place of
-- 0.0.0.0 or ::. What `getaddrinfo` answers for the node's host name and what `bind` returns are
-- arguments; the addresses handed to `bind` are part of the result. Messages are left out, but for
-- the line of `debug`.
pub mod Rebind
use matador.Base.{
  ℕ, zero, suc, ◌+◌, ◌*◌, ◌/◌, ◌%◌, ◌^◌, Bool, true, false, ◌&&◌, not, Option, none, some, List, [],
  ◌∷◌, ◌++◌, ◌==◌, if◌then◌else◌, ◌>>=◌, replicate,
}
use matador.Base.Int.{ℤ, pos, negsuc, minus_one}
use matador.Memory.{Bytes}
use matador.Socket.{SockaddrIn, inaddr_any}
use matador.CText.{text, dec, streq, hex_digit}

-- `struct sockaddr` by its family: AF_INET, AF_INET6 (port and address), or another family.
pub data Sockaddr : Type 0 where
  inet : SockaddrIn → Sockaddr
  inet6 : ℕ → Bytes → Sockaddr
  other_family : ℕ → Sockaddr

pub data Family : Type 0 where
  af_inet af_inet6 : Family
  af_other : ℕ → Family

abbrev pub sa_family : Sockaddr → Family
sa_family (inet a) = af_inet
sa_family (inet6 port addr) = af_inet6
sa_family (other_family f) = af_other f

abbrev pub in6addr_any : Bytes
in6addr_any = replicate 16 0

-- -EINVAL
abbrev pub minus_einval : ℤ
minus_einval = negsuc 21

-- `getaddrinfo` of the host name, for a family: an error code, or the first address of the list.
pub data Lookup : Type 0 where
  failed : Lookup
  found : Sockaddr → Lookup

abbrev pub Resolver : Type 0
Resolver = Family → Lookup

-- The switch of `get_public_ip`: the address of `addr` is overwritten, its port is kept. Reading
-- the first result as a type that it does not have is a fault.
unfoldable pub copy_address : Sockaddr → Sockaddr → Option (ℤ × Sockaddr)
copy_address (inet a) (inet b) = some (pos 0, inet (record a { s_addr = b.s_addr }))
copy_address (inet a) _ = none
copy_address (inet6 port addr) (inet6 port' addr') = some (pos 0, inet6 port addr')
copy_address (inet6 port addr) _ = none
copy_address (other_family f) _ = some (minus_one, other_family f)

abbrev pub from_lookup : Sockaddr → Lookup → Option (ℤ × Sockaddr)
from_lookup addr failed = some (minus_einval, addr)
from_lookup addr (found first) = copy_address addr first

unfoldable pub get_public_ip : Resolver → Sockaddr → Option (ℤ × Sockaddr)
unfolding copy_address
get_public_ip resolve addr = from_lookup addr (resolve (sa_family addr))

unfoldable pub is_addr_any : Sockaddr → ℤ
is_addr_any (inet a) = if a.s_addr == inaddr_any then pos 1 else pos 0
is_addr_any (inet6 port addr) = if streq addr in6addr_any then pos 1 else pos 0
is_addr_any (other_family f) = minus_one

-- "%i.%i.%i.%i" of the four bytes, by shifts and masks
unfoldable pub print_ip4 : ℕ → Bytes
print_ip4 i =
    dec (i / 2 ^ 24 % 256)
    ++ (b'.'
        ∷ (dec (i / 2 ^ 16 % 256) ++ (b'.' ∷ (dec (i / 2 ^ 8 % 256) ++ (b'.' ∷ dec (i % 256))))))

-- `%x` of a byte
abbrev pub hex_short : ℕ → Bytes
hex_short b = if b / 16 == 0 then hex_digit b ∷ [] else hex_digit (b / 16) ∷ hex_digit (b % 16) ∷ []

unfoldable pub print_ip6 : Bytes → Bytes
print_ip6 [] = []
print_ip6 (b ∷ []) = hex_short b
print_ip6 (b ∷ bytes) = hex_short b ++ (b':' ∷ print_ip6 bytes)

unfoldable pub debug : Sockaddr → Sockaddr → Option Bytes
unfolding print_ip4 print_ip6
debug (inet a) (inet b) = some (
    text "bind_public: "
    ++ (print_ip4 a.s_addr ++ (text " --> " ++ (print_ip4 b.s_addr ++ text "\n"))))
debug (inet6 p a) (inet6 q b) =
    some (text "bind_public: " ++ (print_ip6 a ++ (text " --> " ++ (print_ip6 b ++ text "\n"))))
debug (other_family f) _ = some (text "bind_public: UNKNOWN --> UNKNOWN\n")
debug _ _ = none

abbrev pub is_zero : ℤ → Bool
is_zero (pos zero) = true
is_zero (pos (suc n)) = false
is_zero (negsuc n) = false

abbrev pub is_positive : ℤ → Bool
is_positive (pos zero) = false
is_positive (pos (suc n)) = true
is_positive (negsuc n) = false

abbrev pub is_einval : ℤ → Bool
is_einval (pos n) = false
is_einval (negsuc n) = n == 21

-- The result code, the addresses handed to `bind` in order, and what was printed.
pub record Bound : Type 0 where
  pub rc : ℤ
  pub binds : List Sockaddr
  pub printed : Bytes

-- The state behind `get_public_ip`: `rc`, `tried_normal_bind` and the calls so far.
abbrev pub normal_bind : (Sockaddr → ℤ) → ℤ → Sockaddr → ℤ × Bool × List Sockaddr
normal_bind bind rc new_addr =
    if is_einval rc
    then (bind new_addr, true, new_addr ∷ [])
    else if is_zero rc
    then (rc, false, [])
    else (minus_one, false, [])

unfoldable pub readdress : Resolver → (Sockaddr → ℤ) → Sockaddr → Option Bound
unfolding get_public_ip debug
readdress resolve bind addr = do
  got ← get_public_ip resolve addr
  let tried = normal_bind bind got.0 got.1
  if is_zero tried.0 && not tried.1
      then (do
        line ← debug addr got.1
        some (record { rc = bind got.1; binds = tried.2 ++ got.1 ∷ []; printed = line }))
      else some (record { rc = tried.0; binds = tried.2; printed = [] })

unfoldable pub bind_public : Resolver → (Sockaddr → ℤ) → Sockaddr → Option Bound
bind_public resolve bind addr =
    if is_positive (is_addr_any addr)
    then readdress resolve bind addr
    else some (record { rc = bind addr; binds = addr ∷ []; printed = [] })
