-- ===== src/CText/Search.antt =====
-- Searching in texts: where `strchr`, `strcspn` and `strstr` stop.
use matador.Base.{
  ℕ, ◌≡◌, refl, arith, true, false, none, some, [], ◌∷◌, ◌++◌, length, ◌==◌, ==_self,
}
use matador.Memory.{Bytes}
use matador.CText.{strchr, member, strcspn, is_prefix, strstr}

-- No byte of the text is `c`; no byte of the text is one of `reject`.
abbrev pub Lacks : ℕ → Bytes → Type 0
Lacks c [] = Unit
Lacks c (x ∷ s) = ((x == c) ≡ false) × Lacks c s

abbrev pub LacksAll : Bytes → Bytes → Type 0
LacksAll reject [] = Unit
LacksAll reject (x ∷ s) = (member x reject ≡ false) × LacksAll reject s

pub Lacks-append : (c : ℕ) (a b : Bytes) → Lacks c a → Lacks c b → Lacks c (a ++ b)
Lacks-append c [] b h k = k
Lacks-append c (x ∷ a) b h k = (h.0, Lacks-append c a b h.1 k)

pub LacksAll-append :
    (reject a b : Bytes) → LacksAll reject a → LacksAll reject b → LacksAll reject (a ++ b)
LacksAll-append reject [] b h k = k
LacksAll-append reject (x ∷ a) b h k = (h.0, LacksAll-append reject a b h.1 k)

-- `strchr` splits at the first place.
pub strchr-append : (a b : Bytes) (c : ℕ) → Lacks c a → strchr (a ++ (c ∷ b)) c ≡ some (a, b)
unfolding strchr
strchr-append [] b c h = rw (==_self c)
strchr-append (x ∷ a) b c h = rw (h.0, strchr-append a b c h.1)

pub strchr-none : (a : Bytes) (c : ℕ) → Lacks c a → strchr a c ≡ none
unfolding strchr
strchr-none [] c h = refl
strchr-none (x ∷ a) c h = rw (h.0, strchr-none a c h.1)

-- `strcspn` counts up to the first rejected byte.
pub strcspn-append :
    (a b reject : Bytes) (c : ℕ)
    → LacksAll reject a
    → member c reject ≡ true
    → strcspn (a ++ (c ∷ b)) reject ≡ length a
unfolding strcspn
strcspn-append [] b reject c h k = rw k
strcspn-append (x ∷ a) b reject c h k = rw (h.0, strcspn-append a b reject c h.1 k)

pub is_prefix-append : (p s : Bytes) → is_prefix p (p ++ s) ≡ true
unfolding is_prefix
is_prefix-append [] s = refl
is_prefix-append (x ∷ p) s = rw (==_self x, is_prefix-append p s)

-- A text that begins with the needle is found at once.
pub strstr-prefix : (s needle : Bytes) → is_prefix needle s ≡ true → strstr s needle ≡ some s
unfolding strstr
strstr-prefix [] needle h = rw h
strstr-prefix (c ∷ s) needle h = rw h

-- Bytes that are not the needle's first are passed over.
pub strstr-skip :
    (a s needle : Bytes) (n : ℕ) → Lacks n a → strstr (a ++ s) (n ∷ needle) ≡ strstr s (n ∷ needle)
unfolding strstr is_prefix
strstr-skip [] s needle n h = refl
strstr-skip (x ∷ a) s needle n h =
    let other : (n == x) ≡ false = ground (arith, h.0) in rw other (strstr-skip a s needle n h.1)
