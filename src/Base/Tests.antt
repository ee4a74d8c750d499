-- ===== src/Base/Tests.antt =====
-- Boolean tests on the native numbers, the conditional, and case splits that keep an equation.
use Prim.Native.Nat.{ℕ, ◌<◌, compare, Ordering}
use mathlib.Core.Path.{◌≡◌, refl, sym, subst, ◌∙◌}
use mathlib.Core.Logic.{◌↔◌, ◌⊎◌, inl, inr}
use mathlib.Core.Bool.{Bool, true, false, ◌&&◌}
use mathlib.Core.Option.{Option, none, some, some-injective}
use native.Mathlib.Omega.{arith}

abbrev pub ltb : ℕ → ℕ → Bool
ltb a b = elim (compare a b) [ Ordering.lt ↦ true | _ ↦ false ]

abbrev pub leb : ℕ → ℕ → Bool
leb a b = elim (compare a b) [ Ordering.gt ↦ false | _ ↦ true ]

infix 50 ◌==◌
abbrev pub ◌==◌ : ℕ → ℕ → Bool
a == b = elim (compare a b) [ Ordering.eq ↦ true | _ ↦ false ]

infix 1 if◌then◌else◌
abbrev pub if◌then◌else◌ {ℓ} : {A : Type ℓ} → Bool → A → A → A
if true then x else y = x
if false then x else y = y

pub ==_iff : (a b : ℕ) → ((a == b) ≡ true) ↔ (a ≡ b)
==_iff a b = ground arith

pub ==_self : (a : ℕ) → (a == a) ≡ true
==_self a = ground arith

pub Bool-cases : (b : Bool) → (b ≡ true) ⊎ (b ≡ false)
Bool-cases true = inl refl
Bool-cases false = inr refl

pub Option-cases {ℓ} : {A : Type ℓ} (o : Option A) → (o ≡ none) ⊎ ((a : A) × (o ≡ some a))
Option-cases none = inl refl
Option-cases (some a) = inr (a, refl)

-- Sequencing of steps that may fault: `none` is undefined behaviour of the C program.
infixl 5 ◌>>=◌ ◌>>◌
abbrev pub ◌>>=◌ {ℓ κ} : {A : Type ℓ} {B : Type κ} → Option A → (A → Option B) → Option B
none >>= f = none
some a >>= f = f a

abbrev pub ◌>>◌ {ℓ κ} : {A : Type ℓ} {B : Type κ} → Option A → Option B → Option B
m >> k = m >>= λ _. k

-- `m` does not fault, and its result has `P`.
pub record Runs {ℓ κ} {A : Type ℓ} (P : A → Type κ) (m : Option A) : Type (ℓ ⊔ κ) where
  pub value : A
  pub runs : m ≡ some value
  pub holds : P value

pub Runs-some {ℓ κ} : {A : Type ℓ} {P : A → Type κ} (a : A) → P a → Runs P (some a)
Runs-some a p = record { value = a; runs = refl; holds = p }

-- What holds of the result holds of each value that it is equal to.
pub Runs-at {ℓ κ} :
    {A : Type ℓ} {P : A → Type κ} {m : Option A} {a : A} → Runs P m → m ≡ some a → P a
Runs-at {P = P} {a = a} r e = subst P (some-injective r.value a (sym r.runs ∙ e)) r.holds

pub Runs-bind {ℓ κ ι ο} :
    {A : Type ℓ} {B : Type κ} {P : A → Type ι} {Q : B → Type ο} {m : Option A} (f : A → Option B)
    → Runs P m
    → ((a : A) → m ≡ some a → P a → Runs Q (f a))
    → Runs Q (m >>= f)
Runs-bind {Q = Q} {m = m} f r next =
    subst (λ o. Runs Q (o >>= f)) (sym r.runs) (next r.value r.runs r.holds)

pub Runs-if {ℓ κ} :
    {A : Type ℓ} {P : A → Type κ} (b : Bool) (m n : Option A)
    → (b ≡ true → Runs P m)
    → (b ≡ false → Runs P n)
    → Runs P (if b then m else n)
Runs-if true m n hm hn = hm refl
Runs-if false m n hm hn = hn refl

-- If `m` does not fault, its result has `P`.
pub record Ensures {ℓ κ} {A : Type ℓ} (P : A → Type κ) (m : Option A) : Type (ℓ ⊔ κ) where
  pub at : (a : A) → m ≡ some a → P a

pub Ensures-none {ℓ κ} : {A : Type ℓ} {P : A → Type κ} → Ensures P none
Ensures-none = record { at = λ a e. absurd (ground arith) }

pub Ensures-some {ℓ κ} : {A : Type ℓ} {P : A → Type κ} (a : A) → P a → Ensures P (some a)
Ensures-some {P = P} a p = record { at = λ b e. subst P (some-injective a b e) p }

pub Ensures-bind {ℓ κ ι} :
    {A : Type ℓ} {B : Type κ} {Q : B → Type ι} (m : Option A) (f : A → Option B)
    → ((a : A) → m ≡ some a → Ensures Q (f a))
    → Ensures Q (m >>= f)
Ensures-bind none f next = Ensures-none
Ensures-bind (some a) f next = next a refl

pub Ensures-if {ℓ κ} :
    {A : Type ℓ} {P : A → Type κ} (b : Bool) (m n : Option A)
    → (b ≡ true → Ensures P m)
    → (b ≡ false → Ensures P n)
    → Ensures P (if b then m else n)
Ensures-if true m n hm hn = hm refl
Ensures-if false m n hm hn = hn refl

pub &&-left : (a b : Bool) → (a && b) ≡ true → a ≡ true
&&-left a b h = ground arith

pub ==-of_lt : (a b : ℕ) → b < a → (a == b) ≡ false
==-of_lt a b h = ground arith

pub Runs-map {ℓ κ ι} :
    {A : Type ℓ} {P : A → Type κ} {Q : A → Type ι} {m : Option A}
    → ((a : A) → P a → Q a)
    → Runs P m
    → Runs Q m
Runs-map f r = record { value = r.value; runs = r.runs; holds = f r.value r.holds }
