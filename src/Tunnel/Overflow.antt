-- ===== src/Tunnel/Overflow.antt =====
-- measurement_proxy/tunnel.c: the array `arch` and what the loop writes into it.
use matador.Base.{
  ◌+◌, ◌≡◌, refl, arith, false, none, some, List, [], ◌∷◌, length, take, drop, leb, ◌==◌, ◌⊎◌, inl,
  inr, Option-cases, Ensures, Ensures-some, Ensures-bind, Ensures-if, Ensures-none,
}
use matador.Memory.{Bytes, recv_into}
use matador.CText.{text, strstr}
use matador.Tunnel.Arch.{buflen, c_string, strcat, set_arch, arch_loop}

-- Whatever the remote shell answers, and whatever was in the array, the first `strcat` writes past
-- the end of `proxy_filename_arch`.
pub set_arch-none : (old arch : Bytes) → set_arch old arch ≡ none
unfolding set_arch strcat
set_arch-none old arch = let over : leb (length old + 29 + 1) 16 ≡ false = ground arith in rw over

-- What is read up to the end of the loop, and what an earlier read left behind it, has no "ARCH=".
abbrev pub Unanswered : Bytes → List Bytes → Type 0
Unanswered buffer [] = Unit {0}
Unanswered buffer (chunk ∷ chunks) =
    (length (take buflen chunk) ≡ 0)
    ⊎ ((s : Bytes) × (c_string (recv_into buffer buflen chunk) ≡ some s)
        × (strstr s (text "ARCH=") ≡ none)
        × Unanswered (recv_into buffer buflen chunk) chunks)

-- If the loop ends without writing past the array, none of the reads up to its end has found an
-- answer, and the name is as it was before.
pub arch_loop-unset :
    (old buffer : Bytes) (chunks : List Bytes)
    → Ensures (λ name. (name ≡ old) × Unanswered buffer chunks) (arch_loop old buffer chunks)
unfolding arch_loop
arch_loop-unset old buffer [] = Ensures-some old (refl, tt)
arch_loop-unset old buffer (chunk ∷ chunks) =
    let buffer' = recv_into buffer buflen chunk in
    let later = arch_loop-unset old buffer' chunks in
    Ensures-if (length (take buflen chunk) == 0) _ _
      (λ ended. Ensures-some old (refl, inl (ground (arith, ended))))
      λ _. Ensures-bind (c_string buffer') _ λ s read.
        elim (Option-cases (strstr s (text "ARCH="))) [
          | inl unheard ↦ rw unheard (record {
            at = λ name e. ((later.at name e).0, inr (s, read, unheard, (later.at name e).1));
          })
          | inr (answer, heard) ↦ rw (heard, set_arch-none old (drop 5 answer)) Ensures-none
        ]
