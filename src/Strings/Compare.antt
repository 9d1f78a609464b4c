-- ===== src/Strings/Compare.antt =====
-- What the comparisons of string.c decide, and what `strlen` counts.
use cs461_final_project_grub.Base.{
  ℕ, zero, suc, ◌+◌, ◌≡◌, ◌≢◌, ◌<◌, ◌↔◌, refl, ap, ◌∙◌, ◌==◌, if◌then◌else◌, arith, List, [], ◌∷◌,
  some, pos,
}
use cs461_final_project_grub.Strings.{Memory, memcmp, strncmp, strlen_from, strlen}

-- The `n` bytes at `p`.
abbrev pub block : Memory → ℕ → ℕ → List ℕ
block m p zero = []
block m p (suc n) = m p ∷ block m (p + 1) n

-- The string at `p`, cut off after `n` bytes.
abbrev pub prefix : Memory → ℕ → ℕ → List ℕ
prefix m p zero = []
prefix m p (suc n) = if m p == 0 then [] else m p ∷ prefix m (p + 1) n

-- `memcmp` is 0 exactly if the blocks hold the same bytes.
pub memcmp_lem : (m : Memory) (p q n : ℕ) → (memcmp m p q n ≡ pos 0) ↔ (block m p n ≡ block m q n)
unfolding memcmp
memcmp_lem m p q zero = (λ h. refl, λ h. refl)
memcmp_lem m p q (suc n) =
    let (to, from) = memcmp_lem m (p + 1) (q + 1) n in
    (λ h. ground (arith, to), λ h. ground (arith, from))

-- `strncmp` is 0 exactly if the strings, cut off after `n` bytes, are the same.
pub strncmp_lem :
    (m : Memory) (p q n : ℕ) → (strncmp m p q n ≡ pos 0) ↔ (prefix m p n ≡ prefix m q n)
unfolding strncmp
strncmp_lem m p q zero = (λ h. refl, λ h. refl)
strncmp_lem m p q (suc n) =
    let (to, from) = strncmp_lem m (p + 1) (q + 1) n in
    (λ h. ground (arith, to), λ h. ground (arith, from))

strlen_from_lem :
    (fuel : ℕ) (m : Memory) (s n k : ℕ)
    → k < fuel
    → ((i : ℕ) → i < k → m (s + (n + i)) ≢ 0)
    → m (s + (n + k)) ≡ 0
    → strlen_from fuel m s n ≡ some (n + k)
unfolding strlen_from
strlen_from_lem zero m s n k h before at = absurd (omega arith)
strlen_from_lem (suc fuel) m s n zero h before at =
    let e : n + 0 ≡ n = omega arith in let stop : m (s + n) ≡ 0 = rw e at at in rw e (rw stop refl)
strlen_from_lem (suc fuel) m s n (suc k) h before at =
    let nonzero : m (s + n) ≢ 0 =
      λ z. before 0 (omega arith) (ap m (let e : s + (n + 0) ≡ s + n = omega arith in e) ∙ z) in
    let shift : (i : ℕ) → n + 1 + i ≡ n + suc i = λ i. omega arith in
    let rest : strlen_from fuel m s (n + 1) ≡ some (n + 1 + k) =
      strlen_from_lem fuel m s (n + 1) k (omega arith)
        (λ i lt. rw (shift i) (before (suc i) (omega arith))) (rw (shift k) at) in
    ground (arith, nonzero, rest, shift k)

-- `strlen` returns the index of the first NUL, given a round for each byte up to it.
pub strlen_lem :
    (fuel : ℕ) (m : Memory) (s k : ℕ)
    → k < fuel
    → ((i : ℕ) → i < k → m (s + i) ≢ 0)
    → m (s + k) ≡ 0
    → strlen fuel m s ≡ some k
unfolding strlen
strlen_lem fuel m s k h before at =
    let e : (i : ℕ) → 0 + i ≡ i = λ i. omega arith in
    strlen_from_lem fuel m s 0 k h (λ i lt. rw (e i) (before i lt)) (rw (e k) at) ∙ rw (e k)
