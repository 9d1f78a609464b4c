-- ===== src/Strings/Safe.antt =====
-- `safestrcpy`: a copy that always ends with a NUL.
use mathlib.Core.Path.{subst}
use cs461_final_project_grub.Base.{
  ℕ, zero, suc, ◌+◌, ◌-◌, ◌≡◌, ◌≢◌, ◌≤◌, ◌<◌, ◌⊎◌, inl, inr, refl, ◌∙◌, ap, sym, true, ◌==◌,
  if◌then◌else◌, update, arith,
}
use cs461_final_project_grub.Strings.{Memory, safe_from, safestrcpy}
use cs461_final_project_grub.Strings.Copy.{ended, Apart}

safe_from_lem : (m : Memory) (s t n a : ℕ) → (a < s) ⊎ (s + n < a) → safe_from m s t n a ≡ m a
unfolding safe_from
safe_from_lem m s t zero a out = ground arith
safe_from_lem m s t (suc n) a out =
    ground (arith, safe_from_lem (update m s (m t)) (s + 1) (t + 1) n a (omega arith))

safe_from-ended : (m : Memory) (s t n : ℕ) → ended (safe_from m s t n) s (suc n) ≡ true
unfolding safe_from
safe_from-ended m s t zero = ground arith
safe_from-ended m s t (suc n) = ground (arith, safe_from-ended (update m s (m t)) (s + 1) (t + 1) n)

safe_from_copies :
    (m0 m : Memory) (s t n k i : ℕ)
    → Apart s t (suc n)
    → ((x : ℕ) → t ≤ x → x < t + suc n → m x ≡ m0 x)
    → k ≤ n
    → ((j : ℕ) → j < k → m0 (t + j) ≢ 0)
    → (k ≡ n) ⊎ (m0 (t + k) ≡ 0)
    → i ≤ k
    → safe_from m s t n (s + i) ≡ (if i == k then 0 else m0 (t + i))
unfolding safe_from
safe_from_copies m0 m s t zero k i apart same le before end h = ground arith
safe_from_copies m0 m s t (suc n) zero i apart same le before end h =
    let at : t + 0 ≡ t = omega arith in ground (arith, same t, ap m0 at)
safe_from_copies m0 m s t (suc n) (suc k) zero apart same le before end h =
    let at : t + 0 ≡ t = omega arith in
    let here : s + 0 ≡ s = omega arith in
    let copied : m t ≢ 0 = ground (arith, same t, before 0, ap m0 at) in
    ground (
      arith,
      same t,
      ap m0 at,
      here,
      copied,
      safe_from_lem (update m s (m t)) (s + 1) (t + 1) n s (omega arith),
    )
safe_from_copies m0 m s t (suc n) (suc k) (suc i) apart same le before end h =
    let at : t + 0 ≡ t = omega arith in
    let copied : m t ≢ 0 = ground (arith, same t, before 0, ap m0 at) in
    let shift : (j : ℕ) → t + 1 + j ≡ t + suc j = λ j. omega arith in
    let place : s + 1 + i ≡ s + suc i = omega arith in
    let rest : safe_from (update m s (m t)) (s + 1) (t + 1) n (s + 1 + i)
        ≡ (if i == k then 0 else m0 (t + 1 + i)) =
      safe_from_copies m0 (update m s (m t)) (s + 1) (t + 1) n k i (omega arith)
        (λ x lo hi. ground (arith, same x)) (omega arith)
        (λ j lt. rw (shift j) (before (suc j) (omega arith)))
        (elim end [ inl e ↦ inl (omega (arith, e)) | inr z ↦ inr (ap m0 (shift k) ∙ z) ])
        (omega arith) in
    ground (arith, copied, place, rest, shift i)

-- `safestrcpy` into a block of `n` bytes, `n` not 0, leaves a NUL in it and writes nothing outside.
-- From a block of `n` bytes that does not overlap it copies the string up to its NUL, or its first
-- `n - 1` bytes, and ends the copy with a NUL.
pub safestrcpy_lem :
    (m : Memory) (s t n : ℕ)
    → n ≢ 0
    → (ended (safestrcpy m s t n) s n ≡ true)
      × ((a : ℕ) → (a < s) ⊎ (s + n ≤ a) → safestrcpy m s t n a ≡ m a)
      × ((k i : ℕ)
          → Apart s t n
          → k < n
          → ((j : ℕ) → j < k → m (t + j) ≢ 0)
          → (k + 1 ≡ n) ⊎ (m (t + k) ≡ 0)
          → i ≤ k
          → safestrcpy m s t n (s + i) ≡ (if i == k then 0 else m (t + i)))
unfolding safestrcpy
safestrcpy_lem m s t zero h = absurd (h refl)
safestrcpy_lem m s t (suc n) h =
    let one : suc n - 1 ≡ n = omega arith in
    let whole : safestrcpy m s t (suc n) ≡ safe_from m s t n = rw one (ground arith) in
    (
      subst (λ f. ended f s (suc n) ≡ true) (sym whole) (safe_from-ended m s t n),
      λ a out. subst (λ f. f a ≡ m a) (sym whole) (safe_from_lem m s t n a (omega arith)),
      λ k i apart lt before end le.
          subst (λ f. f (s + i) ≡ (if i == k then 0 else m (t + i))) (sym whole)
            (safe_from_copies m m s t n k i apart (λ x lo hi. refl) (omega arith) before
              (elim end [ inl e ↦ inl (omega (arith, e)) | inr z ↦ inr z ]) le),
    )
