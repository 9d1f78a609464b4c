-- ===== src/Strings/Copy.antt =====
-- What `memset`, `memmove`, `strncpy` and `safestrcpy` leave in every byte of memory.

use cs461_final_project_grub.Base.{
  ℕ, zero, suc, ◌+◌, ◌-◌, ◌*◌, ◌/◌, ◌%◌, ◌^◌, ◌≡◌, ◌≤◌, ◌<◌, ◌⊎◌, inl, inr, refl, ap, Bool, true,
  false, ◌&&◌, ◌||◌, ltb, leb, ◌==◌, if◌then◌else◌, update, arith, Bool-cases,
}
use cs461_final_project_grub.Strings.{
  Memory, stosb, store_word, stosl, memset, copy_down, copy_up, memmove, pad, strncpy,
}

-- `a` is one of the `n` bytes from `d` on.
abbrev pub in_block : ℕ → ℕ → ℕ → Bool
in_block d n a = leb d a && ltb a (d + n)

stosb_lem :
    (m : Memory) (dst c n a : ℕ) → stosb m dst c n a ≡ (if in_block dst n a then c % 256 else m a)
unfolding stosb
stosb_lem m dst c zero a = ground arith
stosb_lem m dst c (suc n) a = ground (arith, stosb_lem (update m dst (c % 256)) (dst + 1) c n a)

store_word_lem :
    (m : Memory) (dst b a : ℕ)
    → b < 256
    → store_word m dst (b * 2 ^ 24 + b * 2 ^ 16 + b * 2 ^ 8 + b) a
      ≡ (if in_block dst 4 a then b else m a)
unfolding store_word
store_word_lem m dst b a h = ground arith

stosl_lem :
    (m : Memory) (dst b n a : ℕ)
    → b < 256
    → stosl m dst (b * 2 ^ 24 + b * 2 ^ 16 + b * 2 ^ 8 + b) n a
      ≡ (if in_block dst (4 * n) a then b else m a)
unfolding stosl
stosl_lem m dst b zero a h = ground arith
stosl_lem m dst b (suc n) a h = ground (
  arith,
  stosl_lem (store_word m dst (b * 2 ^ 24 + b * 2 ^ 16 + b * 2 ^ 8 + b)) (dst + 4) b n a h,
  store_word_lem m dst b a h,
)

-- `memset` sets each byte of the block to the low byte of `c`, by words or by bytes, and no other.
pub memset_lem :
    (m : Memory) (dst c n a : ℕ) → memset m dst c n a ≡ (if in_block dst n a then c % 256 else m a)
unfolding memset
memset_lem m dst c n a = ground (arith, stosb_lem m dst c n a, stosl_lem m dst (c % 256) (n / 4) a)

copy_up_lem :
    (m : Memory) (d s n a : ℕ)
    → (d ≤ s) ⊎ (s + n ≤ d)
    → copy_up m d s n a ≡ (if in_block d n a then m (s + (a - d)) else m a)
unfolding copy_up
copy_up_lem m d s zero a h = ground arith
copy_up_lem m d s (suc n) a h = elim (Bool-cases (ltb d a)) [
  | inl after ↦
      let same : s + 1 + (a - (d + 1)) ≡ s + (a - d) = ground arith in
      ground (arith, copy_up_lem (update m d (m s)) (d + 1) (s + 1) n a (omega arith), ap m same)
  | inr before ↦
      let same : leb d a ≡ true → s ≡ s + (a - d) = λ le. ground arith in
      ground (
        arith,
        copy_up_lem (update m d (m s)) (d + 1) (s + 1) n a (omega arith),
        λ (le : leb d a ≡ true). ap m (same le),
      )
]

copy_down_lem :
    (m : Memory) (d s n a : ℕ)
    → s < d
    → n ≤ s
    → copy_down m d s n a ≡ (if in_block (d - n) n a then m (s + a - d) else m a)
unfolding copy_down
copy_down_lem m d s zero a lt le = ground arith
copy_down_lem m d s (suc n) a lt le = elim (Bool-cases (a == d - 1)) [
  | inl last ↦
      let same : s - 1 ≡ s + a - d = ground arith in
      ground (
        arith,
        copy_down_lem (update m (d - 1) (m (s - 1))) (d - 1) (s - 1) n a (omega arith)
            (omega arith),
        ap m same,
      )
  | inr other ↦
      let same : leb (d - suc n) a ≡ true → s - 1 + a - (d - 1) ≡ s + a - d = λ le'. ground arith in
      ground (
        arith,
        copy_down_lem (update m (d - 1) (m (s - 1))) (d - 1) (s - 1) n a (omega arith)
            (omega arith),
        λ (le' : leb (d - suc n) a ≡ true). ap m (same le'),
      )
]

-- `memmove` copies the block as it was before the call, also where source and destination overlap,
-- and changes no byte outside the destination.
pub memmove_lem :
    (m : Memory) (d s n a : ℕ)
    → memmove m d s n a ≡ (if in_block d n a then m (s + (a - d)) else m a)
unfolding memmove
memmove_lem m d s n a = elim (Bool-cases (ltb s d && ltb d (s + n))) [
  | inl down ↦
      let same : leb d a ≡ true → s + n + a - (d + n) ≡ s + (a - d) = λ le. ground arith in
      ground (
        arith,
        copy_down_lem m (d + n) (s + n) n a (ground arith) (omega arith),
        λ (le : leb d a ≡ true). ap m (same le),
      )
  | inr up ↦ ground (arith, copy_up_lem m d s n a (ground arith))
]

pad_lem : (m : Memory) (s n a : ℕ) → pad m s n a ≡ (if in_block s n a then 0 else m a)
unfolding pad
pad_lem m s zero a = ground arith
pad_lem m s (suc n) a = ground (arith, pad_lem (update m s 0) (s + 1) n a)

-- The string at `t` ends before its `k`-th byte.
abbrev pub ended : Memory → ℕ → ℕ → Bool
ended m t zero = false
ended m t (suc k) = m t == 0 || ended m (t + 1) k

-- Neither of two blocks of `n` bytes reaches into the other.
abbrev pub Apart : ℕ → ℕ → ℕ → Type 0
Apart s t n = (t + n ≤ s) ⊎ (s + n ≤ t)

strncpy_from :
    (m0 m : Memory) (s t n a : ℕ)
    → Apart s t n
    → ((x : ℕ) → t ≤ x → x < t + n → m x ≡ m0 x)
    → strncpy m s t n a
      ≡ (if in_block s n a then if ended m0 t (a - s) then 0 else m0 (t + (a - s)) else m a)
unfolding strncpy
strncpy_from m0 m s t zero a apart same = ground arith
strncpy_from m0 m s t (suc n) a apart same = elim (Bool-cases (ltb s a)) [
  | inl after ↦
      let step : a - s ≡ suc (a - (s + 1)) = ground arith in
      let shift : t + suc (a - (s + 1)) ≡ t + 1 + (a - (s + 1)) = omega arith in
      rw (step, shift)
        (ground (
          arith,
          strncpy_from m0 (update m s (m t)) (s + 1) (t + 1) n a (omega arith)
              (λ x lo hi. ground (arith, same x)),
          pad_lem (update m s (m t)) (s + 1) n a,
          same t,
        ))
  | inr before ↦
      let none_yet : leb s a ≡ true → a - s ≡ 0 = λ le. ground arith in
      let start : t + 0 ≡ t = omega arith in
      elim (Bool-cases (leb s a)) [
        | inl at ↦
            rw (none_yet at, start)
              (ground (
                arith,
                strncpy_from m0 (update m s (m t)) (s + 1) (t + 1) n a (omega arith)
                    (λ x lo hi. ground (arith, same x)),
                pad_lem (update m s (m t)) (s + 1) n a,
                same t,
              ))
        | inr below ↦ ground (
          arith,
          strncpy_from m0 (update m s (m t)) (s + 1) (t + 1) n a (omega arith)
              (λ x lo hi. ground (arith, same x)),
          pad_lem (update m s (m t)) (s + 1) n a,
        )
      ]
]

-- `strncpy` between blocks that do not overlap copies the string up to its NUL, fills the rest of
-- the `n` bytes with NULs, and changes no other byte.
pub strncpy_lem :
    (m : Memory) (s t n a : ℕ)
    → Apart s t n
    → strncpy m s t n a
      ≡ (if in_block s n a then if ended m t (a - s) then 0 else m (t + (a - s)) else m a)
strncpy_lem m s t n a apart = strncpy_from m m s t n a apart (λ x lo hi. refl)
