-- ===== src/Fs/Bits.antt =====
-- The bits of the bitmap's bytes.

use native.Mathlib.Nat.{div-div-eq-div-mul}
use cs461_final_project_grub.Base.{
  ℕ, zero, suc, ◌+◌, ◌*◌, ◌/◌, ◌%◌, ◌^◌, ◌≡◌, inl, inr, refl, ap, sym, ◌∙◌, true, false, ◌==◌,
  if◌then◌else◌, arith, Bool-cases,
}
use cs461_final_project_grub.Fs.Disk.{Bytes, bit, set_bit}

-- The bits of a byte.
abbrev bit_of : ℕ → ℕ → ℕ
bit_of b j = b / 2 ^ j % 2

double : (j : ℕ) → 2 ^ suc j ≡ 2 * 2 ^ j
double j = omega arith

bit_of-suc : (b j : ℕ) → bit_of b (suc j) ≡ bit_of (b / 2) j
bit_of-suc b j = ap (λ x. x % 2) (ap (λ x. b / x) (double j) ∙ sym (div-div-eq-div-mul b 2 (2 ^ j)))

bit_of_zero : (b : ℕ) → bit_of b 0 ≡ b % 2
bit_of_zero b = ap (λ x. x % 2) whole
  where
    whole : b / 1 ≡ b
    whole = omega arith

-- A clear bit is set by adding its mask, and no other bit changes.
bit_of_add :
    (i j b : ℕ) → bit_of b i ≡ 0 → bit_of (b + 2 ^ i) j ≡ (if j == i then 1 else bit_of b j)
bit_of_add zero zero b e = omega (arith, e)
bit_of_add zero (suc j) b e =
    let half : (b + 1) / 2 ≡ b / 2 = omega (arith, e) in
    let same : bit_of (b + 1) (suc j) ≡ bit_of b (suc j) =
      bit_of-suc (b + 1) j ∙ ap (λ x. bit_of x j) half ∙ sym (bit_of-suc b j) in
    ground (arith, same)
bit_of_add (suc i) zero b e =
    let even : (b + 2 ^ suc i) % 2 ≡ b % 2 = omega (arith, double i) in
    let same : bit_of (b + 2 ^ suc i) 0 ≡ bit_of b 0 =
      bit_of_zero (b + 2 ^ suc i) ∙ even ∙ sym (bit_of_zero b) in
    ground (arith, same)
bit_of_add (suc i) (suc j) b e =
    let half : (b + 2 ^ suc i) / 2 ≡ b / 2 + 2 ^ i = omega (arith, double i) in
    let rest : bit_of (b / 2 + 2 ^ i) j ≡ (if j == i then 1 else bit_of (b / 2) j) =
      bit_of_add i j (b / 2) (sym (bit_of-suc b i) ∙ e) in
    bit_of-suc (b + 2 ^ suc i) j ∙ ap (λ x. bit_of x j) half ∙ ground (arith, rest, bit_of-suc b j)

-- The two parts of a bit's index.
pub bit-set_bit :
    (s : Bytes) (i j : ℕ) → bit s i ≡ 0 → bit (set_bit s i) j ≡ (if j == i then 1 else bit s j)
unfolding bit set_bit
bit-set_bit s i j e = elim (Bool-cases (j / 8 == i / 8)) [
  | inr other ↦ let ne : (j == i) ≡ false = ground (arith, other) in rw (other, ne) refl
  | inl same ↦
      let add : bit_of (s (i / 8) + 2 ^ (i % 8)) (j % 8)
          ≡ (if j % 8 == i % 8 then 1 else bit_of (s (i / 8)) (j % 8)) =
        bit_of_add (i % 8) (j % 8) (s (i / 8)) e in
      let byte : j / 8 ≡ i / 8 = ground (arith, same) in
      elim (Bool-cases (j % 8 == i % 8)) [
        | inl here ↦
            let eq : (j == i) ≡ true = ground (arith, here, same) in
            rw (same, eq) (ground (arith, add, here))
        | inr there ↦
            let ne : (j == i) ≡ false = ground (arith, there) in
            rw (same, ne) (ground (arith, add, there, byte))
      ]
]
