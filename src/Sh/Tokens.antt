-- ===== src/Sh/Tokens.antt =====
-- sh.c: a token leaves less of the line.

use cs461_final_project_grub.Base.{
  ℕ, suc, ◌≡◌, ◌≤◌, ◌<◌, ◌⊎◌, inl, inr, refl, ap, sym, ◌∙◌, true, false, ◌||◌, ◌==◌, List, [], ◌∷◌,
  length, Bool-cases, arith,
}
use cs461_final_project_grub.Sh.{
  strchr, whitespace, symbols, skip, word, greater, token, gettoken, starts, peek,
}

pub skip_le : (s : List ℕ) → length (skip s) ≤ length s
unfolding skip
skip_le [] = omega arith
skip_le (c ∷ s) = let ih = skip_le s in ground (arith, ih)

-- What `skip` stops at.
pub skip-cases :
    (s : List ℕ)
    → (skip s ≡ []) ⊎ ((c : ℕ) × (t : List ℕ) × (skip s ≡ c ∷ t) × (strchr c whitespace ≡ false))
unfolding skip
skip-cases [] = inl refl
skip-cases (c ∷ s) = elim (Bool-cases (strchr c whitespace)) [
  | inl space ↦ rw space (skip-cases s)
  | inr other ↦ inr (c, s, rw other refl, other)
]

word_le : (s : List ℕ) → length (word s).1 ≤ length s
unfolding word
word_le [] = omega arith
word_le (c ∷ s) = let ih = word_le s in ground (arith, ih)

word_lt :
    (c : ℕ) (s : List ℕ)
    → strchr c whitespace || strchr c symbols ≡ false
    → length (word (c ∷ s)).1 ≤ length s
unfolding word
word_lt c s h = let ih = word_le s in rw h ih

greater_le : (s : List ℕ) → length (greater s).rest ≤ length s
unfolding greater
greater_le [] = omega arith
greater_le (c ∷ s) = let more = skip_le s in let all = skip_le (c ∷ s) in ground (arith, more, all)

-- A character that ends no word.
special_false :
    (c : ℕ)
    → strchr c whitespace ≡ false
    → strchr c (b'|' ∷ b'(' ∷ b')' ∷ b';' ∷ b'&' ∷ b'<' ∷ []) ≡ false
    → c == b'>' ≡ false
    → strchr c whitespace || strchr c symbols ≡ false
special_false c space symbol other = ground (arith, space, symbol, other)

token_lt :
    (c : ℕ) (s : List ℕ)
    → strchr c whitespace ≡ false
    → c == 0 ≡ false
    → length (token (c ∷ s)).rest ≤ length s
unfolding token
token_lt c s other set =
    elim (Bool-cases (strchr c (b'|' ∷ b'(' ∷ b')' ∷ b';' ∷ b'&' ∷ b'<' ∷ []))) [
      | inl symbol ↦ let le = skip_le s in rw (set, symbol) le
      | inr more ↦ elim (Bool-cases (c == b'>')) [
        | inl angle ↦ let le = greater_le s in rw (set, more, angle) le
        | inr char ↦
            let le = word_lt c s (special_false c other more char) in
            let le' = skip_le (word (c ∷ s)).1 in rw (set, more, char) (omega (arith, le, le'))
      ]
    ]

token_none : (l : List ℕ) → l ≡ [] → length (token l).rest ≤ 0
unfolding token
token_none [] e = omega arith
token_none (c ∷ l) e = absurd (let size : suc (length l) ≡ 0 = ap length e in omega (arith, size))

token_nul : (c : ℕ) (s : List ℕ) → c == 0 ≡ true → length (token (c ∷ s)).rest ≤ suc (length s)
unfolding token
token_nul c s h = rw h (skip_le (c ∷ s))

token_empty : (token []).value == 0 ≡ true
unfolding token
token_empty = refl

token_end : (c : ℕ) (s : List ℕ) → c == 0 ≡ true → (token (c ∷ s)).value == 0 ≡ true
unfolding token
token_end c s h = rw h refl

-- The token at a character other than white space and 0.
gettoken_at :
    (s : List ℕ) (c : ℕ) (t : List ℕ)
    → skip s ≡ c ∷ t
    → strchr c whitespace ≡ false
    → c == 0 ≡ false
    → length (gettoken s).rest < length s
unfolding gettoken
gettoken_at s c t eq other set =
    let le = token_lt c t other set in
    let shorter = skip_le s in
    let size : length (skip s) ≡ suc (length t) = ap length eq in
    rw eq (omega (arith, le, shorter, size))

-- A token other than the end of the line leaves less of it.
pub gettoken_lt :
    (s : List ℕ) → (gettoken s).value == 0 ≡ false → length (gettoken s).rest < length s
unfolding gettoken
gettoken_lt s set = elim (skip-cases s) [
  | inl done ↦ absurd (ground (arith, token_none (skip s) done, set))
  | inr (c, t, eq, other) ↦ elim (Bool-cases (c == 0)) [
    | inl nul ↦ absurd (ground (arith, ap (λ l. (token l).value == 0) eq, token_end c t nul, set))
    | inr char ↦ gettoken_at s c t eq other char
  ]
]
  where
    token_none : (l : List ℕ) → l ≡ [] → (token l).value == 0 ≡ true
    token_none l e = ap (λ l. (token l).value == 0) e ∙ token_empty

pub gettoken_le : (s : List ℕ) → length (gettoken s).rest ≤ length s
unfolding gettoken
gettoken_le s = elim (skip-cases s) [
  | inl done ↦ let le = token_none (skip s) done in omega (arith, le)
  | inr (c, t, eq, other) ↦ elim (Bool-cases (c == 0)) [
    | inl nul ↦
        let size : suc (length t) ≡ length (skip s) = ap length (sym eq) in
        let le = skip_le s in let le' = token_nul c t nul in rw eq (omega (arith, size, le, le'))
    | inr char ↦ let lt = gettoken_at s c t eq other char in omega (arith, lt)
  ]
]

starts_set : (c : ℕ) (t toks : List ℕ) → starts (c ∷ t) toks ≡ true → c == 0 ≡ false
starts_set c t toks h = elim (Bool-cases (c == 0)) [
  | inl nul ↦ absurd (ground (arith, h, nul))
  | inr char ↦ char
]

-- So does a character that `peek` finds.
pub peek_lt : (s toks : List ℕ) → peek s toks ≡ true → length (gettoken s).rest < length s
unfolding peek
peek_lt s toks h = elim (skip-cases s) [
  | inl done ↦ absurd (ground (arith, ap (λ l. starts l toks) done, h))
  | inr (c, t, eq, other) ↦
      gettoken_at s c t eq other (starts_set c t toks (sym (ap (λ l. starts l toks) eq) ∙ h))
]
