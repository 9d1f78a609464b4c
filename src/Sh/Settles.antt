-- ===== src/Sh/Settles.antt =====
-- sh.c: the loops of the parser come to an end.

use cs461_final_project_grub.Base.{
  ℕ, zero, suc, ◌+◌, ◌≡◌, ◌≤◌, inl, inr, refl, Bool, true, false, ◌==◌, leb, List, [], ◌∷◌, length,
  Bool-cases, arith,
}
use cs461_final_project_grub.Sh.{
  Cmd, Result, ok, panic, out_of_fuel, ◌>>=◌, token, gettoken, peek, Redir, redir_of, parseredirs,
  maxargs, parseargs, parsebacks, follow, back,
}
use cs461_final_project_grub.Sh.Tokens.{skip_le, gettoken_le, gettoken_lt, peek_lt}

-- A parsing function that comes to a result or to `panic`, its result in `P`.
abbrev pub Settles : {A : Type 0} → (A → Type 0) → Result A → Type 0
Settles P (ok a) = P a
Settles P panic = Unit
Settles P out_of_fuel = ⊥

pub Settles->>= :
    {A B : Type 0} (P : A → Type 0) (Q : B → Type 0) (r : Result A) (f : A → Result B)
    → Settles P r
    → ((a : A) → P a → Settles Q (f a))
    → Settles Q (r >>= f)
Settles->>= P Q (ok a) f h k = k a h
Settles->>= P Q panic f h k = tt
Settles->>= P Q out_of_fuel f h k = absurd h

-- What is left of a line of `n` bytes is no longer.
abbrev pub Left : {A : Type 0} → ℕ → A × List ℕ → Type 0
Left n r = length r.1 ≤ n

pub Left_mono :
    {A : Type 0} (m n : ℕ) (r : Result (A × List ℕ))
    → m ≤ n
    → Settles (Left m) r
    → Settles (Left n) r
Left_mono m n (ok r) le h = omega (arith, h)
Left_mono m n panic le h = tt
Left_mono m n out_of_fuel le h = h

-- Where there is a token to begin with, there is less left behind it.
pub no_more : (s toks : List ℕ) → length s ≤ 0 → peek s toks ≡ false
no_more s toks le = elim (Bool-cases (peek s toks)) [
  | inl more ↦ absurd (let lt = peek_lt s toks more in omega (arith, lt))
  | inr done ↦ done
]

pub parseredirs_lem :
    (k : ℕ) (rs : List Redir) (s : List ℕ)
    → length s ≤ k
    → Settles (Left (length s)) (parseredirs k rs s)
unfolding parseredirs
parseredirs_lem zero rs s le = rw (no_more s (b'<' ∷ b'>' ∷ []) le) (skip_le s)
parseredirs_lem (suc k) rs s le = elim (Bool-cases (peek s (b'<' ∷ b'>' ∷ []))) [
  | inl more ↦ elim (Bool-cases ((gettoken (gettoken s).rest).value == b'a')) [
    | inl named ↦
        let lt = peek_lt s (b'<' ∷ b'>' ∷ []) more in
        let lt' = gettoken_lt (gettoken s).rest (ground (arith, named)) in
        let s' : List ℕ = (gettoken (gettoken s).rest).rest in
        let rs' : List Redir = redir_of (gettoken s).value (gettoken (gettoken s).rest).text ∷ rs in
        rw (more, named)
          (Left_mono (length s') (length s) (parseredirs k rs' s') (omega (arith, lt, lt'))
            (parseredirs_lem k rs' s' (omega (arith, lt, lt'))))
    | inr missing ↦ rw (more, missing) tt
  ]
  | inr done ↦ rw done (skip_le s)
]

pub parsebacks_lem :
    (k : ℕ) (cmd : Cmd) (s : List ℕ) → length s ≤ k → Settles (Left (length s)) (parsebacks k cmd s)
unfolding parsebacks
parsebacks_lem zero cmd s le = rw (no_more s (b'&' ∷ []) le) (skip_le s)
parsebacks_lem (suc k) cmd s le = elim (Bool-cases (peek s (b'&' ∷ []))) [
  | inl more ↦
      let lt = peek_lt s (b'&' ∷ []) more in
      let s' : List ℕ = (gettoken s).rest in
      rw more (
        Left_mono (length s') (length s) (parsebacks k (back cmd) s') (omega (arith, lt))
          (parsebacks_lem k (back cmd) s' (omega (arith, lt))))
  | inr done ↦ rw done (skip_le s)
]

pub follow_lem :
    (n : ℕ) (more : Bool) (join : Cmd → Cmd) (alone : Cmd × List ℕ) (rest : Result (Cmd × List ℕ))
    → Left n alone
    → (more ≡ true → Settles (Left n) rest)
    → Settles (Left n) (follow more join alone rest)
follow_lem n false join alone rest h k = h
follow_lem n true join alone rest h k = Settles->>= (Left n) (Left n) rest _ (k refl) (λ r le. le)

pub parseargs_lem :
    (k argc : ℕ) (rs : List Redir) (s : List ℕ)
    → length s ≤ k
    → Settles (λ r. length r.2 ≤ length s) (parseargs k argc rs s)
unfolding parseargs
parseargs_lem zero argc rs s le = elim (Bool-cases (peek s (b'|' ∷ b')' ∷ b'&' ∷ b';' ∷ []))) [
  | inl stop ↦ rw stop (skip_le s)
  | inr more ↦ elim (Bool-cases ((gettoken s).value == 0)) [
    | inl end ↦ rw (more, end) (gettoken_le s)
    | inr token ↦ absurd (let lt = gettoken_lt s token in omega (arith, lt))
  ]
]
parseargs_lem (suc k) argc rs s le = elim (Bool-cases (peek s (b'|' ∷ b')' ∷ b'&' ∷ b';' ∷ []))) [
  | inl stop ↦ rw stop (skip_le s)
  | inr more ↦ elim (Bool-cases ((gettoken s).value == 0)) [
    | inl end ↦ rw (more, end) (gettoken_le s)
    | inr char ↦ elim (Bool-cases ((gettoken s).value == b'a')) [
      | inl wordy ↦ elim (Bool-cases (leb maxargs (argc + 1))) [
        | inl full ↦ rw (more, char, wordy, full) tt
        | inr room ↦
            let lt = gettoken_lt s char in
            let s' : List ℕ = (gettoken s).rest in
            rw (more, char, wordy, room)
              (Settles->>= (Left (length s')) (λ r. length r.2 ≤ length s)
                (parseredirs (length s) rs s') _
                (parseredirs_lem (length s) rs s' (omega (arith, lt)))
                (λ r left.
                  Settles->>= (λ a. length a.2 ≤ length r.1) (λ a. length a.2 ≤ length s)
                    (parseargs k (argc + 1) r.0 r.1) _
                    (parseargs_lem k (argc + 1) r.0 r.1 (omega (arith, lt, left)))
                    (λ a left'. omega (arith, lt, left, left'))))
      ]
      | inr other ↦ rw (more, char, other) tt
    ]
  ]
]
