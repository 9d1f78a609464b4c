-- ===== src/Sh/Fuel.antt =====
-- sh.c: the parser comes to an end.
use mathlib.Core.Path.{subst}
use cs461_final_project_grub.Base.{
  ℕ, zero, suc, ◌+◌, ◌*◌, ◌≢◌, ◌≤◌, inl, inr, Bool, true, false, not, leb, if◌then◌else◌, List, [],
  ◌∷◌, length, Bool-cases, arith,
}
use cs461_final_project_grub.Sh.{
  Cmd, Result, ok, panic, out_of_fuel, ◌>>=◌, skip, gettoken, peek, wrap, parseredirs, parseargs,
  parsebacks, parseline, parsepipe, parseexec, parseblock, parsecmd, pipe, list,
}
use cs461_final_project_grub.Sh.Tokens.{skip_le, peek_lt}
use cs461_final_project_grub.Sh.Settles.{
  Settles->>=, Settles, Left, Left_mono, parseredirs_lem, parsebacks_lem, follow_lem, parseargs_lem,
}

-- Each of the four functions, with fuel above its bound.
record Enough (f : ℕ) : Type 0 where
  line : (s : List ℕ) → 4 * length s + 4 ≤ f → Settles (Left (length s)) (parseline f s)
  pipes : (s : List ℕ) → 4 * length s + 3 ≤ f → Settles (Left (length s)) (parsepipe f s)
  simple : (s : List ℕ) → 4 * length s + 2 ≤ f → Settles (Left (length s)) (parseexec f s)
  block : (s : List ℕ) → 4 * length s + 1 ≤ f → Settles (Left (length s)) (parseblock f s)

module _ (f : ℕ) (ih : Enough f) where
  line_step :
      (s : List ℕ) → 4 * length s + 4 ≤ suc f → Settles (Left (length s)) (parseline (suc f) s)
  unfolding parseline
  line_step s le =
      Settles->>= (Left (length s)) (Left (length s)) (parsepipe f s) _ (ih.pipes s (omega arith))
        (λ r left.
          Settles->>= (Left (length r.1)) (Left (length s)) (parsebacks (length r.1) r.0 r.1) _
            (parsebacks_lem (length r.1) r.0 r.1 (omega arith))
            (λ b left'.
              let here = skip_le b.1 in
              follow_lem (length s) (peek b.1 (b';' ∷ [])) (list b.0) (b.0, skip b.1)
                (parseline f (gettoken b.1).rest) (omega (arith, left, left', here))
                (λ found.
                  let lt = peek_lt b.1 (b';' ∷ []) found in
                  let s' : List ℕ = (gettoken b.1).rest in
                  Left_mono (length s') (length s) (parseline f s') (omega (arith, lt, left, left'))
                    (ih.line s' (omega (arith, lt, left, left'))))))

  pipes_step :
      (s : List ℕ) → 4 * length s + 3 ≤ suc f → Settles (Left (length s)) (parsepipe (suc f) s)
  unfolding parsepipe
  pipes_step s le =
      Settles->>= (Left (length s)) (Left (length s)) (parseexec f s) _ (ih.simple s (omega arith))
        (λ r left.
          let here = skip_le r.1 in
          follow_lem (length s) (peek r.1 (b'|' ∷ [])) (pipe r.0) (r.0, skip r.1)
            (parsepipe f (gettoken r.1).rest) (omega (arith, left, here))
            (λ found.
              let lt = peek_lt r.1 (b'|' ∷ []) found in
              let s' : List ℕ = (gettoken r.1).rest in
              Left_mono (length s') (length s) (parsepipe f s') (omega (arith, lt, left))
                (ih.pipes s' (omega (arith, lt, left)))))

  simple_step :
      (s : List ℕ) → 4 * length s + 2 ≤ suc f → Settles (Left (length s)) (parseexec (suc f) s)
  unfolding parseexec
  simple_step s le = elim (Bool-cases (peek s (b'(' ∷ []))) [
    | inl paren ↦
        let here = skip_le s in
        rw paren (
          Left_mono (length (skip s)) (length s) (parseblock f (skip s)) here
            (ih.block (skip s) (omega (arith, here))))
    | inr other ↦ rw other (
        Settles->>= (Left (length s)) (Left (length s)) (parseredirs (length s) [] s) _
          (parseredirs_lem (length s) [] s (omega arith))
          (λ r left.
            Settles->>= (λ a. length a.2 ≤ length r.1) (Left (length s))
              (parseargs (length s) 0 r.0 r.1) _
              (parseargs_lem (length s) 0 r.0 r.1 (omega (arith, left)))
              (λ a left'. omega (arith, left, left'))))
  ]

  block_step :
      (s : List ℕ) → 4 * length s + 1 ≤ suc f → Settles (Left (length s)) (parseblock (suc f) s)
  unfolding parseblock
  block_step s le = elim (Bool-cases (peek s (b'(' ∷ []))) [
    | inl paren ↦
        let lt = peek_lt s (b'(' ∷ []) paren in
        rw paren (
          Settles->>= (Left (length (gettoken s).rest)) (Left (length s))
            (parseline f (gettoken s).rest) _ (ih.line (gettoken s).rest (omega (arith, lt)))
            (λ r left. closing s r (omega (arith, lt, left))))
    | inr other ↦ rw other tt
  ]
    where
      closing :
          (s : List ℕ) (r : Cmd × List ℕ)
          → length r.1 ≤ length s
          → Settles (Left (length s)) (
              if not (peek r.1 (b')' ∷ [])) then panic else (do
                (rs, s2) ← parseredirs (length s) [] (gettoken r.1).rest
                ok (wrap rs r.0, s2)))
      closing s r left = elim (Bool-cases (peek r.1 (b')' ∷ []))) [
        | inl found ↦
            let lt = peek_lt r.1 (b')' ∷ []) found in
            let s' : List ℕ = (gettoken r.1).rest in
            rw found (
              Settles->>= (Left (length s')) (Left (length s)) (parseredirs (length s) [] s') _
                (parseredirs_lem (length s) [] s' (omega (arith, lt, left)))
                (λ a left'. omega (arith, lt, left, left')))
        | inr missing ↦ rw missing tt
      ]

enough : (f : ℕ) → Enough f
enough zero = record {
  line = λ s le. absurd (omega arith);
  pipes = λ s le. absurd (omega arith);
  simple = λ s le. absurd (omega arith);
  block = λ s le. absurd (omega arith);
}
enough (suc f) = record {
  line = line_step f (enough f);
  pipes = pipes_step f (enough f);
  simple = simple_step f (enough f);
  block = block_step f (enough f);
}

never : {A : Type 0} (P : A → Type 0) (r : Result A) → Settles P r → r ≢ out_of_fuel
never P (ok a) h e = absurd (subst (Settles P) e h)
never P panic h e = absurd (ground (arith, e))
never P out_of_fuel h e = absurd h

-- `parsecmd` comes to an end for every line: it gives a command or calls `panic`, and the fuel it
-- starts its functions with, four units for each byte and four more, is never used up.
pub parsecmd_ends : (s : List ℕ) → parsecmd s ≢ out_of_fuel
unfolding parsecmd
parsecmd_ends s =
    never (λ c. Unit) (parsecmd s)
      (Settles->>= (Left (length s)) (λ c. Unit) (parseline (4 * length s + 4) s) _
        ((enough (4 * length s + 4)).line s (omega arith))
        (λ r left. leftover r.0 (leb 1 (length (skip r.1)))))
  where
    leftover : (cmd : Cmd) (more : Bool) → Settles (λ c. Unit) (if more then panic else ok cmd)
    leftover cmd true = tt
    leftover cmd false = tt
