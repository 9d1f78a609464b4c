-- ===== src/Sh/Tests.antt =====
-- Runs of sh.c and the theorems at concrete inputs.
use cs461_final_project_grub.Base.{
  Bool, true, false, if◌then◌else◌, All, ℕ, ◌≡◌, ◌≢◌, refl, List, [], ◌∷◌, arith,
}
use cs461_final_project_grub.Sh.{
  strchr, whitespace, Cmd, exec, redir, pipe, list, back, ok, panic, out_of_fuel, skip, word,
  greater, token, gettoken, peek, wrap, redir_of, parseredirs, parseargs, parsebacks, parseline,
  parsepipe, parseexec, parseblock, parsecmd,
}
use cs461_final_project_grub.Sh.Fuel.{parsecmd_ends}
use cs461_final_project_grub.Sh.Grammar.{
  Tok, touches, Gaps, Word, Plain, to, Line, last, seq, only, bar, words, block, print, line_toks,
  line_cmd, LineFits,
}
use cs461_final_project_grub.Sh.RoundTrip.{parsecmd-print}

-- `a|(b;c>d)&`
abbrev line : List ℕ
line = b'a' ∷ b'|' ∷ b'(' ∷ b'b' ∷ b';' ∷ b'c' ∷ b'>' ∷ b'd' ∷ b')' ∷ b'&' ∷ 10 ∷ []

abbrev simple : ℕ → Cmd
simple c = exec ((c ∷ []) ∷ [])

parsecmd_line :
    parsecmd line
    ≡ ok (back (pipe (simple b'a') (list (simple b'b') (redir (simple b'c') (b'd' ∷ []) 0x201 1))))
unfolding parsecmd parseline parsepipe parseexec parseblock parseredirs parseargs parsebacks
    gettoken token greater word skip peek wrap redir_of
parsecmd_line = refl

parsecmd_open : parsecmd (b'(' ∷ b'a' ∷ []) ≡ panic
unfolding parsecmd parseline parsepipe parseexec parseblock parseredirs parseargs parsebacks
    gettoken token greater word skip peek wrap redir_of
parsecmd_open = refl

parsecmd_ends_example : parsecmd line ≢ out_of_fuel
parsecmd_ends_example = parsecmd_ends line

letter_a : Plain b'a'
letter_a = record { bare = refl; char = refl }

abbrev a : Word
a = record { first = b'a'; others = []; plain = (letter_a, tt) }

-- `a;(a|a>a&)`
abbrev nested : Line
nested = seq (only (words [] (record { name = a; redirs = [] } ∷ []))) 0 (
    last
      (only (
        block
          (last
            (bar (words [] (record { name = a; redirs = [] } ∷ []))
              (only (words [] (record { name = a; redirs = to a ∷ [] } ∷ []))))
            1)
          []))
      0)

nested-LineFits : LineFits nested
unfolding LineFits
nested-LineFits = omega arith

-- No white space but a space between two words and one behind two `>`.
abbrev tight : Tok → List Tok → List ℕ
tight t ts = if touches t ts then 32 ∷ [] else []

tight_white : (b : Bool) → All (λ c. strchr c whitespace ≡ true) (if b then 32 ∷ [] else [])
tight_white true = (refl, tt)
tight_white false = tt

tight_kept : (b : Bool) → b ≡ true → ◌≢◌ {A = List ℕ} (if b then 32 ∷ [] else []) []
tight_kept true h e = ground (arith, e)
tight_kept false h e = absurd (ground (arith, h))

abbrev tight_gaps : Gaps
tight_gaps = record {
  gap = tight;
  white = λ t ts. tight_white (touches t ts);
  kept = λ t ts. tight_kept (touches t ts);
}

parsecmd-print_example :
    parsecmd (32 ∷ 9 ∷ print ⦃g = tight_gaps⦄ (line_toks nested [])) ≡ ok (line_cmd nested)
parsecmd-print_example =
    parsecmd-print ⦃g = tight_gaps⦄ (32 ∷ 9 ∷ []) nested (refl, (refl, tt)) nested-LineFits
