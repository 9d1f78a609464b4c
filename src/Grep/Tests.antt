-- ===== src/Grep/Tests.antt =====
-- Runs of grep.c and the theorems at concrete inputs.
use cs461_final_project_grub.Base.{ℕ, ◌≡◌, ◌↔◌, refl, true, false, List, [], ◌∷◌, arith}
use cs461_final_project_grub.Grep.{match, matchhere, matchstar, matchone, search_from, grep_from}
use cs461_final_project_grub.Grep.Language.{starts, body, Occurs, match-Occurs}
use cs461_final_project_grub.Grep.Items.{items, at_end}
use cs461_final_project_grub.Grep.Lines.{matching, concat, HasLine, grep_from-concat}

-- `a*b$`
abbrev pattern : List ℕ
pattern = b'a' ∷ b'*' ∷ b'b' ∷ b'$' ∷ []

match-true : match pattern (b'x' ∷ b'a' ∷ b'a' ∷ b'b' ∷ []) ≡ true
unfolding match search_from matchhere matchstar matchone
match-true = refl

match-false : match (b'^' ∷ pattern) (b'x' ∷ b'b' ∷ []) ≡ false
unfolding match search_from matchhere matchstar matchone
match-false = refl

match-Occurs_example :
    (match pattern (b'b' ∷ []) ≡ true)
    ↔ Occurs (starts pattern) (items (body pattern)) (at_end (body pattern)) (b'b' ∷ [])
match-Occurs_example = match-Occurs pattern (b'b' ∷ [])

-- The line `bb` comes in two parts.
abbrev first : List ℕ
first = b'b' ∷ 10 ∷ b'b' ∷ []

abbrev second : List ℕ
second = b'b' ∷ 10 ∷ []

first-HasLine : HasLine first
first-HasLine = record { newline = λ h. h.1.0 refl; clean = omega arith }

second-HasLine : HasLine second
second-HasLine = record { newline = λ h. h.1.0 refl; clean = omega arith }

grep_from-concat_example :
    grep_from pattern [] (first ∷ second ∷ []) ≡ matching pattern [] (concat (first ∷ second ∷ []))
grep_from-concat_example =
    grep_from-concat pattern (first ∷ second ∷ []) (first-HasLine, (second-HasLine, tt))
