-- ===== src/Grep.antt =====
-- grep.c: the matcher, and the loop over what `read` gives.
--
-- A string is its bytes without the terminating 0; the byte behind the last reads as 0.
pub mod Items
pub mod Language
pub mod Lines
mod Tests
use cs461_final_project_grub.Base.{
  ℕ, zero, suc, Bool, true, false, ◌&&◌, ◌||◌, ◌==◌, if◌then◌else◌, Option, none, some, List, [],
  ◌∷◌, ◌++◌, length,
}

abbrev pub is_empty : List ℕ → Bool
is_empty [] = true
is_empty (_ ∷ _) = false

-- The last test of `matchhere`: one character, and then the rest.
unfoldable pub matchone : ℕ → (List ℕ → Bool) → List ℕ → Bool
matchone c rest [] = false
matchone c rest (t ∷ text) = (c == b'.' || c == t) && rest text

-- `matchstar`, given `matchhere` of the expression behind the star.
unfoldable pub matchstar : ℕ → (List ℕ → Bool) → List ℕ → Bool
matchstar c rest [] = rest []
matchstar c rest (t ∷ text) =
    let more = matchstar c rest text in
    if rest (t ∷ text) then true else if t == c || c == b'.' then more else false

unfoldable pub matchhere : List ℕ → List ℕ → Bool
matchhere [] text = true
matchhere (c ∷ []) text = if c == b'$' then is_empty text else matchone c (matchhere []) text
matchhere (c ∷ s ∷ re) text =
    if s == b'*' then matchstar c (matchhere re) text else matchone c (matchhere (s ∷ re)) text

-- The loop of `match`.
unfoldable pub search_from : List ℕ → List ℕ → Bool
search_from re [] = matchhere re []
search_from re (t ∷ text) =
    let rest = search_from re text in if matchhere re (t ∷ text) then true else rest

unfoldable pub match : List ℕ → List ℕ → Bool
match [] text = search_from [] text
match (c ∷ re) text = if c == b'^' then matchhere re text else search_from (c ∷ re) text

-- `strchr(p, '\n')`, which stops at a 0: the line, and what follows the newline.
unfoldable pub split_line : List ℕ → Option (List ℕ × List ℕ)
split_line [] = none
split_line (c ∷ p) =
    let rest = split_line p in
    if c == 10
    then some ([], p)
    else if c == 0
    then none
    else elim rest [ none ↦ none | some (line, p') ↦ some (c ∷ line, p') ]

-- The inner loop of `grep`, with `k` rounds left: what is written, and `p`.
unfoldable pub write_lines : ℕ → List ℕ → List ℕ → List ℕ × List ℕ
write_lines zero pattern p = ([], p)
write_lines (suc k) pattern p = elim (split_line p) [
  | none ↦ ([], p)
  | some (line, p') ↦
      let (out, left) = write_lines k pattern p' in
      ((if match pattern line then line ++ (10 ∷ out) else out), left)
]

abbrev pub has_line : List ℕ → Bool
has_line p = elim (split_line p) [ none ↦ false | some _ ↦ true ]

-- The outer loop of `grep`, over what each `read` gives, with what is kept in `buf`: if no line was
-- found, `p == buf`, and nothing is kept. A `read` that gives no byte ends it. A line takes a byte, so a round for each byte is enough.
unfoldable pub grep_from : List ℕ → List ℕ → List (List ℕ) → List ℕ
grep_from pattern kept [] = []
grep_from pattern kept ([] ∷ chunks) = []
grep_from pattern kept ((c ∷ cs) ∷ chunks) =
    let chunk : List ℕ = c ∷ cs in
    let (out, left) = write_lines (length (kept ++ chunk)) pattern (kept ++ chunk) in
    out ++ grep_from pattern (if has_line (kept ++ chunk) then left else []) chunks
