-- ===== src/Grep/Lines.antt =====
-- The lines that grep.c writes, against the whole input.
use mathlib.Core.Path.{subst}
use mathlib.Core.List.{append-nil, append_assoc}
use cs461_final_project_grub.Base.{
  ℕ, zero, suc, ◌+◌, ◌≡◌, ◌≢◌, ◌≤◌, inl, inr, refl, ap, sym, ◌∙◌, true, false, ◌==◌, if◌then◌else◌,
  Option, none, some, List, [], ◌∷◌, ◌++◌, length, length-append, All, Bool-cases, arith,
}
use cs461_final_project_grub.Grep.{match, split_line, write_lines, has_line, grep_from}

-- The lines of the input that match, read byte by byte; `line` has been read of the current one.
abbrev pub matching : (pattern line input : List ℕ) → List ℕ
matching pattern line [] = []
matching pattern line (c ∷ input) =
    let more = matching pattern (line ++ (c ∷ [])) input in
    let next = matching pattern [] input in
    if c == 10 then (if match pattern line then line ++ (10 ∷ next) else next) else more

abbrev pub concat : List (List ℕ) → List ℕ
concat [] = []
concat (x ∷ xs) = x ++ concat xs

-- A line, its newline and the rest; or, where no byte is 0, no newline.
data Split (p : List ℕ) : Option (List ℕ × List ℕ) → Type 0 where
  found :
      (line rest : List ℕ)
      → p ≡ line ++ (10 ∷ rest)
      → All (λ c. c ≢ 10) line
      → Split p (some (line, rest))
  absent : (All (λ c. c ≢ 0) p → All (λ c. c ≢ 10) p) → Split p none

split_line-Split : (p : List ℕ) → Split p (split_line p)
unfolding split_line
split_line-Split [] = absent (λ h. h)
split_line-Split (c ∷ p) = elim (Bool-cases (c == 10)) [
  | inl newline ↦
      let same : c ≡ 10 = ground (arith, newline) in
      rw newline (found [] p (ap (λ b. b ∷ p) same) tt)
  | inr other ↦ elim (Bool-cases (c == 0)) [
    | inl nul ↦ rw (other, nul) (absent (λ h. absurd (ground (arith, h.0, nul))))
    | inr more ↦
        rw (other, more) (behind (split_line p) (ground (arith, other)) (split_line-Split p))
  ]
]
  where
    behind :
        (r : Option (List ℕ × List ℕ))
        → c ≢ 10
        → Split p r
        → Split (c ∷ p) (elim r [ none ↦ none | some (line, p') ↦ some (c ∷ line, p') ])
    behind _ ne (found line rest whole bare) =
        found (c ∷ line) rest (ap (λ l. c ∷ l) whole) (ne, bare)
    behind _ ne (absent none_there) = absent (λ h. (ne, none_there h.1))

-- What `grep` writes for a line.
abbrev emit : List ℕ → List ℕ → List ℕ → List ℕ
emit pattern line next = if match pattern line then line ++ (10 ∷ next) else next

matching-append :
    (pattern cur line rest : List ℕ)
    → All (λ c. c ≢ 10) line
    → matching pattern cur (line ++ (10 ∷ rest))
      ≡ emit pattern (cur ++ line) (matching pattern [] rest)
matching-append pattern cur [] rest h =
    ap (λ l. emit pattern l (matching pattern [] rest)) (sym (append-nil cur))
matching-append pattern cur (c ∷ line) rest h =
    let other : (c == 10) ≡ false = ground (arith, h.0) in
    rw other (
      matching-append pattern (cur ++ (c ∷ [])) line rest h.1
      ∙ ap (λ l. emit pattern l (matching pattern [] rest)) (append_assoc cur (c ∷ []) line))

matching_bare :
    (pattern cur line : List ℕ) → All (λ c. c ≢ 10) line → matching pattern cur line ≡ []
matching_bare pattern cur [] h = refl
matching_bare pattern cur (c ∷ line) h =
    let other : (c == 10) ≡ false = ground (arith, h.0) in
    rw other (matching_bare pattern (cur ++ (c ∷ [])) line h.1)

emit-append :
    (pattern line next out : List ℕ)
    → emit pattern line (out ++ next) ≡ emit pattern line out ++ next
emit-append pattern line next out = elim (Bool-cases (match pattern line)) [
  | inl hit ↦ rw hit (sym (append_assoc line (10 ∷ out) next))
  | inr miss ↦ rw miss refl
]

All-behind : (line rest : List ℕ) → All (λ c. c ≢ 0) (line ++ (10 ∷ rest)) → All (λ c. c ≢ 0) rest
All-behind [] rest h = h.1
All-behind (c ∷ line) rest h = All-behind line rest h.1

-- The lines written, and what is left, which has no newline.
record Written (pattern p : List ℕ) (r : List ℕ × List ℕ) : Type 0 where
  out : (q : List ℕ) → matching pattern [] (p ++ q) ≡ r.0 ++ matching pattern [] (r.1 ++ q)
  left : All (λ c. c ≢ 10) r.1
  clean : All (λ c. c ≢ 0) r.1

write_lines-Written :
    (k : ℕ) (pattern p : List ℕ)
    → length p ≤ k
    → All (λ c. c ≢ 0) p
    → Written pattern p (write_lines k pattern p)
unfolding write_lines
write_lines-Written zero pattern [] le h = record { out = λ q. refl; left = tt; clean = tt }
write_lines-Written zero pattern (c ∷ p) le h = absurd (omega arith)
write_lines-Written (suc k) pattern p le h =
    step (split_line p) (split_line-Split p)
      (λ rest lt clean. write_lines-Written k pattern rest lt clean)
  where
    step :
        (r : Option (List ℕ × List ℕ))
        → Split p r
        → ((rest : List ℕ)
            → length rest ≤ k
            → All (λ c. c ≢ 0) rest
            → Written pattern rest (write_lines k pattern rest))
        → Written pattern p (elim r [
          | none ↦ ([], p)
          | some (line, p') ↦
              let (out, left) = write_lines k pattern p' in
              ((if match pattern line then line ++ (10 ∷ out) else out), left)
        ])
    step _ (absent none_there) ih = record { out = λ q. refl; left = none_there h; clean = h }
    step _ (found line rest whole bare) ih =
        let size : length p ≡ length line + suc (length rest) =
          ap length whole ∙ length-append line (10 ∷ rest) in
        let w =
          ih rest (omega (arith, size)) (All-behind line rest (subst (All (λ c. c ≢ 0)) whole h)) in
        record {
          out = λ q.
              ap (λ l. matching pattern [] (l ++ q)) whole
              ∙ ap (matching pattern []) (append_assoc line (10 ∷ rest) q)
              ∙ matching-append pattern [] line (rest ++ q) bare
              ∙ ap (emit pattern line) (w.out q)
              ∙ emit-append pattern line (matching pattern [] ((write_lines k pattern rest).1 ++ q))
                  (write_lines k pattern rest).0;
          left = w.left;
          clean = w.clean;
        }

All-append : (P : ℕ → Type 0) (a b : List ℕ) → All P a → All P b → All P (a ++ b)
All-append P [] b h k = k
All-append P (x ∷ a) b h k = (h.0, All-append P a b h.1 k)

All_right : (P : ℕ → Type 0) (a b : List ℕ) → All P (a ++ b) → All P b
All_right P [] b h = h
All_right P (x ∷ a) b h = All_right P a b h.1

-- What `read` gives holds a newline and no 0.
pub record HasLine (chunk : List ℕ) : Type 0 where
  pub newline : ¬ All (λ c. c ≢ 10) chunk
  pub clean : All (λ c. c ≢ 0) chunk

has_line-HasLine :
    (kept chunk : List ℕ) → All (λ c. c ≢ 0) kept → HasLine chunk → has_line (kept ++ chunk) ≡ true
has_line-HasLine kept chunk clean h =
    told (split_line (kept ++ chunk)) (split_line-Split (kept ++ chunk))
  where
    told :
        (r : Option (List ℕ × List ℕ))
        → Split (kept ++ chunk) r
        → (elim r [ none ↦ false | some _ ↦ true ]) ≡ true
    told _ (found line rest whole bare) = refl
    told _ (absent none_there) = absurd (
        h.newline (
          All_right (λ c. c ≢ 10) kept chunk
            (none_there (All-append (λ c. c ≢ 0) kept chunk clean h.clean))))

grep_from-matching :
    (pattern kept : List ℕ) (chunks : List (List ℕ))
    → All (λ c. c ≢ 0) kept
    → All (λ c. c ≢ 10) kept
    → All HasLine chunks
    → grep_from pattern kept chunks ≡ matching pattern [] (kept ++ concat chunks)
unfolding grep_from
grep_from-matching pattern kept [] clean bare h =
    sym (ap (matching pattern []) (append-nil kept) ∙ matching_bare pattern [] kept bare)
grep_from-matching pattern kept ([] ∷ chunks) clean bare h = absurd (h.0.newline tt)
grep_from-matching pattern kept ((c ∷ cs) ∷ chunks) clean bare h =
    let chunk : List ℕ = c ∷ cs in
    let text : List ℕ = kept ++ chunk in
    let w =
      write_lines-Written (length text) pattern text (omega arith)
        (All-append (λ c. c ≢ 0) kept chunk clean h.0.clean) in
    let left : List ℕ = (write_lines (length text) pattern text).1 in
    rw (has_line-HasLine kept chunk clean h.0) (
      ap (λ l. (write_lines (length text) pattern text).0 ++ l)
        (grep_from-matching pattern left chunks w.clean w.left h.1)
      ∙ sym (w.out (concat chunks))
      ∙ ap (matching pattern []) (append_assoc kept chunk (concat chunks)))

-- Where each `read` gives at least one newline and no 0, and its bytes fit behind what is kept, `grep`
-- writes the lines of the whole input that match, in order, each with its newline, wherever the
-- reads cut the input.
pub grep_from-concat :
    (pattern : List ℕ) (chunks : List (List ℕ))
    → All HasLine chunks
    → grep_from pattern [] chunks ≡ matching pattern [] (concat chunks)
grep_from-concat pattern chunks h = grep_from-matching pattern [] chunks tt tt h
