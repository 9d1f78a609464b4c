-- ===== src/Grep/Language.antt =====
-- The language of a regular expression, and the matcher against it.
use mathlib.Core.Path.{subst}
use cs461_final_project_grub.Base.{
  ℕ, ◌≡◌, ◌↔◌, inl, inr, refl, ap, sym, ◌∙◌, Bool, true, false, ◌==◌, if◌then◌else◌, List, [], ◌∷◌,
  ◌++◌, Bool-cases, arith,
}
use cs461_final_project_grub.Grep.{matchhere, search_from, match}
use cs461_final_project_grub.Grep.Items.{Item, items, at_end, Prefix, matchhere-Decides}

-- A word anywhere in the text, at its start if the expression begins with `^`.
pub record Occurs (starts : Bool) (is : List Item) (ends : Bool) (text : List ℕ) : Type 0 where
  pub before : List ℕ
  pub behind : List ℕ
  pub whole : text ≡ before ++ behind
  pub prefix : Prefix is ends behind
  pub started : starts ≡ true → before ≡ []

search_from-Occurs :
    (re text : List ℕ) → (search_from re text ≡ true) ↔ Occurs false (items re) (at_end re) text
unfolding search_from
search_from-Occurs re [] = (
  λ h. record {
    before = [];
    behind = [];
    whole = refl;
    prefix = (matchhere-Decides re []).0 h;
    started = λ k. refl;
  },
  λ o.
      (matchhere-Decides re []).1
        (subst (Prefix (items re) (at_end re)) (nothing o.before o.behind o.whole) o.prefix),
)
  where
    nothing : (a b : List ℕ) → [] ≡ a ++ b → b ≡ []
    nothing [] b h = sym h
    nothing (x ∷ a) b h = cc
search_from-Occurs re (t ∷ text) = (
  λ h. elim (Bool-cases (matchhere re (t ∷ text))) [
    | inl now ↦ record {
      before = [];
      behind = t ∷ text;
      whole = refl;
      prefix = (matchhere-Decides re (t ∷ text)).0 now;
      started = λ k. refl;
    }
    | inr later ↦
        let o = (search_from-Occurs re text).0 (ground (arith, h, later)) in
        record {
          before = t ∷ o.before;
          behind = o.behind;
          whole = ap (λ l. t ∷ l) o.whole;
          prefix = o.prefix;
          started = λ k. cc;
        }
  ],
  λ o. found o.before o.behind o.whole o.prefix (search_from-Occurs re text).1,
)
  where
    found :
        (a b : List ℕ)
        → t ∷ text ≡ a ++ b
        → Prefix (items re) (at_end re) b
        → (Occurs false (items re) (at_end re) text → search_from re text ≡ true)
        → (if matchhere re (t ∷ text) then true else search_from re text) ≡ true
    found [] b h p rest =
        let now : matchhere re (t ∷ text) ≡ true =
          (matchhere-Decides re (t ∷ text)).1 (subst (Prefix (items re) (at_end re)) (sym h) p) in
        ground (arith, now)
    found (x ∷ a) b h p rest =
        let tail : text ≡ a ++ b = cc in
        let later : search_from re text ≡ true =
          rest (record { before = a; behind = b; whole = tail; prefix = p; started = λ k. cc }) in
        ground (arith, later)

-- An expression without its `^`, and whether it has one.
abbrev pub starts : List ℕ → Bool
starts [] = false
starts (c ∷ re) = c == b'^'

abbrev pub body : List ℕ → List ℕ
body [] = []
body (c ∷ re) = if c == b'^' then re else c ∷ re

-- `match` is true exactly if the text has a word of the expression's language: at its start if the
-- expression begins with `^`, and up to its end if it ends in `$`.
pub match-Occurs :
    (re text : List ℕ)
    → (match re text ≡ true) ↔ Occurs (starts re) (items (body re)) (at_end (body re)) text
unfolding match
match-Occurs [] text = search_from-Occurs [] text
match-Occurs (c ∷ re) text = elim (Bool-cases (c == b'^')) [
  | inr other ↦ rw other (search_from-Occurs (c ∷ re) text)
  | inl caret ↦ rw caret (
    λ h. record {
      before = [];
      behind = text;
      whole = refl;
      prefix = (matchhere-Decides re text).0 h;
      started = λ k. refl;
    },
    λ o. (matchhere-Decides re text).1 (
        subst (Prefix (items re) (at_end re))
          (sym (o.whole ∙ ap (λ a. a ++ o.behind) (o.started refl))) o.prefix),
  )
]
