-- ===== src/Fs/Paths.antt =====
-- What `skipelem` takes off a path.
use mathlib.Core.Path.{subst}
use mathlib.Core.List.{append-nil}
use cs461_final_project_grub.Base.{
  ℕ, suc, ◌+◌, ◌≡◌, ◌≢◌, ◌<◌, inl, inr, refl, ap, sym, ◌∙◌, true, false, Option, none, some, List,
  [], ◌∷◌, ◌++◌, take, length, length-append, All, arith, Bool-cases,
}
use cs461_final_project_grub.Fs.Dirs.{dirsiz, is_slash, skip_slashes, split_elem, skipelem}

-- The list does not start with a slash.
abbrev pub IsBare : List ℕ → Type 0
IsBare [] = Unit
IsBare (c ∷ path) = is_slash c ≡ false

-- A path behind a run of slashes, the longest.
pub record Bared (path rest : List ℕ) : Type 0 where
  pub slashes : List ℕ
  pub whole : path ≡ slashes ++ rest
  pub all : All (λ c. is_slash c ≡ true) slashes
  pub bare : IsBare rest

skip_slashes-Bared : (path : List ℕ) → Bared path (skip_slashes path)
unfolding skip_slashes
skip_slashes-Bared [] = record { slashes = []; whole = refl; all = tt; bare = tt }
skip_slashes-Bared (c ∷ path) = elim (Bool-cases (is_slash c)) [
  | inl slash ↦
      let b = skip_slashes-Bared path in
      rw slash (record {
        slashes = c ∷ b.slashes;
        whole = ap (λ l. c ∷ l) b.whole;
        all = (slash, b.all);
        bare = b.bare;
      })
  | inr other ↦ rw other (record { slashes = []; whole = refl; all = tt; bare = other })
]

-- Where an element ends.
abbrev pub AtEnd : List ℕ → Type 0
AtEnd [] = Unit
AtEnd (c ∷ path) = is_slash c ≡ true

pub record Split (path name rest : List ℕ) : Type 0 where
  pub whole : path ≡ name ++ rest
  pub all : All (λ c. is_slash c ≡ false) name
  pub ended : AtEnd rest

split_elem-Split : (path : List ℕ) → Split path (split_elem path).0 (split_elem path).1
unfolding split_elem
split_elem-Split [] = record { whole = refl; all = tt; ended = tt }
split_elem-Split (c ∷ path) = elim (Bool-cases (is_slash c)) [
  | inl slash ↦ rw slash (record { whole = refl; all = tt; ended = slash })
  | inr other ↦
      let b = split_elem-Split path in
      rw other (record { whole = ap (λ l. c ∷ l) b.whole; all = (other, b.all); ended = b.ended })
]

-- What `skipelem` may come to.
pub data Skipped (path : List ℕ) : Option (List ℕ × List ℕ) → Type 0 where
  nothing : All (λ c. is_slash c ≡ true) path → Skipped path none
  element :
      (before name after rest : List ℕ)
      → path ≡ before ++ (name ++ (after ++ rest))
      → All (λ c. is_slash c ≡ true) before
      → All (λ c. is_slash c ≡ false) name
      → All (λ c. is_slash c ≡ true) after
      → name ≢ []
      → IsBare rest
      → (after ≡ [] → rest ≡ [])
      → length rest < length path
      → Skipped path (some (take dirsiz name, rest))

no_rest : (rest : List ℕ) → IsBare rest → AtEnd rest → rest ≡ []
no_rest [] b e = refl
no_rest (c ∷ rest) b e = absurd (ground (arith, b, e))

first_elem :
    (c : ℕ) (s : List ℕ) → is_slash c ≡ false → (split_elem (c ∷ s)).0 ≡ c ∷ (split_elem s).0
unfolding split_elem
first_elem c s other = ground (arith, other)

length_parts :
    (path before name after rest rest0 s : List ℕ)
    → path ≡ before ++ s
    → s ≡ name ++ rest0
    → rest0 ≡ after ++ rest
    → length path ≡ length before + (length name + (length after + length rest))
length_parts path before name after rest rest0 s e f g = omega (
  arith,
  ap length e,
  length-append before s,
  ap length f,
  length-append name rest0,
  ap length g,
  length-append after rest,
)

-- `skipelem` finds no element just in a path of slashes only. Else the path is slashes, an element of
-- at least one byte and no slash, slashes, and a rest that does not start with a slash and is
-- empty where no slash follows the element; the rest is returned, it is shorter than the path, and
-- `name` is the element's first `DIRSIZ` bytes.
pub skipelem_lem : (path : List ℕ) → Skipped path (skipelem path)
unfolding skipelem
skipelem_lem path = found (skip_slashes path) (skip_slashes-Bared path)
  where
    found :
        (r : List ℕ)
        → Bared path r
        → Skipped path (elim r [
          | [] ↦ none
          | c ∷ s ↦ some (take dirsiz (split_elem (c ∷ s)).0, skip_slashes (split_elem (c ∷ s)).1)
        ])
    found [] b =
        nothing
          (subst (λ l. All (λ c. is_slash c ≡ true) l) (sym (b.whole ∙ append-nil b.slashes)) b.all)
    found (c ∷ s) b =
        let parts = split_elem-Split (c ∷ s) in
        let r0 = (split_elem (c ∷ s)).1 in
        let behind = skip_slashes-Bared r0 in
        let name = (split_elem (c ∷ s)).0 in
        let len : length path
            ≡ length b.slashes
              + (length name + (length behind.slashes + length (skip_slashes r0))) =
          length_parts path b.slashes name behind.slashes (skip_slashes r0) r0 (c ∷ s) b.whole
            parts.whole behind.whole in
        let long : length name ≡ suc (length (split_elem s).0) =
          ap length (first_elem c s b.bare) in
        element b.slashes name behind.slashes (skip_slashes r0)
          (b.whole ∙ ap (λ l. b.slashes ++ l) (parts.whole ∙ ap (λ l. name ++ l) behind.whole))
          b.all parts.all behind.all (λ e. omega (arith, long, ap length e)) behind.bare
          (λ e.
            no_rest (skip_slashes r0) behind.bare
              (subst AtEnd (behind.whole ∙ ap (λ l. l ++ skip_slashes r0) e) parts.ended))
          (omega (arith, len, long))
