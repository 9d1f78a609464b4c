-- ===== src/Grep/Items.antt =====
-- grep.c: the items of a regular expression, their language, and `matchhere` against it.
use mathlib.Core.Path.{subst}
use cs461_final_project_grub.Base.{
  ℕ, ◌≡◌, ◌↔◌, ◌⊎◌, inl, inr, refl, ap, Bool, true, false, ◌&&◌, ◌||◌, ◌==◌, if◌then◌else◌, List,
  [], ◌∷◌, ◌++◌, Bool-cases, arith,
}
use cs461_final_project_grub.Grep.{is_empty, matchone, matchstar, matchhere}

-- An item takes one character, or any number of them.
pub data Item : Type 0 where
  one star : ℕ → Item

-- The items of an expression, and whether it ends in `$`.
abbrev pub items : List ℕ → List Item
items [] = []
items (c ∷ []) = if c == b'$' then [] else one c ∷ []
items (c ∷ s ∷ re) =
    let plain = one c ∷ items (s ∷ re) in
    let starred = star c ∷ items re in if s == b'*' then starred else plain

abbrev pub at_end : List ℕ → Bool
at_end [] = false
at_end (c ∷ []) = c == b'$'
at_end (c ∷ s ∷ re) =
    let plain = at_end (s ∷ re) in let starred = at_end re in if s == b'*' then starred else plain

-- `.` is any character.
abbrev pub accepts : ℕ → ℕ → Bool
accepts c t = c == b'.' || c == t

-- The words of a list of items.
pub data Lang : List Item → List ℕ → Type 0 where
  done : Lang [] []
  char :
      {c t : ℕ} {is : List Item} {w : List ℕ}
      → accepts c t ≡ true
      → Lang is w
      → Lang (one c ∷ is) (t ∷ w)
  stop : {c : ℕ} {is : List Item} {w : List ℕ} → Lang is w → Lang (star c ∷ is) w
  more :
      {c t : ℕ} {is : List Item} {w : List ℕ}
      → accepts c t ≡ true
      → Lang (star c ∷ is) w
      → Lang (star c ∷ is) (t ∷ w)

-- A word at the start of the text, all of it if the expression ends in `$`.
pub record Prefix (is : List Item) (ends : Bool) (text : List ℕ) : Type 0 where
  pub word : List ℕ
  pub rest : List ℕ
  pub whole : text ≡ word ++ rest
  pub in_lang : Lang is word
  pub ended : ends ≡ true → rest ≡ []

-- What a matcher of the start of a text decides.
abbrev pub Decides : (List ℕ → Bool) → List Item → Bool → Type 0
Decides f is ends = (text : List ℕ) → (f text ≡ true) ↔ Prefix is ends text

pub Decides-one :
    (c : ℕ) (f : List ℕ → Bool) (is : List Item) (e : Bool)
    → Decides f is e
    → Decides (matchone c f) (one c ∷ is) e
unfolding matchone
Decides-one c f is e d [] =
    (λ h. absurd (ground (arith, h)), λ p. absurd (no p.word p.rest p.whole p.in_lang))
  where
    no : (w r : List ℕ) → [] ≡ w ++ r → Lang (one c ∷ is) w → ⊥
    no [] r h l = elim l [ ]
    no (t ∷ w) r h (char a l) = cc
Decides-one c f is e d (t ∷ text) = (
  λ h.
      let p = (d text).0 (ground (arith, h)) in
      record {
        word = t ∷ p.word;
        rest = p.rest;
        whole = ap (λ l. t ∷ l) p.whole;
        in_lang = char (ground (arith, h)) p.in_lang;
        ended = p.ended;
      },
  λ p. back p.word p.rest p.whole p.in_lang p.ended,
)
  where
    back :
        (w r : List ℕ)
        → t ∷ text ≡ w ++ r
        → Lang (one c ∷ is) w
        → (e ≡ true → r ≡ [])
        → ((c == b'.' || c == t) && f text) ≡ true
    back [] r h l k = elim l [ ]
    back (u ∷ w) r h (char a l) k =
        let same : t ≡ u = cc in
        let tail : text ≡ w ++ r = cc in
        let hit : f text ≡ true =
          (d text).1 (record { word = w; rest = r; whole = tail; in_lang = l; ended = k }) in
        ground (arith, hit, a, same)

pub stop_prefix :
    (c : ℕ) (is : List Item) (e : Bool) (text : List ℕ)
    → Prefix is e text
    → Prefix (star c ∷ is) e text
stop_prefix c is e text p = record {
  word = p.word;
  rest = p.rest;
  whole = p.whole;
  in_lang = stop p.in_lang;
  ended = p.ended;
}

pub more_prefix :
    (c t : ℕ) (is : List Item) (e : Bool) (text : List ℕ)
    → accepts c t ≡ true
    → Prefix (star c ∷ is) e text
    → Prefix (star c ∷ is) e (t ∷ text)
more_prefix c t is e text a p = record {
  word = t ∷ p.word;
  rest = p.rest;
  whole = ap (λ l. t ∷ l) p.whole;
  in_lang = more a p.in_lang;
  ended = p.ended;
}

-- The word of a star is one behind the star, or starts with a character that the star takes.
pub star_cases :
    (c : ℕ) (is : List Item) (e : Bool) (text : List ℕ)
    → Prefix (star c ∷ is) e text
    → Prefix is e text
      ⊎ ((t : ℕ) × (text' : List ℕ) × (text ≡ t ∷ text')
          × (accepts c t ≡ true)
          × Prefix (star c ∷ is) e text')
star_cases c is e text p = cases p.word p.rest p.whole p.in_lang p.ended
  where
    cases :
        (w r : List ℕ)
        → text ≡ w ++ r
        → Lang (star c ∷ is) w
        → (e ≡ true → r ≡ [])
        → Prefix is e text
          ⊎ ((t : ℕ) × (text' : List ℕ) × (text ≡ t ∷ text')
              × (accepts c t ≡ true)
              × Prefix (star c ∷ is) e text')
    cases w r h (stop l) k = inl (record { word = w; rest = r; whole = h; in_lang = l; ended = k })
    cases (t ∷ w) r h (more a l) k =
        inr (t, w ++ r, h, a, record { word = w; rest = r; whole = refl; in_lang = l; ended = k })

pub Decides-star :
    (c : ℕ) (f : List ℕ → Bool) (is : List Item) (e : Bool)
    → Decides f is e
    → Decides (matchstar c f) (star c ∷ is) e
unfolding matchstar
Decides-star c f is e d [] = (
  λ h. stop_prefix c is e [] ((d []).0 h),
  λ p. elim (star_cases c is e [] p) [ inl q ↦ (d []).1 q | inr (t, text', same, a, q) ↦ cc ],
)
Decides-star c f is e d (t ∷ text) = (
  λ h. elim (Bool-cases (f (t ∷ text))) [
    | inl now ↦ stop_prefix c is e (t ∷ text) ((d (t ∷ text)).0 now)
    | inr later ↦
        more_prefix c t is e text (ground (arith, h, later))
          ((Decides-star c f is e d text).0 (ground (arith, h, later)))
  ],
  λ p. elim (star_cases c is e (t ∷ text) p) [
    | inl q ↦ let now = (d (t ∷ text)).1 q in ground (arith, now)
    | inr (u, text', same, a, q) ↦
        let first : t ≡ u = cc in
        let tail : text' ≡ text = cc in
        let rest : matchstar c f text ≡ true =
          (Decides-star c f is e d text).1 (subst (Prefix (star c ∷ is) e) tail q) in
        ground (arith, a, first, rest)
  ],
)

-- The empty expression, and `$`.
pub Decides-nil : Decides (matchhere []) [] false
unfolding matchhere
Decides-nil text = (
  λ h. record { word = []; rest = text; whole = refl; in_lang = done; ended = λ k. cc },
  λ p. refl,
)

pub Decides-end : Decides is_empty [] true
Decides-end [] = (
  λ h. record { word = []; rest = []; whole = refl; in_lang = done; ended = λ k. refl },
  λ p. refl,
)
Decides-end (t ∷ text) =
    (λ h. absurd (ground (arith, h)), λ p. absurd (no p.word p.rest p.whole p.in_lang p.ended))
  where
    no : (w r : List ℕ) → t ∷ text ≡ w ++ r → Lang [] w → (true ≡ true → r ≡ []) → ⊥
    no [] r h l k = ground (arith, h, k refl)
    no (u ∷ w) r h l k = elim l [ ]

pub matchhere-Decides : (re : List ℕ) → Decides (matchhere re) (items re) (at_end re)
unfolding matchhere
matchhere-Decides [] = Decides-nil
matchhere-Decides (c ∷ []) = elim (Bool-cases (c == b'$')) [
  | inl dollar ↦ λ text. rw dollar (Decides-end text)
  | inr other ↦ λ text. rw other (Decides-one c (matchhere []) [] false Decides-nil text)
]
matchhere-Decides (c ∷ s ∷ re) = elim (Bool-cases (s == b'*')) [
  | inl starred ↦ λ text.
      rw starred (Decides-star c (matchhere re) (items re) (at_end re) (matchhere-Decides re) text)
  | inr plain ↦ λ text. rw plain (
      Decides-one c (matchhere (s ∷ re)) (items (s ∷ re)) (at_end (s ∷ re))
        (matchhere-Decides (s ∷ re)) text)
]
