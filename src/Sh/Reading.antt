-- ===== src/Sh/Reading.antt =====
-- sh.c: `gettoken` and `peek` on the tokens of a line.

use cs461_final_project_grub.Base.{
  ℕ, ◌≡◌, ◌≢◌, ◌||◌, inl, inr, refl, ap, ◌∙◌, Bool, true, false, Option, some, none, ◌==◌, List, [],
  ◌∷◌, ◌++◌, All, Bool-cases, arith,
}
use cs461_final_project_grub.Sh.{
  strchr, whitespace, symbols, skip, word, Token, greater, token, gettoken, starts, peek,
}
use cs461_final_project_grub.Sh.Grammar.{
  Plain, Word, chars, Tok, less, more, twice, bar_tok, amp, semi, open_tok, close_tok, name, text,
  value, touches, Gaps, print,
}

pub unspaced : (c : ℕ) → Plain c → strchr c whitespace ≡ false
unspaced c p = elim (Bool-cases (strchr c whitespace)) [
  | inl space ↦ absurd (let bare = p.bare in ground (arith, space, bare))
  | inr other ↦ other
]

pub skip_at : (c : ℕ) (s : List ℕ) → strchr c whitespace ≡ false → skip (c ∷ s) ≡ c ∷ s
unfolding skip
skip_at c s h = rw h refl

pub skip_none : skip [] ≡ []
unfolding skip
skip_none = refl

pub skip-print : ⦃g : Gaps⦄ (ts : List Tok) → skip (print ts) ≡ print ts
skip-print [] = skip_none
skip-print ⦃g⦄ (name w ∷ ts) =
    skip_at w.first (w.others ++ (g.gap (name w) ts ++ print ts)) (unspaced w.first w.plain.0)
skip-print (less ∷ ts) = skip_at _ _ refl
skip-print (more ∷ ts) = skip_at _ _ refl
skip-print (twice ∷ ts) = skip_at _ _ refl
skip-print (bar_tok ∷ ts) = skip_at _ _ refl
skip-print (amp ∷ ts) = skip_at _ _ refl
skip-print (semi ∷ ts) = skip_at _ _ refl
skip-print (open_tok ∷ ts) = skip_at _ _ refl
skip-print (close_tok ∷ ts) = skip_at _ _ refl

-- A stretch of white space is skipped.
pub skip_white : (l s : List ℕ) → All (λ c. strchr c whitespace ≡ true) l → skip (l ++ s) ≡ skip s
unfolding skip
skip_white [] s h = refl
skip_white (c ∷ l) s h = rw h.0 (skip_white l s h.1)

pub skip_gap : ⦃g : Gaps⦄ (t : Tok) (ts : List Tok) → skip (g.gap t ts ++ print ts) ≡ print ts
skip_gap ⦃g⦄ t ts = skip_white (g.gap t ts) (print ts) (g.white t ts) ∙ skip-print ts

-- What ends a word.
abbrev Stops : List ℕ → Type 0
Stops [] = Unit
Stops (c ∷ s) = strchr c whitespace || strchr c symbols ≡ true

word-append : (cs rest : List ℕ) → All Plain cs → Stops rest → word (cs ++ rest) ≡ (cs, rest)
unfolding word
word-append [] [] h stop = refl
word-append [] (c ∷ rest) h stop = rw stop refl
word-append (c ∷ cs) rest h stop =
    rw h.0.bare (ap (λ r. (c ∷ r.0, r.1)) (word-append cs rest h.1 stop))

print-Stops :
    ⦃g : Gaps⦄ (w : Word) (ts : List Tok) → ¬ (touches (name w) ts ≡ true) → Stops (print ts)
print-Stops w [] h = tt
print-Stops w (name v ∷ ts) h = absurd (h refl)
print-Stops w (less ∷ ts) h = refl
print-Stops w (more ∷ ts) h = refl
print-Stops w (twice ∷ ts) h = refl
print-Stops w (bar_tok ∷ ts) h = refl
print-Stops w (amp ∷ ts) h = refl
print-Stops w (semi ∷ ts) h = refl
print-Stops w (open_tok ∷ ts) h = refl
print-Stops w (close_tok ∷ ts) h = refl

gap-Stops : ⦃g : Gaps⦄ (w : Word) (ts : List Tok) → Stops (g.gap (name w) ts ++ print ts)
gap-Stops ⦃g⦄ w ts = behind (g.gap (name w) ts) (g.white (name w) ts) (g.kept (name w) ts)
  where
    behind :
        (l : List ℕ)
        → All (λ c. strchr c whitespace ≡ true) l
        → (touches (name w) ts ≡ true → l ≢ [])
        → Stops (l ++ print ts)
    behind [] white kept = print-Stops w ts (λ h. kept h refl)
    behind (c ∷ l) white kept = rw (white.0) refl

abbrev pub read : ⦃g : Gaps⦄ → Tok → List Tok → Token
read t ts = record { value = value t; text = text t; rest = print ts }

no_symbol : (c : ℕ) → Plain c → strchr c (b'|' ∷ b'(' ∷ b')' ∷ b';' ∷ b'&' ∷ b'<' ∷ []) ≡ false
no_symbol c p = let bare = p.bare in ground (arith, bare)

no_greater : (c : ℕ) → Plain c → c == b'>' ≡ false
no_greater c p = let bare = p.bare in ground (arith, bare)

token-Plain :
    (c : ℕ) (s : List ℕ)
    → Plain c
    → token (c ∷ s) ≡ record { value = b'a'; text = (word (c ∷ s)).0; rest = skip (word (c ∷ s)).1 }
unfolding token
token-Plain c s p = rw (p.char, no_symbol c p, no_greater c p) refl

token_word : ⦃g : Gaps⦄ (w : Word) (ts : List Tok) → token (print (name w ∷ ts)) ≡ read (name w) ts
token_word ⦃g⦄ w ts =
    let behind : List ℕ = g.gap (name w) ts ++ print ts in
    token-Plain w.first (w.others ++ behind) w.plain.0
    ∙ ap (λ r. record { value = b'a'; text = r.0; rest = skip r.1 })
        (word-append (chars w) behind w.plain (gap-Stops w ts))
    ∙ ap (λ r. record { value = b'a'; text = chars w; rest = r }) (skip_gap (name w) ts)

abbrev begins_greater : List ℕ → Bool
begins_greater [] = false
begins_greater (c ∷ s) = c == b'>'

-- A `>` that is not the first of two, and two of them.
two :
    (s : List ℕ)
    → greater (b'>' ∷ s) ≡ record { value = b'+'; text = b'>' ∷ b'>' ∷ []; rest = skip s }
unfolding greater
two s = refl

alone :
    (s : List ℕ)
    → begins_greater s ≡ false
    → greater s ≡ record { value = b'>'; text = b'>' ∷ []; rest = skip s }
unfolding greater skip
alone [] h = refl
alone (c ∷ s) h = rw h refl

tokens_greater :
    ⦃g : Gaps⦄ (ts : List Tok) → ¬ (touches more ts ≡ true) → begins_greater (print ts) ≡ false
tokens_greater [] h = refl
tokens_greater (name v ∷ ts) h = no_greater v.first v.plain.0
tokens_greater (less ∷ ts) h = refl
tokens_greater (more ∷ ts) h = absurd (h refl)
tokens_greater (twice ∷ ts) h = absurd (h refl)
tokens_greater (bar_tok ∷ ts) h = refl
tokens_greater (amp ∷ ts) h = refl
tokens_greater (semi ∷ ts) h = refl
tokens_greater (open_tok ∷ ts) h = refl
tokens_greater (close_tok ∷ ts) h = refl

gap_greater : ⦃g : Gaps⦄ (ts : List Tok) → begins_greater (g.gap more ts ++ print ts) ≡ false
gap_greater ⦃g⦄ ts = behind (g.gap more ts) (g.white more ts) (g.kept more ts)
  where
    behind :
        (l : List ℕ)
        → All (λ c. strchr c whitespace ≡ true) l
        → (touches more ts ≡ true → l ≢ [])
        → begins_greater (l ++ print ts) ≡ false
    behind [] white kept = tokens_greater ts (λ h. kept h refl)
    behind (c ∷ l) white kept = ground (arith, white.0)

pub token-print : ⦃g : Gaps⦄ (t : Tok) (ts : List Tok) → token (print (t ∷ ts)) ≡ read t ts
unfolding token
token-print (name w) ts = token_word w ts
token-print ⦃g⦄ more ts =
    alone (g.gap more ts ++ print ts) (gap_greater ts)
    ∙ ap (λ s. record { value = b'>'; text = b'>' ∷ []; rest = s }) (skip_gap more ts)
token-print ⦃g⦄ twice ts =
    two (g.gap twice ts ++ print ts)
    ∙ ap (λ s. record { value = b'+'; text = b'>' ∷ b'>' ∷ []; rest = s }) (skip_gap twice ts)
token-print less ts =
    ap (λ s. record { value = b'<'; text = b'<' ∷ []; rest = s }) (skip_gap less ts)
token-print bar_tok ts =
    ap (λ s. record { value = b'|'; text = b'|' ∷ []; rest = s }) (skip_gap bar_tok ts)
token-print amp ts = ap (λ s. record { value = b'&'; text = b'&' ∷ []; rest = s }) (skip_gap amp ts)
token-print semi ts =
    ap (λ s. record { value = b';'; text = b';' ∷ []; rest = s }) (skip_gap semi ts)
token-print open_tok ts =
    ap (λ s. record { value = b'('; text = b'(' ∷ []; rest = s }) (skip_gap open_tok ts)
token-print close_tok ts =
    ap (λ s. record { value = b')'; text = b')' ∷ []; rest = s }) (skip_gap close_tok ts)

pub gettoken-print : ⦃g : Gaps⦄ (t : Tok) (ts : List Tok) → gettoken (print (t ∷ ts)) ≡ read t ts
unfolding gettoken
gettoken-print t ts = rw (skip-print (t ∷ ts)) (token-print t ts)

-- White space in front of a line changes neither.
pub peek_white :
    (l s toks : List ℕ) → All (λ c. strchr c whitespace ≡ true) l → peek (l ++ s) toks ≡ peek s toks
unfolding peek
peek_white l s toks h = ap (λ r. starts r toks) (skip_white l s h)

pub gettoken_white :
    (l s : List ℕ) → All (λ c. strchr c whitespace ≡ true) l → gettoken (l ++ s) ≡ gettoken s
unfolding gettoken
gettoken_white l s h = ap token (skip_white l s h)

-- Which of the separators begins a line of tokens.
abbrev pub separator : Tok → Option ℕ
separator less = some b'<'
separator more = some b'>'
separator twice = some b'>'
separator bar_tok = some b'|'
separator amp = some b'&'
separator semi = some b';'
separator open_tok = some b'('
separator close_tok = some b')'
separator (name w) = none

abbrev pub found : Option ℕ → List ℕ → Bool
found none toks = false
found (some c) toks = strchr c toks

abbrev pub opens : Tok → List ℕ → Bool
opens t toks = found (separator t) toks

abbrev pub begins : List Tok → List ℕ → Bool
begins [] toks = false
begins (t ∷ ts) toks = opens t toks

pub starts-print :
    ⦃g : Gaps⦄ (ts : List Tok) (toks : List ℕ)
    → ((c : ℕ) → Plain c → strchr c toks ≡ false)
    → starts (print ts) toks ≡ begins ts toks
starts-print [] toks h = refl
starts-print (name w ∷ ts) toks h = rw (h w.first w.plain.0, w.plain.0.char) refl
starts-print (less ∷ ts) toks h = refl
starts-print (more ∷ ts) toks h = refl
starts-print (twice ∷ ts) toks h = refl
starts-print (bar_tok ∷ ts) toks h = refl
starts-print (amp ∷ ts) toks h = refl
starts-print (semi ∷ ts) toks h = refl
starts-print (open_tok ∷ ts) toks h = refl
starts-print (close_tok ∷ ts) toks h = refl

pub peek-print :
    ⦃g : Gaps⦄ (ts : List Tok) (toks : List ℕ)
    → ((c : ℕ) → Plain c → strchr c toks ≡ false)
    → peek (print ts) toks ≡ begins ts toks
unfolding peek
peek-print ts toks h = rw (skip-print ts) (starts-print ts toks h)

pub no_angle : (c : ℕ) → Plain c → strchr c (b'<' ∷ b'>' ∷ []) ≡ false
no_angle c p = let bare = p.bare in ground (arith, bare)

pub no_stop : (c : ℕ) → Plain c → strchr c (b'|' ∷ b')' ∷ b'&' ∷ b';' ∷ []) ≡ false
no_stop c p = let bare = p.bare in ground (arith, bare)

pub no_one : (c d : ℕ) → strchr d symbols ≡ true → Plain c → strchr c (d ∷ []) ≡ false
no_one c d h p = let bare = p.bare in ground (arith, bare, h)
