-- ===== src/Bio/Links.antt =====
-- bio.c: stretches of the doubly linked list of buffers.

use cs461_final_project_grub.Base.{
  ℕ, ◌≡◌, ◌≢◌, sym, ◌∙◌, List, [], ◌∷◌, ◌++◌, update, update_ne, All, arith,
}
use cs461_final_project_grub.Bio.{Bcache, list_head}

-- From `a`, `next` leads through the list to `z`, and `prev` back.
abbrev pub Links : (next prev : ℕ → ℕ) (a : ℕ) → List ℕ → (z : ℕ) → Type 0
Links next prev a [] z = (next a ≡ z) × (prev z ≡ a)
Links next prev a (b ∷ l) z = (next a ≡ b) × (prev b ≡ a) × Links next prev b l z

-- No number stands twice.
abbrev pub Once : List ℕ → Type 0
Once [] = Unit
Once (x ∷ l) = All (λ y. y ≢ x) l × Once l

abbrev pub Apart : ℕ → List ℕ → Type 0
Apart x l = All (λ y. y ≢ x) l

pub record IsRing (c : Bcache) (l : List ℕ) : Type 0 where
  pub linked : Links c.next c.prev list_head l list_head
  pub once : Once l
  pub apart : Apart list_head l

-- Writes to other places leave a stretch of the list as it is.
pub Links-frame :
    (next prev next' prev' : ℕ → ℕ) (a : ℕ) (l : List ℕ) (z : ℕ)
    → next' a ≡ next a
    → All (λ y. next' y ≡ next y) l
    → All (λ y. prev' y ≡ prev y) l
    → prev' z ≡ prev z
    → Links next prev a l z
    → Links next' prev' a l z
Links-frame n p n' p' a [] z ha hn hp hz h = (ha ∙ h.0, hz ∙ h.1)
Links-frame n p n' p' a (b ∷ l) z ha hn hp hz h =
    (ha ∙ h.0, hp.0 ∙ h.1, Links-frame n p n' p' b l z hn.0 hn.1 hp.1 hz h.2)

pub All_update : (f : ℕ → ℕ) (i v : ℕ) (l : List ℕ) → Apart i l → All (λ y. update f i v y ≡ f y) l
All_update f i v [] h = tt
All_update f i v (x ∷ l) h = (ground (arith, h.0), All_update f i v l h.1)

-- The last of the list behind `a`, and the first of the list in front of `z`.
abbrev pub last : ℕ → List ℕ → ℕ
last a [] = a
last a (b ∷ l) = last b l

abbrev pub first : List ℕ → ℕ → ℕ
first [] z = z
first (b ∷ l) z = b

pub Links-last :
    (next prev : ℕ → ℕ) (a : ℕ) (l : List ℕ) (z : ℕ) → Links next prev a l z → prev z ≡ last a l
Links-last n p a [] z h = h.1
Links-last n p a (b ∷ l) z h = Links-last n p b l z h.2

pub Links-first :
    (next prev : ℕ → ℕ) (a : ℕ) (l : List ℕ) (z : ℕ) → Links next prev a l z → next a ≡ first l z
Links-first n p a [] z h = h.0
Links-first n p a (b ∷ l) z h = h.0

pub Links-split :
    (next prev : ℕ → ℕ) (a : ℕ) (l1 : List ℕ) (b : ℕ) (l2 : List ℕ) (z : ℕ)
    → Links next prev a (l1 ++ (b ∷ l2)) z
    → Links next prev a l1 b × Links next prev b l2 z
Links-split n p a [] b l2 z h = ((h.0, h.1), h.2)
Links-split n p a (c ∷ l1) b l2 z h =
    let rest = Links-split n p c l1 b l2 z h.2 in ((h.0, h.1, rest.0), rest.1)

pub last-Apart : (x c : ℕ) (l r : List ℕ) → c ≢ x → Apart x (l ++ r) → last c l ≢ x
last-Apart x c [] r hc h = hc
last-Apart x c (d ∷ l) r hc h = last-Apart x d l r h.0 h.1

pub first-Apart :
    (x z : ℕ) (l1 : List ℕ) (b : ℕ) (l2 : List ℕ)
    → z ≢ x
    → Apart x (l1 ++ (b ∷ l2))
    → first l2 z ≢ x
first-Apart x z [] b [] hz h = hz
first-Apart x z [] b (d ∷ l2) hz h = h.1.0
first-Apart x z (c ∷ l1) b l2 hz h = first-Apart x z l1 b l2 hz h.1

-- The list without `b`, where the two places next to `b` are joined.
pub Links-without :
    (next prev : ℕ → ℕ) (a : ℕ) (l1 : List ℕ) (b : ℕ) (l2 : List ℕ) (z : ℕ)
    → Links next prev a (l1 ++ (b ∷ l2)) z
    → Apart a (l1 ++ (b ∷ l2))
    → Apart z (l1 ++ (b ∷ l2))
    → Once (l1 ++ (b ∷ l2))
    → Links
        (update next (last a l1) (first l2 z))
        (update prev (first l2 z) (last a l1))
        a
        (l1 ++ l2)
        z
Links-without n p a [] b [] z h ha hz once = (ground arith, ground arith)
Links-without n p a [] b (d ∷ l2) z h ha hz once = (
  ground arith,
  ground arith,
  Links-frame n p (update n a d) (update p d a) d l2 z (ground (arith, ha.1.0))
      (All_update n a d l2 ha.1.1) (All_update p d a l2 once.1.0) (ground (arith, hz.1.0)) h.2.2,
)
Links-without n p a (c ∷ l1) b l2 z h ha hz once =
    let ne = last-Apart a c l1 (b ∷ l2) ha.0 ha.1 in
    let ne' = first-Apart c z l1 b l2 (λ e. hz.0 (sym e)) once.0 in
    (
      update_ne n (last c l1) a (first l2 z) (λ e. ne (sym e)) ∙ h.0,
      update_ne p (first l2 z) c (last c l1) (λ e. ne' (sym e)) ∙ h.1,
      Links-without n p c l1 b l2 z h.2 once.0 hz.1 once.1,
    )

pub Apart-without :
    (x : ℕ) (l1 : List ℕ) (b : ℕ) (l2 : List ℕ) → Apart x (l1 ++ (b ∷ l2)) → Apart x (l1 ++ l2)
Apart-without x [] b l2 h = h.1
Apart-without x (c ∷ l1) b l2 h = (h.0, Apart-without x l1 b l2 h.1)

pub Once-without : (l1 : List ℕ) (b : ℕ) (l2 : List ℕ) → Once (l1 ++ (b ∷ l2)) → Once (l1 ++ l2)
Once-without [] b l2 h = h.1
Once-without (c ∷ l1) b l2 h = (Apart-without c l1 b l2 h.0, Once-without l1 b l2 h.1)

-- The one taken out of the list is apart from what is left.
pub Apart-out : (l1 : List ℕ) (b : ℕ) (l2 : List ℕ) → Once (l1 ++ (b ∷ l2)) → Apart b (l1 ++ l2)
Apart-out [] b l2 h = h.0
Apart-out (c ∷ l1) b l2 h = (λ e. Apart_in c l1 b l2 h.0 (sym e), Apart-out l1 b l2 h.1)
  where
    Apart_in : (x : ℕ) (l1 : List ℕ) (b : ℕ) (l2 : List ℕ) → Apart x (l1 ++ (b ∷ l2)) → b ≢ x
    Apart_in x [] b l2 h = h.0
    Apart_in x (c ∷ l1) b l2 h = Apart_in x l1 b l2 h.1

pub Apart-mid : (x : ℕ) (l1 : List ℕ) (b : ℕ) (l2 : List ℕ) → Apart x (l1 ++ (b ∷ l2)) → b ≢ x
Apart-mid x [] b l2 h = h.0
Apart-mid x (c ∷ l1) b l2 h = Apart-mid x l1 b l2 h.1

pub Apart-behind : (x : ℕ) (l1 l2 : List ℕ) → Apart x (l1 ++ l2) → Apart x l2
Apart-behind x [] l2 h = h
Apart-behind x (c ∷ l1) l2 h = Apart-behind x l1 l2 h.1

pub first_out : (x z : ℕ) (l : List ℕ) → z ≢ x → Apart x l → first l z ≢ x
first_out x z [] hz h = hz
first_out x z (d ∷ l) hz h = h.0
