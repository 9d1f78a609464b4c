-- ===== src/Bio/Search.antt =====
-- bio.c: what the loops of `bget` find in the list of buffers.
use cs461_final_project_grub.Base.{
  ℕ, zero, suc, ◌≡◌, ◌≢◌, ◌<◌, refl, ap, Bool, false, ◌==◌, if◌then◌else◌, Option, none, some, List,
  [], ◌∷◌, ◌++◌, length, length-append, arith,
}
use cs461_final_project_grub.Bio.{Buf, Bcache, list_head, search}
use cs461_final_project_grub.Bio.Links.{Links, Apart, IsRing}

-- The first buffer of the list that passes the test.
abbrev pub find : (Buf → Bool) → (ℕ → Buf) → List ℕ → Option ℕ
find test buf [] = none
find test buf (b ∷ l) = if test (buf b) then some b else find test buf l

abbrev pub rev : List ℕ → List ℕ
rev [] = []
rev (b ∷ l) = rev l ++ (b ∷ [])

search-Links :
    (f : ℕ) (test : Buf → Bool) (next prev : ℕ → ℕ) (buf : ℕ → Buf) (a : ℕ) (l : List ℕ)
    → length l < f
    → Links next prev a l list_head
    → Apart list_head l
    → search f test next buf (next a) ≡ find test buf l
unfolding search
search-Links zero test n p buf a l lt h out = absurd (omega arith)
search-Links (suc f) test n p buf a [] lt h out = rw h.0 refl
search-Links (suc f) test n p buf a (b ∷ l) lt h out =
    let other : (b == list_head) ≡ false = ground (arith, out.0) in
    let more = search-Links f test n p buf b l (omega arith) h.2 out.1 in
    rw (h.0, other) (ap (λ r. if test (buf b) then some b else r) more)

Links-append :
    (next prev : ℕ → ℕ) (a : ℕ) (l1 : List ℕ) (b : ℕ) (l2 : List ℕ) (z : ℕ)
    → Links next prev a l1 b
    → Links next prev b l2 z
    → Links next prev a (l1 ++ (b ∷ l2)) z
Links-append n p a [] b l2 z h k = (h.0, h.1, k)
Links-append n p a (c ∷ l1) b l2 z h k = (h.0, h.1, Links-append n p c l1 b l2 z h.2 k)

-- Backwards, `prev` leads through the list.
Links-rev :
    (next prev : ℕ → ℕ) (a : ℕ) (l : List ℕ) (z : ℕ)
    → Links next prev a l z
    → Links prev next z (rev l) a
Links-rev n p a [] z h = (h.1, h.0)
Links-rev n p a (b ∷ l) z h = Links-append p n z (rev l) b [] a (Links-rev n p b l z h.2) (h.1, h.0)

Apart-snoc : (x : ℕ) (l : List ℕ) (b : ℕ) → Apart x l → b ≢ x → Apart x (l ++ (b ∷ []))
Apart-snoc x [] b h ne = (ne, tt)
Apart-snoc x (c ∷ l) b h ne = (h.0, Apart-snoc x l b h.1 ne)

Apart-rev : (x : ℕ) (l : List ℕ) → Apart x l → Apart x (rev l)
Apart-rev x [] h = tt
Apart-rev x (b ∷ l) h = Apart-snoc x (rev l) b (Apart-rev x l h.1) h.0

length-rev : (l : List ℕ) → length (rev l) ≡ length l
length-rev [] = refl
length-rev (b ∷ l) =
    let ih = length-rev l in let all = length-append (rev l) (b ∷ []) in omega (arith, ih, all)

-- The first loop finds the most recently used buffer that passes its test.
pub search-next :
    (f : ℕ) (test : Buf → Bool) (c : Bcache) (l : List ℕ)
    → IsRing c l
    → length l < f
    → search f test c.next c.buf (c.next list_head) ≡ find test c.buf l
search-next f test c l h lt =
    search-Links f test c.next c.prev c.buf list_head l lt h.linked h.apart

-- The second loop finds the least recently used one.
pub search-prev :
    (f : ℕ) (test : Buf → Bool) (c : Bcache) (l : List ℕ)
    → IsRing c l
    → length l < f
    → search f test c.prev c.buf (c.prev list_head) ≡ find test c.buf (rev l)
search-prev f test c l h lt =
    let size = length-rev l in
    search-Links f test c.prev c.next c.buf list_head (rev l) (omega (arith, size, lt))
      (Links-rev c.next c.prev list_head l list_head h.linked) (Apart-rev list_head l h.apart)
