-- ===== src/Bio/Cache.antt =====
-- bio.c: no block is cached twice, and an unlocked buffer agrees with the disk.
use mathlib.Core.Path.{subst}
use cs461_final_project_grub.Base.{
  ℕ, ◌≡◌, ◌≢◌, ◌≤◌, ◌⊎◌, inl, inr, ap, sym, ◌∙◌, Bool, true, false, ◌==◌, if◌then◌else◌, Option,
  none, some, List, [], ◌∷◌, ◌++◌, length, update, Bool-cases, arith,
}
use cs461_final_project_grub.Bio.{Block, Buf, Bcache, Disk, nbuf, set_buf}
use cs461_final_project_grub.Bio.Links.{IsRing}
use cs461_final_project_grub.Bio.Search.{find, rev}

abbrev pub In : ℕ → List ℕ → Type 0
In i [] = ⊥
In i (x ∷ l) = (i ≡ x) ⊎ In i l

-- What a valid buffer promises while no process holds its lock.
pub record Settled (d : Disk) (v : Buf) : Type 0 where
  pub device : v.valid ≡ true → v.dev ≡ 1
  pub coherent :
      v.valid ≡ true → v.dirty ≡ false → v.lock.locked ≡ false → v.data_of ≡ d.block v.blockno

-- The buffers are those of the list. Device 0 is that of a buffer that has not been used.
pub record IsCached (d : Disk) (c : Bcache) (l : List ℕ) : Type 0 where
  pub ring : IsRing c l
  pub few : length l ≤ nbuf
  pub alone :
      (i j : ℕ)
      → In i l
      → In j l
      → i ≢ j
      → (c.buf i).dev ≡ (c.buf j).dev
      → (c.buf i).blockno ≡ (c.buf j).blockno
      → (c.buf i).dev ≡ 0
  pub settled : (i : ℕ) → In i l → Settled d (c.buf i)

pub find-some :
    (test : Buf → Bool) (buf : ℕ → Buf) (l : List ℕ) (b : ℕ)
    → find test buf l ≡ some b
    → In b l × (test (buf b) ≡ true)
find-some test buf [] b e = absurd (ground (arith, e))
find-some test buf (x ∷ l) b e = elim (Bool-cases (test (buf x))) [
  | inl hit ↦
      let same : x ≡ b = some_eq (ap (λ t. if t then some x else find test buf l) (sym hit) ∙ e) in
      (inl (sym same), subst (λ y. test (buf y) ≡ true) same hit)
  | inr miss ↦
      let rest =
        find-some test buf l b (ap (λ t. if t then some x else find test buf l) (sym miss) ∙ e) in
      (inr rest.0, rest.1)
]
  where
    some_eq : {x y : ℕ} → ◌≡◌ {A = Option ℕ} (some x) (some y) → x ≡ y
    some_eq {x} e = ap (λ o. elim o [ none ↦ x | some z ↦ z ]) e

pub find-none :
    (test : Buf → Bool) (buf : ℕ → Buf) (l : List ℕ) (i : ℕ)
    → find test buf l ≡ none
    → In i l
    → test (buf i) ≡ false
find-none test buf [] i e h = absurd h
find-none test buf (x ∷ l) i e h = elim (Bool-cases (test (buf x))) [
  | inl hit ↦
      absurd (
        let no = ap (λ t. if t then some x else find test buf l) (sym hit) ∙ e in
        ground (arith, no))
  | inr miss ↦ elim h [
    | inl same ↦ subst (λ y. test (buf y) ≡ false) (sym same) miss
    | inr more ↦
        find-none test buf l i (ap (λ t. if t then some x else find test buf l) (sym miss) ∙ e) more
  ]
]

In-snoc : (i : ℕ) (l : List ℕ) (b : ℕ) → In i (l ++ (b ∷ [])) → In i (b ∷ l)
In-snoc i [] b h = h
In-snoc i (c ∷ l) b (inl e) = inr (inl e)
In-snoc i (c ∷ l) b (inr h) = elim (In-snoc i l b h) [ inl e ↦ inl e | inr k ↦ inr (inr k) ]

pub In-rev : (i : ℕ) (l : List ℕ) → In i (rev l) → In i l
In-rev i [] h = h
In-rev i (b ∷ l) h = elim (In-snoc i (rev l) b h) [ inl e ↦ inl e | inr k ↦ inr (In-rev i l k) ]

In-back : (i : ℕ) (l : List ℕ) (b : ℕ) → In i (b ∷ l) → In i (l ++ (b ∷ []))
In-back i [] b h = h
In-back i (c ∷ l) b (inl e) = inr (In-back i l b (inl e))
In-back i (c ∷ l) b (inr (inl e)) = inl e
In-back i (c ∷ l) b (inr (inr h)) = inr (In-back i l b (inr h))

pub rev-In : (i : ℕ) (l : List ℕ) → In i l → In i (rev l)
rev-In i [] h = h
rev-In i (b ∷ l) (inl e) = In-back i (rev l) b (inl e)
rev-In i (b ∷ l) (inr h) = In-back i (rev l) b (inr (rev-In i l h))

-- A write to a buffer that keeps its promise and has its block for itself.
pub set-IsCached :
    (d : Disk) (c : Bcache) (l : List ℕ) (b : ℕ) (v : Buf)
    → IsCached d c l
    → ((j : ℕ) → In j l → j ≢ b → v.dev ≡ (c.buf j).dev → v.blockno ≡ (c.buf j).blockno → v.dev ≡ 0)
    → Settled d v
    → IsCached d (set_buf c b v) l
set-IsCached d c l b v h own s = record {
  ring = record { linked = h.ring.linked; once = h.ring.once; apart = h.ring.apart };
  few = h.few;
  alone = λ i j hi hj ne. elim (Bool-cases (i == b)) [
    | inl ib ↦ elim (Bool-cases (j == b)) [
      | inl jb ↦ absurd (ground (arith, ib, jb, ne))
      | inr jn ↦ rw (ib, jn) (own j hj (ground (arith, jn)))
    ]
    | inr in' ↦ elim (Bool-cases (j == b)) [
      | inl jb ↦ rw (in', jb) (λ e e'. e ∙ own i hi (ground (arith, in')) (sym e) (sym e'))
      | inr jn ↦ rw (in', jn) (h.alone i j hi hj ne)
    ]
  ];
  settled =
      λ i hi. elim (Bool-cases (i == b)) [ inl ib ↦ rw ib s | inr in' ↦ rw in' (h.settled i hi) ];
}

-- The buffer `b` keeps its block.
pub keep-IsCached :
    (d : Disk) (c : Bcache) (l : List ℕ) (b : ℕ) (v : Buf)
    → IsCached d c l
    → In b l
    → v.dev ≡ (c.buf b).dev
    → v.blockno ≡ (c.buf b).blockno
    → Settled d v
    → IsCached d (set_buf c b v) l
keep-IsCached d c l b v h hb e e' s =
    set-IsCached d c l b v h
      (λ j hj ne same same'.
        e ∙ h.alone b j hb hj (λ q. ne (sym q)) (sym e ∙ same) (sym e' ∙ same'))
      s

-- A write of a locked buffer to the disk.
pub disk-IsCached :
    (d : Disk) (c : Bcache) (l : List ℕ) (b : ℕ) (x : Block)
    → IsCached d c l
    → In b l
    → (c.buf b).dev ≡ 1
    → (c.buf b).lock.locked ≡ true
    → IsCached (record d { block = update d.block (c.buf b).blockno x }) c l
disk-IsCached d c l b x h hb one held = record {
  ring = h.ring;
  few = h.few;
  alone = h.alone;
  settled = λ i hi. record {
    device = (h.settled i hi).device;
    coherent = λ val clean free. elim (Bool-cases ((c.buf i).blockno == (c.buf b).blockno)) [
      | inl same ↦ absurd (elim (Bool-cases (i == b)) [
        | inl ib ↦
            let e = ap (λ k. (c.buf k).lock.locked) (==_eq i b ib) in ground (arith, e, held, free)
        | inr in' ↦
            let dev = (h.settled i hi).device val in
            let nought =
              h.alone i b hi hb (ground (arith, in')) (dev ∙ sym one) (ground (arith, same)) in
            omega (arith, dev, nought)
      ])
      | inr other ↦ rw other ((h.settled i hi).coherent val clean free)
    ];
  };
}
  where
    ==_eq : (i b : ℕ) → i == b ≡ true → i ≡ b
    ==_eq i b e = ground (arith, e)
