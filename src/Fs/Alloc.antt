-- ===== src/Fs/Alloc.antt =====
-- The bitmap of free blocks: what `balloc` and `bfree` do to it.
use mathlib.Core.Path.{subst}
use cs461_final_project_grub.Base.{
  ℕ, zero, suc, ◌+◌, ◌*◌, ◌/◌, ◌%◌, ◌≡◌, ◌≢◌, ◌≤◌, ◌<◌, inl, inr, refl, ap, sym, ◌∙◌, false, ltb,
  ◌==◌, if◌then◌else◌, Option, none, some, Result, ok, panic, arith, Bool-cases,
}
use cs461_final_project_grub.Fs.Bits.{bit-set_bit}
use cs461_final_project_grub.Fs.Disk.{
  Bytes, Disk, Superblock, log_block, bsize, bpb, bzero, bblock, bit, set_bit, free_bit,
  balloc_from, balloc,
}

-- What the search of a bitmap block comes to.
data FoundBit (k b bi size : ℕ) (s : Bytes) : Option ℕ → Type 0 where
  free :
      (j : ℕ) → bi ≤ j → j < bi + k → b + j < size → bit s j ≡ 0 → FoundBit k b bi size s (some j)
  none_free :
      ((j : ℕ) → bi ≤ j → j < bi + k → b + j < size → bit s j ≢ 0) → FoundBit k b bi size s none

free_bit-FoundBit : (k b bi size : ℕ) (s : Bytes) → FoundBit k b bi size s (free_bit k b bi size s)
unfolding free_bit
free_bit-FoundBit zero b bi size s = none_free (λ j h l r. absurd (omega arith))
free_bit-FoundBit (suc k) b bi size s = elim (Bool-cases (ltb (b + bi) size)) [
  | inr past ↦ rw past (none_free (λ j h l r. absurd (ground (arith, past))))
  | inl inside ↦ elim (Bool-cases (bit s bi == 0)) [
    | inl clear ↦
        rw (inside, clear)
          (free bi (omega arith) (omega arith) (ground (arith, inside)) (ground (arith, clear)))
    | inr used ↦
        rw (inside, used)
          (later (free_bit k b (bi + 1) size s) (ground (arith, used))
            (free_bit-FoundBit k b (bi + 1) size s))
  ]
]
  where
    later :
        (r : Option ℕ)
        → bit s bi ≢ 0
        → FoundBit k b (bi + 1) size s r
        → FoundBit (suc k) b bi size s r
    later _ ne (free j l h i e) = free j (omega arith) (omega arith) i e
    later _ ne (none_free f) = none_free (λ j l h i. elim (Bool-cases (j == bi)) [
      | inl here ↦ ground (arith, here)
      | inr other ↦ f j (ground (arith, other)) (omega arith) i
    ])

-- The bit of block `x`: 0 where the block is free.
abbrev pub in_use : Superblock → Disk → ℕ → ℕ
in_use sb d x = bit (d.block (bblock x sb)) (x % bpb)

-- What an allocation may come to.
pub data Allocated (sb : Superblock) (d : Disk) : Result (ℕ × Disk) → Type 0 where
  block :
      (b : ℕ) (d' : Disk)
      → b < sb.size
      → in_use sb d b ≡ 0
      → ((x : ℕ) → x < sb.size → in_use sb d' x ≡ (if x == b then 1 else in_use sb d x))
      → ((i : ℕ) → i < bsize → d'.block b i ≡ 0)
      → ((x : ℕ) → x ≢ b → x ≢ bblock b sb → d'.block x ≡ d.block x)
      → Allocated sb d (ok (b, d'))
  full : ((x : ℕ) → x < sb.size → in_use sb d x ≢ 0) → Allocated sb d panic

-- The blocks of the bitmap are themselves in use.
abbrev pub IsMarked : Superblock → Disk → Type 0
IsMarked sb d = (x : ℕ) → x < sb.size → (bblock x sb < sb.size) × (in_use sb d (bblock x sb) ≢ 0)

-- The disk after an allocation of block `b`.
abbrev taken : Superblock → Disk → ℕ → ℕ → Disk
taken sb d b j = bzero (b + j) (log_block (bblock b sb) (set_bit (d.block (bblock b sb)) j) d)

-- The bitmap block of an allocated block, and the others.
taken_bits :
    (sb : Superblock) (d : Disk) (q j x : ℕ)
    → j < bpb
    → bblock x sb ≢ q * bpb + j
    → bit (d.block (bblock (q * bpb) sb)) j ≡ 0
    → in_use sb (taken sb d (q * bpb) j) x ≡ (if x == q * bpb + j then 1 else in_use sb d x)
unfolding bzero log_block
taken_bits sb d q j x lt ne e =
    let m : ℕ = bblock (q * bpb) sb in
    let miss : (bblock x sb == q * bpb + j) ≡ false = ground (arith, ne) in
    elim (Bool-cases (bblock x sb == m)) [
      | inl same ↦
          let at : bblock x sb ≡ m = ground (arith, same) in
          let set : bit (set_bit (d.block m) j) (x % bpb)
              ≡ (if x % bpb == j then 1 else bit (d.block m) (x % bpb)) =
            bit-set_bit (d.block m) j (x % bpb) e in
          let before : in_use sb d x ≡ bit (d.block m) (x % bpb) =
            ap (λ y. bit (d.block y) (x % bpb)) at in
          let whole : (x % bpb == j) ≡ (x == q * bpb + j) = elim (Bool-cases (x % bpb == j)) [
            | inl y ↦ ground (arith, y, at)
            | inr n ↦ ground (arith, n)
          ] in
          rw (miss, same)
            (set
              ∙ ap (λ c. if c then 1 else bit (d.block m) (x % bpb)) whole
              ∙ ap (λ v. if x == q * bpb + j then 1 else v) (sym before))
      | inr other ↦
          let no : (x == q * bpb + j) ≡ false = ground (arith, other) in rw (miss, other, no) refl
    ]

taken-Allocated :
    (sb : Superblock) (d : Disk) (q j : ℕ)
    → IsMarked sb d
    → j < bpb
    → q * bpb + j < sb.size
    → bit (d.block (bblock (q * bpb) sb)) j ≡ 0
    → Allocated sb d (ok (q * bpb + j, taken sb d (q * bpb) j))
unfolding bzero log_block
taken-Allocated sb d q j marked lt inside e =
    let b : ℕ = q * bpb + j in
    let at : bblock (q * bpb) sb ≡ bblock b sb = omega arith in
    let index : b % bpb ≡ j = omega arith in
    let clear : in_use sb d b ≡ 0 =
      ap (λ y. bit (d.block y) (b % bpb)) (sym at)
      ∙ ap (bit (d.block (bblock (q * bpb) sb))) index
      ∙ e in
    block b (taken sb d (q * bpb) j) inside clear
      (λ x h. taken_bits sb d q j x lt (λ hit. (marked x h).1 (ap (in_use sb d) hit ∙ clear)) e)
      (λ i h. ground arith) (λ x ne other. ground (arith, at))

balloc_from-Allocated :
    (sb : Superblock) (d : Disk)
    → IsMarked sb d
    → (k q : ℕ) → sb.size ≤ (q + k) * bpb
    → ((x : ℕ) → x < sb.size → x < q * bpb → in_use sb d x ≢ 0)
    → Allocated sb d (balloc_from k (q * bpb) sb d)
unfolding balloc_from
balloc_from-Allocated sb d marked zero q enough before = full (λ x h. before x h (omega arith))
balloc_from-Allocated sb d marked (suc k) q enough before =
    elim (Bool-cases (ltb (q * bpb) sb.size)) [
      | inr past ↦ rw past (full (λ x h. before x h (ground (arith, past))))
      | inl inside ↦ rw inside (
          searched (free_bit bpb (q * bpb) 0 sb.size (d.block (bblock (q * bpb) sb)))
            (λ used. balloc_from-Allocated sb d marked k (q + 1) (omega arith) used)
            (free_bit-FoundBit bpb (q * bpb) 0 sb.size (d.block (bblock (q * bpb) sb))))
    ]
  where
    next : (q + 1) * bpb ≡ q * bpb + bpb
    next = omega arith

    used :
        ((j : ℕ)
          → 0 ≤ j
          → j < 0 + bpb
          → q * bpb + j < sb.size
          → bit (d.block (bblock (q * bpb) sb)) j ≢ 0)
        → (x : ℕ) → x < sb.size
        → x < (q + 1) * bpb
        → in_use sb d x ≢ 0
    used f x h lt = elim (Bool-cases (ltb x (q * bpb))) [
      | inl low ↦ before x h (ground (arith, low))
      | inr high ↦
          let at : bblock (q * bpb) sb ≡ bblock x sb = ground (arith, high) in
          subst (λ m. bit (d.block m) (x % bpb) ≢ 0) at
            (f (x % bpb) (omega arith) (omega arith) (ground (arith, high)))
    ]

    searched :
        (r : Option ℕ)
        → (((x : ℕ) → x < sb.size → x < (q + 1) * bpb → in_use sb d x ≢ 0)
            → Allocated sb d (balloc_from k ((q + 1) * bpb) sb d))
        → FoundBit bpb (q * bpb) 0 sb.size (d.block (bblock (q * bpb) sb)) r
        → Allocated sb d (elim r [
          | none ↦ balloc_from k (q * bpb + bpb) sb d
          | some bi ↦ ok (
            q * bpb + bi,
            bzero
                (q * bpb + bi)
                (log_block (bblock (q * bpb) sb) (set_bit (d.block (bblock (q * bpb) sb)) bi) d),
          )
        ])
    searched _ rest (free j l h i e) = taken-Allocated sb d q j marked h i e
    searched _ rest (none_free f) =
        subst (λ b. Allocated sb d (balloc_from k b sb d)) next (rest (used f))

-- On a disk whose bitmap is marked as used, `balloc` panics just where no block of the file system is
-- free. Else it returns a free block: its bit, and no other, becomes set, the block is zeroed, and
-- no block but this one and its bitmap block changes.
pub balloc-Allocated : (sb : Superblock) (d : Disk) → IsMarked sb d → Allocated sb d (balloc sb d)
unfolding balloc
balloc-Allocated sb d marked =
    subst (λ b. Allocated sb d (balloc_from (sb.size / bpb + 2) b sb d)) start
      (balloc_from-Allocated sb d marked (sb.size / bpb + 2) 0 (omega arith)
        (λ x h lt. absurd (omega arith)))
  where
    start : 0 * bpb ≡ 0
    start = refl
