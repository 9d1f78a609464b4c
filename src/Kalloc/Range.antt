-- ===== src/Kalloc/Range.antt =====
-- `freerange` and `kinit1`: which pages the allocator starts with.
use cs461_final_project_grub.Base.{
  ℕ, zero, suc, ◌+◌, ◌-◌, ◌/◌, ◌%◌, ◌^◌, ◌≡◌, ◌≤◌, ◌<◌, inl, inr, refl, false, leb, Result, ok,
  List, [], ◌∷◌, All, arith, Bool-cases,
}
use cs461_final_project_grub.Kalloc.{
  Kmem, pgsize, phystop, kernbase, pgroundup, free_from, freerange, kinit1,
}
use cs461_final_project_grub.Kalloc.Freelist.{IsFree, IsPage, NotIn, freed, kfree_lem}

-- The `n` pages from `p` on, the last one first, before `xs`.
unfoldable pub pages_onto : ℕ → ℕ → List ℕ → List ℕ
pages_onto zero p xs = xs
pages_onto (suc n) p xs = pages_onto n (p + pgsize) (p ∷ xs)

NotIn-below : (p : ℕ) (xs : List ℕ) → All (λ x. x < p) xs → NotIn p xs
NotIn-below p [] h = tt
NotIn-below p (x ∷ xs) h = (λ e. omega (arith, h.0), NotIn-below p xs h.1)

All-lt : (p q : ℕ) (xs : List ℕ) → p ≤ q → All (λ x. x < p) xs → All (λ x. x < q) xs
All-lt p q [] le h = tt
All-lt p q (x ∷ xs) le h = (omega (arith, h.0), All-lt p q xs le h.1)

-- `r` is a success that leaves `xs` free.
pub data Leaves (end : ℕ) (xs : List ℕ) : Result Kmem → Type 0 where
  leaves : {k : Kmem} → IsFree end k xs → Leaves end xs (ok k)

-- The bytes from `p` to `vend` lie in the mapped physical memory above the kernel.
pub record InMemory (end p vend : ℕ) : Type 0 where
  pub aligned : p % pgsize ≡ 0
  pub above : end ≤ p
  pub mapped : kernbase ≤ p
  pub start_below : p ≤ kernbase + phystop
  pub end_below : vend ≤ kernbase + phystop

free_from_lem :
    (fuel end p vend : ℕ) (k : Kmem) (xs : List ℕ)
    → InMemory end p vend
    → (vend - p) / pgsize < fuel
    → All (λ x. x < p) xs
    → IsFree end k xs
    → Leaves end (pages_onto ((vend - p) / pgsize) p xs) (free_from fuel end p vend k)
unfolding free_from pages_onto
free_from_lem zero end p vend k xs m f low free = absurd (omega arith)
free_from_lem (suc fuel) end p vend k xs m f low free =
    elim (Bool-cases (leb ((p + pgsize) % 2 ^ 64) vend)) [
      | inl more ↦
          let room : (vend - p) / pgsize ≡ suc ((vend - (p + pgsize)) / pgsize) = ground arith in
          let page : IsPage end p = ground arith in
          let fits : (p + pgsize) % 2 ^ 64 ≡ p + pgsize = ground arith in
          let (stored, free') = (kfree_lem end p k xs free (NotIn-below p xs low)).0 page in
          rw (more, stored)
            (rw (room, fits)
              (free_from_lem fuel end (p + pgsize) vend (freed p k) (p ∷ xs) (ground arith)
                (ground arith) (omega arith, All-lt p (p + pgsize) xs (omega arith) low) free'))
      | inr stop ↦
          let none_left : (vend - p) / pgsize ≡ 0 = ground arith in
          rw (none_left, stop) (leaves free)
    ]

-- `kinit1` on a range of mapped memory above the kernel ends without a panic, with fuel to spare,
-- and leaves as free pages exactly the whole pages of the range, each once, the highest first.
pub kinit1_lem :
    (end vstart vend : ℕ) (k : Kmem)
    → InMemory end (pgroundup vstart) vend
    → Leaves end
        (pages_onto ((vend - pgroundup vstart) / pgsize) (pgroundup vstart) [])
        (kinit1 end vstart vend k)
unfolding kinit1 freerange
kinit1_lem end vstart vend k m =
    free_from_lem ((vend - pgroundup vstart) / pgsize + 1) end (pgroundup vstart) vend
      (record k { use_lock = false; freelist = 0 }) [] m (omega arith) tt
      (record { chain = refl; distinct = tt; pages = tt })
