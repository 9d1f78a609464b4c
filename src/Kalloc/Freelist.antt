-- ===== src/Kalloc/Freelist.antt =====
-- `kfree` and `kalloc` on the list of free pages: what is freed can be allocated, and once only.
use cs461_final_project_grub.Base.{
  ℕ, ◌%◌, ◌≡◌, ◌≢◌, ◌≤◌, ◌<◌, refl, update, update_self, ok, panic, List, [], ◌∷◌, All, arith,
}
use cs461_final_project_grub.Kalloc.{Kmem, kfree, kalloc, pgsize, phystop, v2p}

-- From `p` the `next` words lead through the pages `xs` to a null pointer.
abbrev pub Chain : (ℕ → ℕ) → ℕ → List ℕ → Type 0
Chain next p [] = p ≡ 0
Chain next p (x ∷ xs) = (p ≡ x) × Chain next (next x) xs

abbrev pub NotIn : ℕ → List ℕ → Type 0
NotIn v xs = All (λ x. x ≢ v) xs

abbrev pub Distinct : List ℕ → Type 0
Distinct [] = Unit
Distinct (x ∷ xs) = NotIn x xs × Distinct xs

-- A page that `kfree` takes: aligned, above the kernel and below the end of memory.
abbrev pub IsPage : ℕ → ℕ → Type 0
IsPage end v = (v % pgsize ≡ 0) × (end ≤ v) × (v2p v < phystop)

-- The free pages are `xs`: the list leads through them, each once.
pub record IsFree (end : ℕ) (k : Kmem) (xs : List ℕ) : Type 0 where
  pub chain : Chain k.next k.freelist xs
  pub distinct : Distinct xs
  pub pages : All (IsPage end) xs

Chain-update :
    (next : ℕ → ℕ) (p v w : ℕ) (xs : List ℕ)
    → NotIn v xs
    → Chain next p xs
    → Chain (update next v w) p xs
Chain-update next p v w [] out c = c
Chain-update next p v w (x ∷ xs) out c =
    (c.0, ground (arith, Chain-update next (next x) v w xs out.1 c.1))

-- What `kfree` leaves.
abbrev pub freed : ℕ → Kmem → Kmem
freed v k = record k {
  freelist = v;
  next = update (update k.next v 0x0101_0101_0101_0101) v k.freelist;
}

-- From a list of free pages, each once: freeing a page that is not free puts it on the list before
-- the others and changes no other word that the list uses; what is no page stops the machine.
pub kfree_lem :
    (end v : ℕ) (k : Kmem) (xs : List ℕ)
    → IsFree end k xs
    → NotIn v xs
    → (IsPage end v → (kfree end v k ≡ ok (freed v k)) × IsFree end (freed v k) (v ∷ xs))
      × (¬ IsPage end v → kfree end v k ≡ panic)
unfolding kfree
kfree_lem end v k xs free out = (
  λ page. (
    ground arith,
    record {
      chain = (refl, unchanged);
      distinct = (out, free.distinct);
      pages = (page, free.pages);
    },
  ),
  λ bad. ground (arith, bad),
)
  where
    junked : Chain (update k.next v 0x0101_0101_0101_0101) k.freelist xs
    junked = Chain-update k.next k.freelist v 0x0101_0101_0101_0101 xs out free.chain

    unchanged : Chain (freed v k).next ((freed v k).next v) xs
    unchanged =
        rw (update_self (update k.next v 0x0101_0101_0101_0101) v k.freelist) (
          Chain-update (update k.next v 0x0101_0101_0101_0101) k.freelist v k.freelist xs out
            junked)

-- From a list of free pages, each once, `kalloc` hands out the page that was freed last, which is a
-- page and is free no more.
pub kalloc-cons :
    (end : ℕ) (k : Kmem) (v : ℕ) (xs : List ℕ)
    → 0 < end
    → IsFree end k (v ∷ xs)
    → (kalloc k ≡ ok (v, record k { freelist = k.next v }))
      × IsFree end (record k { freelist = k.next v }) xs
      × NotIn v xs
      × IsPage end v
unfolding kalloc
kalloc-cons end k v xs pos free = (
  ground (arith, free.chain.0, free.pages.0),
  record { chain = free.chain.1; distinct = free.distinct.1; pages = free.pages.1 },
  free.distinct.0,
  free.pages.0,
)
