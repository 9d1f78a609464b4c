-- ===== src/Kalloc.antt =====
-- kalloc.c: the allocator of physical pages.
--
-- The free list is threaded through the pages themselves: `next` is the first word of each page,
-- by the page's address, and a null pointer is 0. `end` is the first address after the kernel, the
-- linker's. The lock calls are left out: each function is one step.
pub mod Freelist
pub mod Range
mod Tests
use cs461_final_project_grub.Base.{
  ℕ, zero, suc, ◌+◌, ◌-◌, ◌*◌, ◌/◌, ◌%◌, ◌^◌, Bool, true, false, not, ◌&&◌, ◌||◌, ltb, leb, ◌==◌,
  if◌then◌else◌, update, Result, ok, panic,
}

-- memlayout.h and mmu.h
abbrev pub kernbase : ℕ
kernbase = 0xFFFF_8000_0000_0000

abbrev pub phystop : ℕ
phystop = 0xE00_0000

abbrev pub pgsize : ℕ
pgsize = 4096

-- `V2P`, on 64-bit words.
abbrev pub v2p : ℕ → ℕ
v2p a = (a + 2 ^ 64 - kernbase) % 2 ^ 64

-- `PGROUNDUP`
abbrev pub pgroundup : ℕ → ℕ
pgroundup sz = (sz + (pgsize - 1)) % 2 ^ 64 / pgsize * pgsize

pub record Kmem : Type 0 where
  pub use_lock : Bool
  pub freelist : ℕ
  pub next : ℕ → ℕ

-- The word that `memset(v, 1, PGSIZE)` leaves.
abbrev pub junk : ℕ
junk = 0x0101_0101_0101_0101

unfoldable pub kfree : ℕ → ℕ → Kmem → Result Kmem
kfree end v k =
    if not (v % pgsize == 0) || ltb v end || leb phystop (v2p v)
    then panic
    else ok (record k { freelist = v; next = update (update k.next v junk) v k.freelist })

unfoldable pub kalloc : Kmem → Result (ℕ × Kmem)
kalloc k =
    if k.freelist == 0 then panic else ok (k.freelist, record k { freelist = k.next k.freelist })

-- The loop of `freerange` on fuel: one round for each page, and one for the test that ends it.
unfoldable pub free_from : ℕ → ℕ → ℕ → ℕ → Kmem → Result Kmem
free_from zero end p vend k = panic
free_from (suc fuel) end p vend k =
    if leb ((p + pgsize) % 2 ^ 64) vend
    then elim (kfree end p k) [
      | ok k' ↦ free_from fuel end ((p + pgsize) % 2 ^ 64) vend k'
      | panic ↦ panic
    ]
    else ok k

unfoldable pub freerange : ℕ → ℕ → ℕ → Kmem → Result Kmem
freerange end vstart vend k =
    let p = pgroundup vstart in free_from ((vend - p) / pgsize + 1) end p vend k

unfoldable pub kinit1 : ℕ → ℕ → ℕ → Kmem → Result Kmem
kinit1 end vstart vend k = freerange end vstart vend (record k { use_lock = false; freelist = 0 })

unfoldable pub kinit2 : Kmem → Kmem
kinit2 k = record k { use_lock = true }
