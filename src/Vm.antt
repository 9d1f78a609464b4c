-- ===== src/Vm.antt =====
-- vm.c: page tables.
--
-- `mem` is the memory by 64-bit words, at the kernel's addresses; every table is a page of 512 of them.
-- `kmem` is the allocator's state, which keeps the links of the free pages; `end` is the linker's.
-- `kalloc` panics where there is no page, so it gives no null pointer, and what `allocuvm` and `copyuvm`
-- do for one is left out.
pub mod Entries
pub mod Tables
pub mod Walk
pub mod Leaves
pub mod Mapping
pub mod Space
mod Tests
use cs461_final_project_grub.Base.{
  ℕ, zero, suc, ◌+◌, ◌-◌, ◌*◌, ◌/◌, ◌%◌, ◌^◌, Bool, true, false, not, ◌&&◌, ◌||◌, ltb, leb, ◌==◌,
  if◌then◌else◌, Option, none, some, List, [], ◌∷◌, length, take, drop, update, Result, ok, panic,
  ◌>>=◌, ℤ, pos, negsuc,
}
use cs461_final_project_grub.Kalloc.{Kmem, kernbase, pgsize, v2p, pgroundup, junk}
use cs461_final_project_grub.Kalloc

pub record Vm : Type 0 where
  pub kmem : Kmem
  pub mem : ℕ → ℕ
  pub kpdpt : ℕ

-- `P2V`, on 64-bit words.
abbrev pub p2v : ℕ → ℕ
p2v a = (a + kernbase) % 2 ^ 64

-- `PGROUNDDOWN`
abbrev pub pgrounddown : ℕ → ℕ
pgrounddown a = a / pgsize * pgsize

-- The flags `PTE_P`, `PTE_W` and `PTE_U`, and what they say of an entry.
abbrev pub pte_p : ℕ
pte_p = 1

abbrev pub pte_w : ℕ
pte_w = 2

abbrev pub pte_u : ℕ
pte_u = 4

abbrev pub is_present : ℕ → Bool
is_present e = e % 2 == 1

abbrev pub is_user : ℕ → Bool
is_user e = e / 4 % 2 == 1

abbrev pub pte_addr : ℕ → ℕ
pte_addr e = e / 4096 * 4096

abbrev pub pte_flags : ℕ → ℕ
pte_flags e = e % 4096

-- `a | b`, by the lowest bits first.
unfoldable pub lor : ℕ → ℕ → ℕ → ℕ
lor zero a b = 0
lor (suc w) a b = (if a % 2 == 1 || b % 2 == 1 then 1 else 0) + 2 * lor w (a / 2) (b / 2)

-- `PMX`, `PDPX`, `PDX` and `PTX`
abbrev pub pmx : ℕ → ℕ
pmx va = va / 2 ^ 39 % 512

abbrev pub pdpx : ℕ → ℕ
pdpx va = va / 2 ^ 30 % 512

abbrev pub pdx : ℕ → ℕ
pdx va = va / 2 ^ 21 % 512

abbrev pub ptx : ℕ → ℕ
ptx va = va / 2 ^ 12 % 512

-- `memset(v, c, PGSIZE)`, by words.
abbrev pub fill_page : (ℕ → ℕ) → ℕ → ℕ → ℕ → ℕ
fill_page mem v w a = if leb v a && ltb a (v + pgsize) then w else mem a

-- A `kalloc` and the `memset` behind it.
unfoldable pub zeroed_page : Vm → Result (ℕ × Vm)
zeroed_page s = do
  (v, k) ← Kalloc.kalloc s.kmem
  ok (v, record s { kmem = k; mem = fill_page s.mem v 0 })

-- `kfree`, which fills the page with junk and makes its first word the link.
unfoldable pub free_page : ℕ → ℕ → Vm → Result Vm
free_page end v s = do
  k ← Kalloc.kfree end v s.kmem
  ok (record s { kmem = k; mem = update (fill_page s.mem v junk) v s.kmem.freelist })

-- The table that the entry at `e` leads to; `none` where there is none.
unfoldable pub next_table : Bool → ℕ → Vm → Result (Option ℕ × Vm)
next_table alloc e s =
    if is_present (s.mem e)
    then ok (some (p2v (pte_addr (s.mem e))), s)
    else if not alloc
    then ok (none, s)
    else (do
      (v, s') ← zeroed_page s
      (if v == 0
          then ok (none, s')
          else ok (
            some v,
            record s' { mem = update s'.mem e (lor 64 (v2p v) (pte_p + pte_w + pte_u)) },
          )))

-- Goes on at the table, if there is one.
abbrev pub at_table :
    Result (Option ℕ × Vm) → (ℕ → Vm → Result (Option ℕ × Vm)) → Result (Option ℕ × Vm)
at_table panic f = panic
at_table (ok (none, s)) f = ok (none, s)
at_table (ok (some t, s)) f = f t s

-- `walkpgdir`: the address of the entry for `va`.
unfoldable pub walkpgdir : ℕ → ℕ → Bool → Vm → Result (Option ℕ × Vm)
walkpgdir pml4 va alloc s = at_table (next_table alloc (pml4 + 8 * pmx va) s) (λ pdp s1.
    at_table (next_table alloc (pdp + 8 * pdpx va) s1) (λ pd s2.
      at_table (next_table alloc (pd + 8 * pdx va) s2)
        (λ pgtab s3. ok (some (pgtab + 8 * ptx va), s3))))

-- The loop of `mappages` on fuel, a unit for each page.
unfoldable pub map_from : ℕ → ℕ → ℕ → ℕ → ℕ → ℕ → Vm → Result (ℤ × Vm)
map_from zero pgdir a last pa perm s = panic
map_from (suc f) pgdir a last pa perm s = do
  (pte, s1) ← walkpgdir pgdir a true s
  elim pte [
    | none ↦ ok (negsuc 0, s1)
    | some p ↦
        let s2 = record s1 { mem = update s1.mem p (lor 64 (lor 64 pa perm) pte_p) } in
        let rest = map_from f pgdir ((a + pgsize) % 2 ^ 64) last ((pa + pgsize) % 2 ^ 64) perm s2 in
        if is_present (s1.mem p) then panic else if a == last then ok (pos 0, s2) else rest
  ]

unfoldable pub mappages : ℕ → ℕ → ℕ → ℕ → ℕ → Vm → Result (ℤ × Vm)
mappages pgdir va size pa perm s =
    let a = pgrounddown va in
    let last = pgrounddown ((va + size + 2 ^ 64 - 1) % 2 ^ 64) in
    map_from ((last + 2 ^ 64 - a) % 2 ^ 64 / pgsize + 1) pgdir a last pa perm s

-- The loop of `deallocuvm` on fuel, a unit for each page.
unfoldable pub dealloc_from : ℕ → ℕ → ℕ → ℕ → ℕ → Vm → Result Vm
dealloc_from zero end pgdir a oldsz s = if ltb a oldsz then panic else ok s
dealloc_from (suc f) end pgdir a oldsz s = do
  (pte, s1) ← (if ltb a oldsz then walkpgdir pgdir a false s else ok (none, s))
  s2 ← elim pte [
    | none ↦ ok s1
    | some p ↦
        let pa = pte_addr (s1.mem p) in
        let freed = (do
          s' ← free_page end (p2v pa) s1
          ok (record s' { mem = update s'.mem p 0 })) in
        if not (is_present (s1.mem p)) then ok s1 else if pa == 0 then panic else freed
  ]
  let rest = dealloc_from f end pgdir (a + pgsize) oldsz s2
  (if ltb a oldsz then rest else ok s2)

unfoldable pub deallocuvm : ℕ → ℕ → ℕ → ℕ → Vm → Result (ℕ × Vm)
deallocuvm end pgdir oldsz newsz s =
    let done = (do
      s' ← dealloc_from (oldsz / pgsize + 1) end pgdir (pgroundup newsz) oldsz s
      ok (newsz, s')) in
    if leb oldsz newsz then ok (oldsz, s) else done

-- The loop of `allocuvm` on fuel, a unit for each page; the size that it returns, or 0.
unfoldable pub alloc_from : ℕ → ℕ → ℕ → ℕ → ℕ → ℕ → Vm → Result (ℕ × Vm)
alloc_from zero end pgdir a oldsz newsz s = if ltb a newsz then panic else ok (newsz, s)
alloc_from (suc f) end pgdir a oldsz newsz s =
    let round = (do
      (v, s1) ← zeroed_page s
      (r, s2) ← mappages pgdir a pgsize (v2p v) (pte_w + pte_u) s1
      let rest = alloc_from f end pgdir (a + pgsize) oldsz newsz s2
      elim r [
        | pos _ ↦ rest
        | negsuc _ ↦ do
          (_, s3) ← deallocuvm end pgdir newsz oldsz s2
          s4 ← free_page end v s3
          ok (0, s4)
      ]) in
    if ltb a newsz then round else ok (newsz, s)

unfoldable pub allocuvm : ℕ → ℕ → ℕ → ℕ → Vm → Result (ℕ × Vm)
allocuvm end pgdir oldsz newsz s =
    if leb kernbase newsz
    then ok (0, s)
    else if ltb newsz oldsz
    then ok (oldsz, s)
    else alloc_from (newsz / pgsize + 1) end pgdir (pgroundup oldsz) oldsz newsz s
