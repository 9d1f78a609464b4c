-- ===== src/Vm/Space.antt =====
-- vm.c: whole address spaces, and the user memory in them.
use cs461_final_project_grub.Base.{
  ℕ, zero, suc, ◌+◌, ◌-◌, ◌*◌, ◌/◌, ◌%◌, ◌^◌, Bool, true, false, not, ◌&&◌, ltb, leb, ◌==◌,
  if◌then◌else◌, none, some, List, [], ◌∷◌, length, take, drop, update, Result, ok, panic, ◌>>=◌, ℤ,
  pos, negsuc,
}
use cs461_final_project_grub.Kalloc.{kernbase, pgsize, v2p}
use cs461_final_project_grub.Kalloc
use cs461_final_project_grub.Vm.{
  Vm, p2v, pgrounddown, pte_p, pte_w, pte_u, is_present, is_user, pte_addr, pte_flags, lor, pmx,
  zeroed_page, free_page, walkpgdir, mappages,
}

-- One byte of a word, the lowest first.
abbrev pub store_byte : (ℕ → ℕ) → ℕ → ℕ → ℕ → ℕ
store_byte mem a v =
    let w = mem (a / 8 * 8) in
    let k = 256 ^ (a % 8) in update mem (a / 8 * 8) (w / (k * 256) * (k * 256) + v * k + w % k)

-- `memmove(a, bytes, n)`
unfoldable pub store_bytes : (ℕ → ℕ) → ℕ → List ℕ → ℕ → ℕ
store_bytes mem a [] = mem
store_bytes mem a (v ∷ bytes) = store_bytes (store_byte mem a v) (a + 1) bytes

-- `memmove(to, from, PGSIZE)` of pages that do not overlap.
abbrev pub copy_page : (ℕ → ℕ) → ℕ → ℕ → ℕ → ℕ
copy_page mem to from a = if leb to a && ltb a (to + pgsize) then mem (from + (a - to)) else mem a

unfoldable pub setupkvm : Vm → Result (ℕ × Vm)
setupkvm s = do
  (pml4, s1) ← zeroed_page s
  ok (
    pml4,
    record s1 { mem = update s1.mem (pml4 + 8 * 256) (lor 64 (lor 64 (v2p s1.kpdpt) pte_p) pte_w) },
  )

-- The kernel's own tables: the address of `kpml4` is given back. `PTE_PS` is 0x80, and the two flags
-- for memory-mapped devices are 8 and 16.
unfoldable pub kvmalloc : Vm → Result (ℕ × Vm)
kvmalloc s = do
  (kpml4, s1) ← zeroed_page s
  (kpdpt, s2) ← zeroed_page s1
  let mem = update s2.mem (kpml4 + 8 * pmx kernbase) (lor 64 (lor 64 (v2p kpdpt) pte_p) pte_w)
  let mem' = update mem kpdpt (0x80 + pte_p + pte_w)
  let mem'' = update mem' (kpdpt + 8 * 3) (0xC000_0000 + 0x80 + pte_p + pte_w + 8 + 16)
  ok (kpml4, record s2 { mem = mem''; kpdpt = kpdpt })

unfoldable pub inituvm : ℕ → List ℕ → Vm → Result Vm
inituvm pgdir init s =
    let load = (do
      (v, s1) ← zeroed_page s
      (_, s2) ← mappages pgdir pgsize pgsize (v2p v) (pte_w + pte_u) s1
      ok (record s2 { mem = store_bytes s2.mem v init })) in
    if leb pgsize (length init) then panic else load

-- The loop over the entries of a table, `k` of them left, the one at `e` next: what they lead to is freed,
-- and, above the lowest level, the entries there before.
unfoldable pub free_entries : (level : ℕ) → ℕ → (k e : ℕ) → Vm → Result Vm
free_entries level end zero e s = ok s
free_entries zero end (suc k) e s = do
  s1 ← (if is_present (s.mem e) then free_page end (p2v (pte_addr (s.mem e))) s else ok s)
  free_entries zero end k (e + 8) s1
free_entries (suc level) end (suc k) e s = do
  s1 ←
      (let inner = (do
        s' ← free_entries level end 512 (p2v (pte_addr (s.mem e))) s
        free_page end (p2v (pte_addr (s.mem e))) s') in
        if is_present (s.mem e) then inner else ok s)
  free_entries (suc level) end k (e + 8) s1

-- The user's half of the top table; the tables have four levels.
unfoldable pub freevm : ℕ → ℕ → Vm → Result Vm
freevm end pml4 s =
    let all = (do s' ← free_entries 3 end 256 pml4 s; free_page end pml4 s') in
    if pml4 == 0 then panic else all

unfoldable pub clearpteu : ℕ → ℕ → Vm → Result Vm
clearpteu pgdir uva s = do
  (pte, s') ← walkpgdir pgdir uva false s
  elim pte [
    | none ↦ panic
    | some p ↦ ok (record s' {
      mem = update s'.mem p (if is_user (s'.mem p) then s'.mem p - pte_u else s'.mem p);
    })
  ]

-- The loop of `copyuvm` on fuel, a unit for each page. `false` is the jump to `bad`.
unfoldable pub copy_from : ℕ → ℕ → ℕ → ℕ → ℕ → Vm → Result (Bool × Vm)
copy_from zero pgdir d i sz s = if ltb i sz then panic else ok (true, s)
copy_from (suc f) pgdir d i sz s =
    let round = (do
      (pte, s1) ← walkpgdir pgdir i false s
      p ← elim pte [ none ↦ panic | some p ↦ ok p ]
      (v, k) ← (if not (is_present (s1.mem p)) then panic else Kalloc.kalloc s1.kmem)
      let s2 = record s1 { kmem = k; mem = copy_page s1.mem v (p2v (pte_addr (s1.mem p))) }
      (r, s3) ← mappages d i pgsize (v2p v) (pte_flags (s1.mem p)) s2
      let rest = copy_from f pgdir d (i + pgsize) sz s3
      elim r [ pos _ ↦ rest | negsuc _ ↦ ok (false, s3) ]) in
    if ltb i sz then round else ok (true, s)

-- `sz` is a `uint`, whatever the size that `fork` passes.
unfoldable pub copyuvm : ℕ → ℕ → ℕ → Vm → Result (ℕ × Vm)
copyuvm end pgdir sz s = do
  (d, s1) ← setupkvm s
  (good, s2) ← copy_from (sz % 2 ^ 32 / pgsize + 1) pgdir d pgsize (sz % 2 ^ 32) s1
  (let bad = (do s3 ← freevm end d s2; ok (0, s3)) in if good then ok (d, s2) else bad)

-- Where there is no table for `uva`, the function reads address 0, which no table of a process maps: the
-- fault is a panic.
unfoldable pub uva2ka : ℕ → ℕ → Vm → Result ℕ
uva2ka pgdir uva s = do
  (pte, _) ← walkpgdir pgdir uva false s
  elim pte [
    | none ↦ panic
    | some p ↦
        if not (is_present (s.mem p))
        then ok 0
        else if not (is_user (s.mem p))
        then ok 0
        else ok (p2v (pte_addr (s.mem p)))
  ]

-- The loop of `copyout` on fuel, a unit for each round.
unfoldable pub copyout_from : ℕ → ℕ → ℕ → List ℕ → Vm → Result (ℤ × Vm)
copyout_from zero pgdir va bytes s = panic
copyout_from (suc f) pgdir va [] s = ok (pos 0, s)
copyout_from (suc f) pgdir va (b ∷ bytes) s = do
  pa0 ← uva2ka pgdir (pgrounddown va) s
  let n = pgsize - (va - pgrounddown va)
  let s' = record s { mem = store_bytes s.mem (pa0 + (va - pgrounddown va)) (take n (b ∷ bytes)) }
  let rest = copyout_from f pgdir ((pgrounddown va + pgsize) % 2 ^ 64) (drop n (b ∷ bytes)) s'
  (if pa0 == 0 then ok (negsuc 0, s) else rest)

unfoldable pub copyout : ℕ → ℕ → List ℕ → Vm → Result (ℤ × Vm)
copyout pgdir va bytes s = copyout_from (length bytes + 1) pgdir va bytes s
