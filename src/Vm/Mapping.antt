-- ===== src/Vm/Mapping.antt =====
-- vm.c: what `mappages` does to the map that the page tables stand for.
use mathlib.Core.Path.{subst}
use cs461_final_project_grub.Base.{
  ℕ, ◌+◌, ◌-◌, ◌/◌, ◌%◌, ◌^◌, ◌≡◌, ◌≢◌, ◌≤◌, ◌<◌, ◌⊎◌, inl, inr, refl, ap, sym, ◌∙◌, true, false,
  ◌==◌, if◌then◌else◌, Option, none, some, List, [], ◌∷◌, length, get_or, update, Bool-cases,
  Result, ok, panic, ◌>>=◌, ℤ, pos, negsuc, arith,
}
use cs461_final_project_grub.Kalloc.{pgsize}
use cs461_final_project_grub.Vm.{
  Vm, pte_p, is_present, lor, walkpgdir, pgrounddown, map_from, mappages, pmx, pdpx, pdx, ptx,
}
use cs461_final_project_grub.Vm.Entries.{present_lor, IsTree, lookup, IsPath}
use cs461_final_project_grub.Vm.Walk.{path, Found, Walked, walkpgdir-Walked}
use cs461_final_project_grub.Vm.Leaves.{onto, lookup-slot, lookup_other, lookup_hit, written-IsTree}

-- What `mappages` of one page comes to.
pub record Maps (s : Vm) (pgdir va w : ℕ) (s' : Vm) : Type 0 where
  pub before : lookup s.mem pgdir (path va) ≡ none
  pub after : lookup s'.mem pgdir (path va) ≡ some w
  pub others :
      (va' : ℕ)
      → va' / 4096 % 2 ^ 36 ≢ va / 4096 % 2 ^ 36
      → lookup s'.mem pgdir (path va') ≡ lookup s.mem pgdir (path va')
  pub paths : ℕ → Option (List ℕ)
  pub free : List ℕ
  pub tree : IsTree paths free s'
  pub root : paths pgdir ≡ some []

abbrev pub Mapped : List ℕ → Vm → (pgdir va w : ℕ) → Result (ℤ × Vm) → Type 0
Mapped free s pgdir va w panic = (length free ≤ 2) ⊎ (lookup s.mem pgdir (path va) ≢ none)
Mapped free s pgdir va w (ok (r, s')) = (r ≡ pos 0) × Maps s pgdir va w s'

path-IsPath : (va : ℕ) → IsPath (path va)
path-IsPath va = omega arith

-- Other pages have other paths.
path_apart :
    (va va' : ℕ)
    → ◌≡◌ {A = List ℕ} (onto (path va') []) (ptx va ∷ pdx va ∷ pdpx va ∷ pmx va ∷ [])
    → va' / 4096 % 2 ^ 36 ≡ va / 4096 % 2 ^ 36
path_apart va va' e =
    let low : ptx va' ≡ ptx va = ap (λ l. get_or l 0 0) e in
    let second : pdx va' ≡ pdx va = ap (λ l. get_or l 1 0) e in
    let third : pdpx va' ≡ pdpx va = ap (λ l. get_or l 2 0) e in
    let top : pmx va' ≡ pmx va = ap (λ l. get_or l 3 0) e in omega (arith, top, third, second, low)

module _ (path_of : ℕ → Option (List ℕ)) (free : List ℕ) (s : Vm) (pgdir va pa perm : ℕ) where
  entry : ℕ
  entry = lor 64 (lor 64 pa perm) pte_p

  written :
      (s1 : Vm) (p : ℕ)
      → Found path_of s pgdir va p s1
      → path_of pgdir ≡ some []
      → is_present (s1.mem p) ≡ false
      → Maps s pgdir va entry (record s1 { mem = update s1.mem p entry })
  unfolding entry
  written s1 p h root absent =
      let place : List ℕ = pdx va ∷ pdpx va ∷ pmx va ∷ [] in
      let hk : ptx va < 512 = omega arith in
      let three : length place ≡ 3 = refl in
      let at = h.entry in
      let root' = h.kept pgdir [] root in
      let hit =
        lookup_hit h.paths h.free s1 h.tree h.table (ptx va) place h.place three hk entry (path va)
          pgdir [] root' (path-IsPath va) (omega arith) (h.reached ∙ ap some at) in
      let there = ap (λ b. if b then some entry else none) (present_lor 63 (lor 64 pa perm)) in
      record {
        before =
            sym (h.same (path va) (path-IsPath va) (omega arith))
            ∙ lookup-slot s1.mem (path va) pgdir p h.reached
            ∙ ap (λ b. if b then some (s1.mem p) else none) absent;
        after = ap (λ x. lookup (update s1.mem x entry) pgdir (path va)) at ∙ hit ∙ there;
        others = λ va' ne.
            ap (λ x. lookup (update s1.mem x entry) pgdir (path va')) at
            ∙ lookup_other h.paths h.free s1 h.tree h.table (ptx va) place h.place three hk entry
                (path va') pgdir [] root' (path-IsPath va') (omega arith)
                (λ e. ne (path_apart va va' e))
            ∙ h.same (path va') (path-IsPath va') (omega arith);
        paths = h.paths;
        free = h.free;
        tree =
            subst (λ x. IsTree h.paths h.free (record s1 { mem = update s1.mem x entry })) (sym at)
              (written-IsTree h.paths h.free s1 h.tree h.table (ptx va) place h.place three hk
                entry);
        root = root';
      }

  remap :
      (s1 : Vm) (p : ℕ)
      → Found path_of s pgdir va p s1
      → is_present (s1.mem p) ≡ true
      → lookup s.mem pgdir (path va) ≡ some (s1.mem p)
  remap s1 p h there =
      sym (h.same (path va) (path-IsPath va) (omega arith))
      ∙ lookup-slot s1.mem (path va) pgdir p h.reached
      ∙ ap (λ b. if b then some (s1.mem p) else none) there

  same : (a : ℕ) → a == a ≡ true
  same a = ground arith

  -- One round of `mappages`.
  map_round :
      (r : Result (Option ℕ × Vm))
      → Walked path_of free s pgdir va r
      → path_of pgdir ≡ some []
      → Mapped free s pgdir va entry (do
        (pte, s1) ← r
        elim pte [
          | none ↦ ok (negsuc 0, s1)
          | some p ↦
              if is_present (s1.mem p)
              then panic
              else if va == va
              then ok (pos 0, record s1 { mem = update s1.mem p entry })
              else panic
        ])
  map_round panic h root = inl h
  map_round (ok (none, s1)) h root = absurd h
  map_round (ok (some p, s1)) h root = elim (Bool-cases (is_present (s1.mem p))) [
    | inl there ↦
        rw there (inr (λ e. absurd (let e' = sym e ∙ remap s1 p h there in ground (arith, e'))))
    | inr absent ↦ rw (absent, same va) (refl, written s1 p h root absent)
  ]

  map_one :
      IsTree path_of free s
      → path_of pgdir ≡ some []
      → Mapped free s pgdir va entry (map_from 1 pgdir va va pa perm s)
  unfolding map_from entry
  map_one tree root =
      map_round (walkpgdir pgdir va true s) (walkpgdir-Walked path_of free s pgdir va root tree)
        root

  -- `mappages` of the page at `va`, in a tree of tables: it panics only where the page is mapped already
  -- or there are fewer than three free pages; otherwise it returns 0, the tables now give the entry
  -- `pa | perm | PTE_P` for the page where they gave none, they give every other page what they gave it before,
  -- and they are a tree again.
  pub mappages-Mapped :
      IsTree path_of free s
      → path_of pgdir ≡ some []
      → va % 4096 ≡ 0
      → va < 2 ^ 64
      → Mapped free s pgdir va (lor 64 (lor 64 pa perm) pte_p) (mappages pgdir va pgsize pa perm s)
  unfolding mappages entry
  mappages-Mapped tree root al lt =
      let start : pgrounddown va ≡ va = omega (arith, al) in
      let end : pgrounddown ((va + pgsize + 2 ^ 64 - 1) % 2 ^ 64) ≡ va = omega (arith, al, lt) in
      let rounds : (va + 2 ^ 64 - va) % 2 ^ 64 / pgsize + 1 ≡ 1 = omega arith in
      rw (start, end, rounds) (map_one tree root)
