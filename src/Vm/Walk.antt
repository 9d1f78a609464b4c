-- ===== src/Vm/Walk.antt =====
-- vm.c: `walkpgdir`.
use mathlib.Core.Path.{subst}
use cs461_final_project_grub.Base.{
  ℕ, ◌+◌, ◌*◌, ◌%◌, ◌^◌, ◌≡◌, ◌≤◌, ◌<◌, inl, inr, refl, ap, sym, ◌∙◌, Bool, true, false, ◌==◌,
  if◌then◌else◌, Option, none, some, List, [], ◌∷◌, length, update_self, Bool-cases, Result, ok,
  panic, arith,
}
use cs461_final_project_grub.Kalloc.{kernbase, v2p, kalloc}
use cs461_final_project_grub.Vm.{
  Vm, p2v, pte_p, pte_w, pte_u, is_present, pte_addr, lor, zeroed_page, next_table, at_table,
  walkpgdir, pmx, pdpx, pdx, ptx,
}
use cs461_final_project_grub.Vm.Tables.{
  grown, leads, is_there, stays, lookup_same, paths, paths_kept, FreeList_kept, entry_paths,
  aligned_paths, Next, Stepped,
}
use cs461_final_project_grub.Vm.Entries.{lor_flags, child, IsTree, lookup, IsPath}

-- The state behind an allocation.
abbrev grown_state : ℕ → Vm → Vm
grown_state e s = record s {
  kmem = record s.kmem { freelist = s.kmem.next s.kmem.freelist };
  mem = grown s.mem s.kmem.freelist e;
}

flags_of :
    (f : ℕ)
    → f % 4096 ≡ 0
    → kernbase ≤ f
    → f < 2 ^ 64
    → lor 64 (v2p f) (pte_p + pte_w + pte_u) ≡ v2p f + 7
flags_of f al lo hi = lor_flags (v2p f) (omega (arith, al, lo, hi)) (omega (arith, hi))

next_table_there :
    (alloc : Bool) (e : ℕ) (s : Vm)
    → is_present (s.mem e) ≡ true
    → next_table alloc e s ≡ ok (some (p2v (pte_addr (s.mem e))), s)
unfolding next_table
next_table_there alloc e s there = rw there refl

next_table_new :
    (e : ℕ) (s : Vm)
    → is_present (s.mem e) ≡ false
    → s.kmem.freelist == 0 ≡ false
    → lor 64 (v2p s.kmem.freelist) (pte_p + pte_w + pte_u) ≡ v2p s.kmem.freelist + 7
    → next_table true e s ≡ ok (some s.kmem.freelist, grown_state e s)
unfolding next_table zeroed_page kalloc
next_table_new e s absent some' flags = rw (absent, some', flags, some') refl

next_table_out :
    (e : ℕ) (s : Vm)
    → is_present (s.mem e) ≡ false
    → s.kmem.freelist == 0 ≡ true
    → next_table true e s ≡ panic
unfolding next_table zeroed_page kalloc
next_table_out e s absent out = rw (absent, out) refl

module _ (path_of : ℕ → Option (List ℕ)) (s : Vm) (v i : ℕ) (l : List ℕ) where
  -- The first free page becomes a table.
  taken :
      (f : ℕ) (rest : List ℕ)
      → IsTree path_of (f ∷ rest) s
      → path_of v ≡ some l
      → length l ≤ 2
      → i < 512
      → is_present (s.mem (v + 8 * i)) ≡ false
      → s.kmem.freelist ≡ f
      → Next path_of (f ∷ rest) s v i l f (record s {
        kmem = record s.kmem { freelist = s.kmem.next f };
        mem = grown s.mem f (v + 8 * i);
      })
  taken f rest tree here few hi absent at =
      let page = tree.pages.1 in
      record {
        paths = paths path_of (f ∷ rest) s tree f page v i l here hi;
        free = rest;
        spent = omega arith;
        tree = record {
          aligned = aligned_paths path_of (f ∷ rest) s tree f page v i l here hi;
          entry = λ u j m h few' hj there.
              entry_paths path_of (f ∷ rest) s tree f page v i l here hi u j m h few' hj there;
          pages =
              FreeList_kept path_of (f ∷ rest) s tree f page v i l here hi s.kmem.next
                (s.kmem.next f) rest tree.pages.2 tree.pages.3;
        };
        kept = paths_kept path_of (f ∷ rest) s tree f page v i l here hi;
        led = update_self path_of f (some (i ∷ l));
        there = is_there path_of (f ∷ rest) s tree f page v i l here hi;
        leads = leads path_of (f ∷ rest) s tree f page v i l here hi;
        same = λ js u m h hj size.
            lookup_same path_of (f ∷ rest) s tree f page v i l here hi absent few js u m h hj size;
        stays = λ u j m h hj there.
            stays path_of (f ∷ rest) s tree f page v i l here hi u j m h hj (λ e.
              absurd (ground (arith, ap (λ x. is_present (s.mem x)) (sym e) ∙ there, absent)));
      }

  allocated :
      (free : List ℕ)
      → IsTree path_of free s
      → path_of v ≡ some l
      → length l ≤ 2
      → i < 512
      → is_present (s.mem (v + 8 * i)) ≡ false
      → Stepped path_of free s v i l (next_table true (v + 8 * i) s)
  allocated [] tree here few hi absent =
      let none_left = tree.pages in
      subst (Stepped path_of [] s v i l)
        (sym (next_table_out (v + 8 * i) s absent (ground (arith, none_left)))) refl
  allocated (f ∷ rest) tree here few hi absent =
      let at : s.kmem.freelist ≡ f = tree.pages.0 in
      let page = tree.pages.1 in
      let there : s.kmem.freelist == 0 ≡ false = let low = page.low in ground (arith, low, at) in
      let flags =
        ap (λ x. lor 64 (v2p x) 7) at
        ∙ flags_of f page.aligned page.low page.high
        ∙ ap (λ x. v2p x + 7) (sym at) in
      subst (Stepped path_of (f ∷ rest) s v i l)
        (sym (next_table_new (v + 8 * i) s absent there flags))
        (subst
          (λ x. Next path_of (f ∷ rest) s v i l x (record s {
            kmem = record s.kmem { freelist = s.kmem.next x };
            mem = grown s.mem x (v + 8 * i);
          }))
          (sym at) (taken f rest tree here few hi absent at))

-- A step keeps the tree, and what all paths lead to.
next_table-Stepped :
    (path_of : ℕ → Option (List ℕ)) (free : List ℕ) (s : Vm) (v i : ℕ) (l : List ℕ)
    → IsTree path_of free s
    → path_of v ≡ some l
    → length l ≤ 2
    → i < 512
    → Stepped path_of free s v i l (next_table true (v + 8 * i) s)
next_table-Stepped path_of free s v i l tree here few hi =
    elim (Bool-cases (is_present (s.mem (v + 8 * i)))) [
      | inl there ↦
          subst (Stepped path_of free s v i l) (sym (next_table_there true (v + 8 * i) s there))
            (record {
              paths = path_of;
              free = free;
              spent = omega arith;
              tree = tree;
              kept = λ u m h. h;
              led = tree.entry v i l here few hi there;
              there = there;
              leads = refl;
              same = λ js u m h hj size. refl;
              stays = λ u j m h hj there'. refl;
            })
      | inr absent ↦ allocated path_of s v i l free tree here few hi absent
    ]

-- The indices of an address.
abbrev pub path : ℕ → List ℕ
path va = pmx va ∷ pdpx va ∷ pdx va ∷ ptx va ∷ []

-- The address of the entry that a path leads to.
abbrev pub slot : (ℕ → ℕ) → ℕ → List ℕ → Option ℕ
slot mem v [] = none
slot mem v (i ∷ []) = some (v + 8 * i)
slot mem v (i ∷ j ∷ l) =
    if is_present (mem (v + 8 * i)) then slot mem (child mem v i) (j ∷ l) else none

slot_step :
    (mem : ℕ → ℕ) (v i j t : ℕ) (l : List ℕ)
    → is_present (mem (v + 8 * i)) ≡ true
    → child mem v i ≡ t
    → slot mem v (i ∷ j ∷ l) ≡ slot mem t (j ∷ l)
slot_step mem v i j t l there to =
    ap (λ b. if b then slot mem (child mem v i) (j ∷ l) else none) there
    ∙ ap (λ x. slot mem x (j ∷ l)) to

-- `walkpgdir` with `alloc` finds the entry `p` for `va`.
pub record Found (path_of : ℕ → Option (List ℕ)) (s : Vm) (pml4 va p : ℕ) (s' : Vm) : Type 0 where
  pub table : ℕ
  pub paths : ℕ → Option (List ℕ)
  pub free : List ℕ
  pub tree : IsTree paths free s'
  pub kept : (u : ℕ) (m : List ℕ) → path_of u ≡ some m → paths u ≡ some m
  pub place : paths table ≡ some (pdx va ∷ pdpx va ∷ pmx va ∷ [])
  pub entry : p ≡ table + 8 * ptx va
  pub same :
      (js : List ℕ) → IsPath js → length js ≡ 4 → lookup s'.mem pml4 js ≡ lookup s.mem pml4 js
  pub reached : slot s'.mem pml4 (path va) ≡ some p
  pub again : walkpgdir pml4 va false s' ≡ ok (some p, s')

abbrev pub Walked :
    (ℕ → Option (List ℕ)) → List ℕ → Vm → (pml4 va : ℕ) → Result (Option ℕ × Vm) → Type 0
Walked path_of free s pml4 va panic = length free ≤ 2
Walked path_of free s pml4 va (ok (none, s')) = ⊥
Walked path_of free s pml4 va (ok (some p, s')) = Found path_of s pml4 va p s'

at_table_lem :
    (P : Result (Option ℕ × Vm) → Type 0) (path_of : ℕ → Option (List ℕ)) (free : List ℕ) (s : Vm)
    (v i : ℕ) (l : List ℕ) (r : Result (Option ℕ × Vm)) (f : ℕ → Vm → Result (Option ℕ × Vm))
    → (length free ≡ 0 → P panic)
    → Stepped path_of free s v i l r
    → ((t : ℕ) (s' : Vm) → Next path_of free s v i l t s' → P (f t s'))
    → P (at_table r f)
at_table_lem P path_of free s v i l panic f p h k = p h
at_table_lem P path_of free s v i l (ok (none, s')) f p h k = absurd h
at_table_lem P path_of free s v i l (ok (some t, s')) f p h k = k t s' h

-- A step that finds its table.
step_there :
    (s : Vm) (v i t : ℕ) (f : ℕ → Vm → Result (Option ℕ × Vm))
    → is_present (s.mem (v + 8 * i)) ≡ true
    → child s.mem v i ≡ t
    → at_table (next_table false (v + 8 * i) s) f ≡ f t s
step_there s v i t f there to =
    ap (λ r. at_table r f) (next_table_there false (v + 8 * i) s there) ∙ ap (λ x. f x s) to

module _ (path_of : ℕ → Option (List ℕ)) (free : List ℕ) (s : Vm) (pml4 va : ℕ)
    (root : path_of pml4 ≡ some []) where
  three_steps :
      (pdp pd pgtab : ℕ) (s1 s2 s3 : Vm) (n1 : Next path_of free s pml4 (pmx va) [] pdp s1)
      (n2 : Next n1.paths n1.free s1 pdp (pdpx va) (pmx va ∷ []) pd s2)
      → Next n2.paths n2.free s2 pd (pdx va) (pdpx va ∷ pmx va ∷ []) pgtab s3
      → Found path_of s pml4 va (pgtab + 8 * ptx va) s3
  unfolding walkpgdir
  three_steps pdp pd pgtab s1 s2 s3 n1 n2 n3 =
      let hm : pmx va < 512 = omega arith in
      let hp : pdpx va < 512 = omega arith in
      let hd : pdx va < 512 = omega arith in
      let root1 = n1.kept pml4 [] root in
      let root2 = n2.kept pml4 [] root1 in
      let first2 = n2.stays pml4 (pmx va) [] root1 hm n1.there in
      let there2 = ap is_present first2 ∙ n1.there in
      let first3 = n3.stays pml4 (pmx va) [] root2 hm there2 ∙ first2 in
      let pdp2 = n2.kept pdp (pmx va ∷ []) n1.led in
      let second3 = n3.stays pdp (pdpx va) (pmx va ∷ []) pdp2 hp n2.there in
      record {
        table = pgtab;
        paths = n3.paths;
        free = n3.free;
        tree = n3.tree;
        kept = λ u m h. n3.kept u m (n2.kept u m (n1.kept u m h));
        place = n3.led;
        entry = refl;
        same = λ js hj size.
            let size' : length {A = ℕ} [] + length js ≡ 4 = omega (arith, size) in
            n3.same js pml4 [] root2 hj size'
            ∙ n2.same js pml4 [] root1 hj size'
            ∙ n1.same js pml4 [] root hj size';
        reached =
            slot_step s3.mem pml4 (pmx va) (pdpx va) pdp (pdx va ∷ ptx va ∷ [])
              (ap is_present first3 ∙ n1.there) (ap (λ w. p2v (pte_addr w)) first3 ∙ n1.leads)
            ∙ slot_step s3.mem pdp (pdpx va) (pdx va) pd (ptx va ∷ [])
                (ap is_present second3 ∙ n2.there) (ap (λ w. p2v (pte_addr w)) second3 ∙ n2.leads)
            ∙ slot_step s3.mem pd (pdx va) (ptx va) pgtab [] n3.there n3.leads;
        again =
            step_there s3 pml4 (pmx va) pdp _ (ap is_present first3 ∙ n1.there)
              (ap (λ w. p2v (pte_addr w)) first3 ∙ n1.leads)
            ∙ step_there s3 pdp (pdpx va) pd _ (ap is_present second3 ∙ n2.there)
                (ap (λ w. p2v (pte_addr w)) second3 ∙ n2.leads)
            ∙ step_there s3 pd (pdx va) pgtab _ n3.there n3.leads;
      }

  -- With `alloc`, `walkpgdir` finds an entry or panics, which it does only with fewer than three free pages; the tables that it adds have no
  -- entry of their own, so every path leads where it led before, and without `alloc` it
  -- now finds the same entry.
  pub walkpgdir-Walked :
      IsTree path_of free s → Walked path_of free s pml4 va (walkpgdir pml4 va true s)
  unfolding walkpgdir
  walkpgdir-Walked tree =
      at_table_lem (Walked path_of free s pml4 va) path_of free s pml4 (pmx va) []
        (next_table true (pml4 + 8 * pmx va) s) _ (λ e. omega (arith, e))
        (next_table-Stepped path_of free s pml4 (pmx va) [] tree root (omega arith) (omega arith))
        (λ pdp s1 n1.
          at_table_lem (Walked path_of free s pml4 va) n1.paths n1.free s1 pdp (pdpx va)
            (pmx va ∷ []) (next_table true (pdp + 8 * pdpx va) s1) _
            (λ e. let spent = n1.spent in omega (arith, e, spent))
            (next_table-Stepped n1.paths n1.free s1 pdp (pdpx va) (pmx va ∷ []) n1.tree n1.led
              (omega arith) (omega arith))
            (λ pd s2 n2.
              at_table_lem (Walked path_of free s pml4 va) n2.paths n2.free s2 pd (pdx va)
                (pdpx va ∷ pmx va ∷ []) (next_table true (pd + 8 * pdx va) s2) _
                (λ e.
                  let spent = n1.spent in let spent' = n2.spent in omega (arith, e, spent, spent'))
                (next_table-Stepped n2.paths n2.free s2 pd (pdx va) (pdpx va ∷ pmx va ∷ []) n2.tree
                  n2.led (omega arith) (omega arith))
                (λ pgtab s3 n3. three_steps pdp pd pgtab s1 s2 s3 n1 n2 n3)))
