-- ===== src/Vm/Tables.antt =====
-- vm.c: the tree of tables, and what one step of `walkpgdir` does to it.
use cs461_final_project_grub.Base.{
  ℕ, suc, ◌+◌, ◌*◌, ◌%◌, ◌^◌, ◌≡◌, ◌≢◌, ◌≤◌, ◌<◌, inl, inr, refl, ap, sym, ◌∙◌, true, false, ◌&&◌,
  ltb, leb, ◌==◌, if◌then◌else◌, Option, none, some, List, [], ◌∷◌, length, All, update,
  update_self, update_ne, Bool-cases, Result, ok, panic, arith,
}
use cs461_final_project_grub.Kalloc.{kernbase, pgsize, v2p}
use cs461_final_project_grub.Vm.{Vm, p2v, is_present, pte_addr, fill_page}
use cs461_final_project_grub.Vm.Entries.{
  IsFreePage, FreeList, child, IsTree, at_entry, lookup, IsPath,
}

-- Entries of tables, at different places.
pub entries_apart :
    (v u i j : ℕ)
    → v % 4096 ≡ 0
    → u % 4096 ≡ 0
    → i < 512
    → j < 512
    → v + 8 * i ≡ u + 8 * j
    → (v ≡ u) × (i ≡ j)
entries_apart v u i j hv hu hi hj e =
    (omega (arith, hv, hu, hi, hj, e), omega (arith, hv, hu, hi, hj, e))

-- An entry of another page.
outside :
    (f u j : ℕ)
    → f % 4096 ≡ 0
    → u % 4096 ≡ 0
    → j < 512
    → u ≢ f
    → leb f (u + 8 * j) && ltb (u + 8 * j) (f + pgsize) ≡ false
outside f u j hf hu hj ne = ground (arith, hf, hu, hj, ne)

inside : (f j : ℕ) → j < 512 → leb f (f + 8 * j) && ltb (f + 8 * j) (f + pgsize) ≡ true
inside f j hj = ground (arith, hj)

-- The memory behind an allocation: the page `f` is empty, and the entry at `e` leads to it.
abbrev pub grown : (ℕ → ℕ) → ℕ → ℕ → ℕ → ℕ
grown mem f e = update (fill_page mem f 0) e (v2p f + 7)

module _ (path_of : ℕ → Option (List ℕ)) (free : List ℕ) (s : Vm) (tree : IsTree path_of free s)
    (f : ℕ) (page : IsFreePage path_of f) (v i : ℕ) (l : List ℕ) (here : path_of v ≡ some l)
    (hi : i < 512) where
  not_free : (u : ℕ) (m : List ℕ) → path_of u ≡ some m → u ≢ f
  not_free u m h e = absurd (none_some (sym page.unused ∙ ap path_of (sym e) ∙ h))
    where
      none_some : {m : List ℕ} → ◌≡◌ {A = Option (List ℕ)} none (some m) → ⊥
      none_some e = ground (arith, e)

  pub leads : child (grown s.mem f (v + 8 * i)) v i ≡ f
  leads =
      rw (update_self (fill_page s.mem f 0) (v + 8 * i) (v2p f + 7))
        (back f page.aligned page.low page.high)
    where
      back : (f : ℕ) → f % 4096 ≡ 0 → kernbase ≤ f → f < 2 ^ 64 → p2v (pte_addr (v2p f + 7)) ≡ f
      back f al lo hi = omega (arith, al, lo, hi)

  pub is_there : is_present (grown s.mem f (v + 8 * i) (v + 8 * i)) ≡ true
  is_there =
      rw (update_self (fill_page s.mem f 0) (v + 8 * i) (v2p f + 7))
        (odd f page.aligned page.low page.high)
    where
      odd : (f : ℕ) → f % 4096 ≡ 0 → kernbase ≤ f → f < 2 ^ 64 → is_present (v2p f + 7) ≡ true
      odd f al lo hi = ground (arith, al, lo, hi)

  -- Every other entry of a table stays.
  pub stays :
      (u j : ℕ) (m : List ℕ)
      → path_of u ≡ some m
      → j < 512
      → u + 8 * j ≢ v + 8 * i
      → grown s.mem f (v + 8 * i) (u + 8 * j) ≡ s.mem (u + 8 * j)
  stays u j m h hj ne =
      let out = outside f u j page.aligned (tree.aligned u m h) hj (not_free u m h) in
      update_ne (fill_page s.mem f 0) (v + 8 * i) (u + 8 * j) (v2p f + 7) ne
      ∙ ap (λ t. if t then 0 else s.mem (u + 8 * j)) out

  -- The new page has no entry.
  empty : (j : ℕ) → j < 512 → grown s.mem f (v + 8 * i) (f + 8 * j) ≡ 0
  empty j hj =
      let ne : f + 8 * j ≢ v + 8 * i = λ e.
        not_free v l here
          (sym (entries_apart f v j i page.aligned (tree.aligned v l here) hj hi e).0) in
      update_ne (fill_page s.mem f 0) (v + 8 * i) (f + 8 * j) (v2p f + 7) ne
      ∙ ap (λ t. if t then 0 else s.mem (f + 8 * j)) (inside f j hj)

  lookup_empty : (js : List ℕ) → IsPath js → lookup (grown s.mem f (v + 8 * i)) f js ≡ none
  lookup_empty [] h = refl
  lookup_empty (j ∷ []) h = rw (empty j h.0) refl
  lookup_empty (j ∷ k ∷ js) h = rw (empty j h.0) refl

  pub lookup_same :
      is_present (s.mem (v + 8 * i)) ≡ false
      → length l ≤ 2
      → (js : List ℕ) (u : ℕ) (m : List ℕ) → path_of u ≡ some m
      → IsPath js
      → length m + length js ≡ 4
      → lookup (grown s.mem f (v + 8 * i)) u js ≡ lookup s.mem u js
  lookup_same absent few [] u m h hj size = refl
  lookup_same absent few (j ∷ []) u m h hj size = ap at_entry (
      stays u j m h hj.0 (λ e.
        let same = some_eq (
          sym h
          ∙ ap path_of
              (entries_apart u v j i (tree.aligned u m h) (tree.aligned v l here) hj.0 hi e).0
          ∙ here) in
        let long : length m ≡ length l = ap length same in omega (arith, long, few, size)))
    where
      some_eq : {a b : List ℕ} → ◌≡◌ {A = Option (List ℕ)} (some a) (some b) → a ≡ b
      some_eq {a} e = ap (λ o. elim o [ none ↦ a | some x ↦ x ]) e
  lookup_same absent few (j ∷ k ∷ js) u m h hj size = elim (Bool-cases (u + 8 * j == v + 8 * i)) [
    | inl same ↦
        let at : u + 8 * j ≡ v + 8 * i = ground (arith, same) in
        let old : lookup s.mem u (j ∷ k ∷ js) ≡ none =
          ap (λ e. if is_present (s.mem e) then lookup s.mem (child s.mem u j) (k ∷ js) else none)
            at
          ∙ ap (λ t. if t then lookup s.mem (child s.mem u j) (k ∷ js) else none) absent in
        let to : child (grown s.mem f (v + 8 * i)) u j ≡ f =
          ap (λ e. p2v (pte_addr (grown s.mem f (v + 8 * i) e))) at ∙ leads in
        let new : lookup (grown s.mem f (v + 8 * i)) u (j ∷ k ∷ js) ≡ none =
          ap
            (λ e.
              if is_present (grown s.mem f (v + 8 * i) e)
              then lookup (grown s.mem f (v + 8 * i)) (child (grown s.mem f (v + 8 * i)) u j)
                  (k ∷ js)
              else none)
            at
          ∙ ap
              (λ t.
                if t
                then lookup (grown s.mem f (v + 8 * i)) (child (grown s.mem f (v + 8 * i)) u j)
                    (k ∷ js)
                else none)
              is_there
          ∙ ap (λ c. lookup (grown s.mem f (v + 8 * i)) c (k ∷ js)) to
          ∙ lookup_empty (k ∷ js) hj.1 in
        new ∙ sym old
    | inr other ↦
        let word = stays u j m h hj.0 (ground (arith, other)) in
        ap
          (λ w.
            if is_present w
            then lookup (grown s.mem f (v + 8 * i)) (p2v (pte_addr w)) (k ∷ js)
            else none)
          word
        ∙ elim (Bool-cases (is_present (s.mem (u + 8 * j)))) [
          | inl there ↦
              ap
                (λ t.
                  if t then lookup (grown s.mem f (v + 8 * i)) (child s.mem u j) (k ∷ js) else none)
                there
              ∙ lookup_same absent few (k ∷ js) (child s.mem u j) (j ∷ m)
                  (tree.entry u j m h (omega (arith, size)) hj.0 there) hj.1 (omega (arith, size))
              ∙ ap (λ t. if t then lookup s.mem (child s.mem u j) (k ∷ js) else none) (sym there)
          | inr gone ↦
              ap
                (λ t.
                  if t then lookup (grown s.mem f (v + 8 * i)) (child s.mem u j) (k ∷ js) else none)
                gone
              ∙ ap (λ t. if t then lookup s.mem (child s.mem u j) (k ∷ js) else none) (sym gone)
        ]
  ]

  -- The places of the tables, with the new one.
  abbrev pub paths : ℕ → Option (List ℕ)
  paths = update path_of f (some (i ∷ l))

  pub paths_kept : (u : ℕ) (m : List ℕ) → path_of u ≡ some m → paths u ≡ some m
  paths_kept u m h = update_ne path_of f u (some (i ∷ l)) (not_free u m h) ∙ h

  pub FreeList_kept :
      (next : ℕ → ℕ) (a : ℕ) (free : List ℕ)
      → All (λ y. y ≢ f) free
      → FreeList path_of next a free
      → FreeList paths next a free
  FreeList_kept next a [] out h = h
  FreeList_kept next a (x ∷ free) out h = (
    h.0,
    record {
      unused = update_ne path_of f x (some (i ∷ l)) out.0 ∙ h.1.unused;
      aligned = h.1.aligned;
      low = h.1.low;
      high = h.1.high;
    },
    h.2,
    FreeList_kept next (next x) free out.1 h.3,
  )

  entry_grown :
      (u j : ℕ) (m : List ℕ)
      → (u == f ≡ false)
      → path_of u ≡ some m
      → length m ≤ 2
      → j < 512
      → is_present (grown s.mem f (v + 8 * i) (u + 8 * j)) ≡ true
      → paths (child (grown s.mem f (v + 8 * i)) u j) ≡ some (j ∷ m)
  entry_grown u j m ne h few hj there = elim (Bool-cases (u + 8 * j == v + 8 * i)) [
    | inl same ↦
        let at : u + 8 * j ≡ v + 8 * i = ground (arith, same) in
        let both = entries_apart u v j i (tree.aligned u m h) (tree.aligned v l here) hj hi at in
        ap (λ e. paths (p2v (pte_addr (grown s.mem f (v + 8 * i) e)))) at
        ∙ ap paths leads
        ∙ update_self path_of f (some (i ∷ l))
        ∙ ap (λ o. elim o [ none ↦ none | some x ↦ some (i ∷ x) ])
            (sym here ∙ ap path_of (sym both.0) ∙ h)
        ∙ ap (λ k. some (k ∷ m)) (sym both.1)
    | inr other ↦
        let word = stays u j m h hj (ground (arith, other)) in
        let there' = ap is_present (sym word) ∙ there in
        ap (λ w. paths (p2v (pte_addr w))) word
        ∙ paths_kept (child s.mem u j) (j ∷ m) (tree.entry u j m h few hj there')
  ]

  pub entry_paths :
      (u j : ℕ) (m : List ℕ)
      → paths u ≡ some m
      → length m ≤ 2
      → j < 512
      → is_present (grown s.mem f (v + 8 * i) (u + 8 * j)) ≡ true
      → paths (child (grown s.mem f (v + 8 * i)) u j) ≡ some (j ∷ m)
  entry_paths u j m h few hj there = elim (Bool-cases (u == f)) [
    | inl new ↦
        let at : u ≡ f = ground (arith, new) in
        let zeroed = ap (λ x. grown s.mem f (v + 8 * i) (x + 8 * j)) at ∙ empty j hj in
        absurd (ground (arith, ap is_present (sym zeroed) ∙ there))
    | inr old ↦
        entry_grown u j m old (ap (λ t. if t then some (i ∷ l) else path_of u) (sym old) ∙ h) few hj
          there
  ]

  pub aligned_paths : (u : ℕ) (m : List ℕ) → paths u ≡ some m → u % 4096 ≡ 0
  aligned_paths u m h = elim (Bool-cases (u == f)) [
    | inl new ↦ let al = page.aligned in ground (arith, new, al)
    | inr old ↦ tree.aligned u m (ap (λ t. if t then some (i ∷ l) else path_of u) (sym old) ∙ h)
  ]

-- A step of `walkpgdir` from the entry `i` of the table `v` to the table `t`.
pub record Next (path_of : ℕ → Option (List ℕ)) (given : List ℕ) (s : Vm) (v i : ℕ) (l : List ℕ)
    (t : ℕ) (s' : Vm) : Type 0 where
  pub paths : ℕ → Option (List ℕ)
  pub free : List ℕ
  pub spent : length given ≤ suc (length free)
  pub tree : IsTree paths free s'
  pub kept : (u : ℕ) (m : List ℕ) → path_of u ≡ some m → paths u ≡ some m
  pub led : paths t ≡ some (i ∷ l)
  pub there : is_present (s'.mem (v + 8 * i)) ≡ true
  pub leads : child s'.mem v i ≡ t
  pub same :
      (js : List ℕ) (u : ℕ) (m : List ℕ)
      → path_of u ≡ some m
      → IsPath js
      → length m + length js ≡ 4
      → lookup s'.mem u js ≡ lookup s.mem u js
  pub stays :
      (u j : ℕ) (m : List ℕ)
      → path_of u ≡ some m
      → j < 512
      → is_present (s.mem (u + 8 * j)) ≡ true
      → s'.mem (u + 8 * j) ≡ s.mem (u + 8 * j)

abbrev pub Stepped :
    (ℕ → Option (List ℕ)) → List ℕ → Vm → (v i : ℕ) → List ℕ → Result (Option ℕ × Vm) → Type 0
Stepped path_of free s v i l panic = length free ≡ 0
Stepped path_of free s v i l (ok (none, s')) = ⊥
Stepped path_of free s v i l (ok (some t, s')) = Next path_of free s v i l t s'
