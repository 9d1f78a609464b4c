-- ===== src/Vm/Leaves.antt =====
-- vm.c: a write to an entry of a lowest table.

use cs461_final_project_grub.Base.{
  ℕ, ◌+◌, ◌*◌, ◌≡◌, ◌≢◌, ◌≤◌, ◌<◌, inl, inr, refl, ap, sym, ◌∙◌, if◌then◌else◌, Option, none, some,
  List, [], ◌∷◌, length, update, update_self, update_ne, Bool-cases, arith,
}
use cs461_final_project_grub.Vm.{Vm, p2v, is_present, pte_addr}
use cs461_final_project_grub.Vm.Tables.{entries_apart}
use cs461_final_project_grub.Vm.Entries.{child, IsTree, at_entry, lookup, IsPath}
use cs461_final_project_grub.Vm.Walk.{slot}

pub some_eq : {A : Type 0} {a b : A} → ◌≡◌ {A = Option A} (some a) (some b) → a ≡ b
some_eq {a} e = ap (λ o. elim o [ none ↦ a | some x ↦ x ]) e

-- The path of a table, and the indices behind it.
abbrev pub onto : List ℕ → List ℕ → List ℕ
onto [] m = m
onto (j ∷ js) m = onto js (j ∷ m)

pub lookup-slot :
    (mem : ℕ → ℕ) (js : List ℕ) (u p : ℕ)
    → slot mem u js ≡ some p
    → lookup mem u js ≡ at_entry (mem p)
lookup-slot mem [] u p h = absurd (ground (arith, h))
lookup-slot mem (j ∷ []) u p h = ap (λ a. at_entry (mem a)) (some_eq h)
lookup-slot mem (j ∷ k ∷ js) u p h = elim (Bool-cases (is_present (mem (u + 8 * j)))) [
  | inl there ↦
      ap (λ b. if b then lookup mem (child mem u j) (k ∷ js) else none) there
      ∙ lookup-slot mem (k ∷ js) (child mem u j) p
          (ap (λ b. if b then slot mem (child mem u j) (k ∷ js) else none) (sym there) ∙ h)
  | inr gone ↦
      let no_slot =
        ap (λ b. if b then slot mem (child mem u j) (k ∷ js) else none) (sym gone) ∙ h in
      absurd (ground (arith, no_slot))
]

-- A write of `w` to the entry `k` of the lowest table `t`.
module _ (path_of : ℕ → Option (List ℕ)) (free : List ℕ) (s : Vm) (tree : IsTree path_of free s)
    (t k : ℕ) (place : List ℕ) (here : path_of t ≡ some place) (size : length place ≡ 3)
    (hk : k < 512) (w : ℕ) where
  pub upper_apart :
      (u j : ℕ) (m : List ℕ) → path_of u ≡ some m → length m ≤ 2 → j < 512 → u + 8 * j ≢ t + 8 * k
  upper_apart u j m h few hj e =
      let same : m ≡ place = some_eq (
        sym h
        ∙ ap path_of
            (entries_apart u t j k (tree.aligned u m h) (tree.aligned t place here) hj hk e).0
        ∙ here) in
      let long : length m ≡ length place = ap length same in omega (arith, long, few, size)

  pub lookup_other :
      (js : List ℕ) (u : ℕ) (m : List ℕ)
      → path_of u ≡ some m
      → IsPath js
      → length m + length js ≡ 4
      → onto js m ≢ k ∷ place
      → lookup (update s.mem (t + 8 * k) w) u js ≡ lookup s.mem u js
  lookup_other [] u m h hj n ne = refl
  lookup_other (j ∷ []) u m h hj n ne = ap at_entry (
      update_ne s.mem (t + 8 * k) (u + 8 * j) w (λ e.
        let both =
          entries_apart u t j k (tree.aligned u m h) (tree.aligned t place here) hj.0 hk e in
        let same : m ≡ place = some_eq (sym h ∙ ap path_of both.0 ∙ here) in
        ne (ap (λ x. x ∷ m) both.1 ∙ ap (λ l. k ∷ l) same)))
  lookup_other (j ∷ j' ∷ js) u m h hj n ne =
      let few : length m ≤ 2 = omega (arith, n) in
      let word = update_ne s.mem (t + 8 * k) (u + 8 * j) w (upper_apart u j m h few hj.0) in
      ap
        (λ x.
          if is_present x
          then lookup (update s.mem (t + 8 * k) w) (p2v (pte_addr x)) (j' ∷ js)
          else none)
        word
      ∙ elim (Bool-cases (is_present (s.mem (u + 8 * j)))) [
        | inl there ↦
            ap
              (λ b.
                if b then lookup (update s.mem (t + 8 * k) w) (child s.mem u j) (j' ∷ js) else none)
              there
            ∙ lookup_other (j' ∷ js) (child s.mem u j) (j ∷ m) (tree.entry u j m h few hj.0 there)
                hj.1 (omega (arith, n)) ne
            ∙ ap (λ b. if b then lookup s.mem (child s.mem u j) (j' ∷ js) else none) (sym there)
        | inr gone ↦
            ap
              (λ b.
                if b then lookup (update s.mem (t + 8 * k) w) (child s.mem u j) (j' ∷ js) else none)
              gone
            ∙ ap (λ b. if b then lookup s.mem (child s.mem u j) (j' ∷ js) else none) (sym gone)
      ]

  pub lookup_hit :
      (js : List ℕ) (u : ℕ) (m : List ℕ)
      → path_of u ≡ some m
      → IsPath js
      → length m + length js ≡ 4
      → slot s.mem u js ≡ some (t + 8 * k)
      → lookup (update s.mem (t + 8 * k) w) u js ≡ at_entry w
  lookup_hit [] u m h hj n at = absurd (ground (arith, at))
  lookup_hit (j ∷ []) u m h hj n at =
      ap (λ a. at_entry (update s.mem (t + 8 * k) w a)) (some_eq at)
      ∙ ap at_entry (update_self s.mem (t + 8 * k) w)
  lookup_hit (j ∷ j' ∷ js) u m h hj n at =
      let few : length m ≤ 2 = omega (arith, n) in
      let word = update_ne s.mem (t + 8 * k) (u + 8 * j) w (upper_apart u j m h few hj.0) in
      ap
        (λ x.
          if is_present x
          then lookup (update s.mem (t + 8 * k) w) (p2v (pte_addr x)) (j' ∷ js)
          else none)
        word
      ∙ elim (Bool-cases (is_present (s.mem (u + 8 * j)))) [
        | inl there ↦
            ap
              (λ b.
                if b then lookup (update s.mem (t + 8 * k) w) (child s.mem u j) (j' ∷ js) else none)
              there
            ∙ lookup_hit (j' ∷ js) (child s.mem u j) (j ∷ m) (tree.entry u j m h few hj.0 there)
                hj.1 (omega (arith, n))
                (ap (λ b. if b then slot s.mem (child s.mem u j) (j' ∷ js) else none) (sym there)
                  ∙ at)
        | inr gone ↦ absurd (
            let no_slot =
              ap (λ b. if b then slot s.mem (child s.mem u j) (j' ∷ js) else none) (sym gone)
              ∙ at in
            ground (arith, no_slot))
      ]

  -- The tree is still one.
  pub written-IsTree : IsTree path_of free (record s { mem = update s.mem (t + 8 * k) w })
  written-IsTree = record {
    aligned = tree.aligned;
    entry = λ u j m h few hj there.
        let word = update_ne s.mem (t + 8 * k) (u + 8 * j) w (upper_apart u j m h few hj) in
        ap (λ x. path_of (p2v (pte_addr x))) word
        ∙ tree.entry u j m h few hj (ap is_present (sym word) ∙ there);
    pages = tree.pages;
  }
