-- ===== src/Vm/Entries.antt =====
-- vm.c: entries, the tree of tables, and the map that it stands for.
use cs461_final_project_grub.Base.{
  ℕ, zero, suc, ◌+◌, ◌*◌, ◌/◌, ◌%◌, ◌^◌, ◌≡◌, ◌≢◌, ◌≤◌, ◌<◌, Bool, true, false, ◌||◌, ◌==◌,
  if◌then◌else◌, Option, none, some, List, [], ◌∷◌, length, All, arith,
}
use cs461_final_project_grub.Kalloc.{kernbase}
use cs461_final_project_grub.Vm.{Vm, p2v, pte_p, pte_w, pte_u, is_present, pte_addr, lor}

pub odd_bit : (a r : ℕ) → r ≡ a / 2 → (if a % 2 == 1 || false then 1 else 0) + 2 * r ≡ a
odd_bit a r e = ground (arith, e)

pub lor_zero : (w a : ℕ) → a < 2 ^ w → lor w a 0 ≡ a
unfolding lor
lor_zero zero a lt = omega (arith, lt)
lor_zero (suc w) a lt = odd_bit a (lor w (a / 2) 0) (lor_zero w (a / 2) (omega (arith, lt)))

pub lor_seven : (w a : ℕ) → a % 8 ≡ 0 → a / 8 < 2 ^ w → lor (suc (suc (suc w))) a 7 ≡ a + 7
unfolding lor
lor_seven w a low lt =
    let high = lor_zero w (a / 2 / 2 / 2) (omega (arith, lt)) in
    bits (a % 2 == 1) (a / 2 % 2 == 1) (a / 2 / 2 % 2 == 1) (lor w (a / 2 / 2 / 2) 0)
      (omega (arith, high, low))
  where
    bits :
        (x y z : Bool) (r : ℕ)
        → 7 + 8 * r ≡ a + 7
        → (if x || true then 1 else 0)
            + 2 * ((if y || true then 1 else 0) + 2 * ((if z || true then 1 else 0) + 2 * r))
          ≡ a + 7
    bits x y z r e = ground (arith, e)

-- The flags of a table's entry.
pub lor_flags : (a : ℕ) → a % 4096 ≡ 0 → a < 2 ^ 64 → lor 64 a (pte_p + pte_w + pte_u) ≡ a + 7
lor_flags a low lt = lor_seven 61 a (omega (arith, low)) (omega (arith, lt))

pub present_lor : (w a : ℕ) → is_present (lor (suc w) a pte_p) ≡ true
unfolding lor
present_lor w a = bit (a % 2 == 1) (lor w (a / 2) 0)
  where
    bit : (x : Bool) (r : ℕ) → is_present ((if x || true then 1 else 0) + 2 * r) ≡ true
    bit x r = ground arith

-- A page that may be given out: what `kfree` lets in.
pub record IsFreePage (path_of : ℕ → Option (List ℕ)) (v : ℕ) : Type 0 where
  pub unused : path_of v ≡ none
  pub aligned : v % 4096 ≡ 0
  pub low : kernbase ≤ v
  pub high : v < 2 ^ 64

-- The free list from `v`, each page in it once.
abbrev pub FreeList : (ℕ → Option (List ℕ)) → (next : ℕ → ℕ) → (v : ℕ) → List ℕ → Type 0
FreeList path_of next v [] = v ≡ 0
FreeList path_of next v (x ∷ l) =
    (v ≡ x) × IsFreePage path_of x × All (λ y. y ≢ x) l × FreeList path_of next (next x) l

abbrev pub child : (ℕ → ℕ) → ℕ → ℕ → ℕ
child mem v i = p2v (pte_addr (mem (v + 8 * i)))

-- `path_of` says of a table which entries lead to it, the last first: no table stands at two places.
pub record IsTree (path_of : ℕ → Option (List ℕ)) (free : List ℕ) (s : Vm) : Type 0 where
  pub aligned : (v : ℕ) (l : List ℕ) → path_of v ≡ some l → v % 4096 ≡ 0
  pub entry :
      (v i : ℕ) (l : List ℕ)
      → path_of v ≡ some l
      → length l ≤ 2
      → i < 512
      → is_present (s.mem (v + 8 * i)) ≡ true
      → path_of (child s.mem v i) ≡ some (i ∷ l)
  pub pages : FreeList path_of s.kmem.next s.kmem.freelist free

-- The present entry that the tables from `v` have at a path.
abbrev pub at_entry : ℕ → Option ℕ
at_entry e = if is_present e then some e else none

abbrev pub lookup : (ℕ → ℕ) → ℕ → List ℕ → Option ℕ
lookup mem v [] = none
lookup mem v (i ∷ []) = at_entry (mem (v + 8 * i))
lookup mem v (i ∷ j ∷ l) =
    if is_present (mem (v + 8 * i)) then lookup mem (child mem v i) (j ∷ l) else none

abbrev pub IsPath : List ℕ → Type 0
IsPath l = All (λ i. i < 512) l
