-- ===== src/Vm/Tests.antt =====
-- Runs of vm.c and the theorems at concrete inputs.
use cs461_final_project_grub.Base.{
  ℕ, ◌+◌, ◌*◌, ◌≡◌, refl, true, false, ◌==◌, if◌then◌else◌, Option, none, some, List, [], ◌∷◌,
  Bool-cases, inl, inr, ap, sym, ◌∙◌, ok, panic, arith,
}
use cs461_final_project_grub.Kalloc.{kernbase, kalloc}
use cs461_final_project_grub.Vm.{Vm, lor, next_table, zeroed_page, walkpgdir, map_from, mappages}
use cs461_final_project_grub.Vm.Entries.{IsTree, lookup}
use cs461_final_project_grub.Vm.Walk.{Walked, path, walkpgdir-Walked}
use cs461_final_project_grub.Vm.Mapping.{Mapped, mappages-Mapped}

abbrev table_at : ℕ → ℕ
table_at n = kernbase + 4096 * n

abbrev pages : List ℕ
pages = table_at 2 ∷ table_at 3 ∷ table_at 4 ∷ []

-- An empty top table at page, and three free pages.
abbrev start : Vm
start = record {
  kmem = record {
    use_lock = false;
    freelist = table_at 2;
    next = λ v. if v == table_at 2 then table_at 3 else if v == table_at 3 then table_at 4 else 0;
  };
  mem = λ a. 0;
  kpdpt = 0;
}

abbrev start_paths : ℕ → Option (List ℕ)
start_paths v = if v == table_at 1 then some [] else none

start-IsTree : IsTree start_paths pages start
start-IsTree = record {
  aligned = λ v l h. elim (Bool-cases (v == table_at 1)) [
    | inl same ↦ ground (arith, same)
    | inr other ↦ absurd (
        let no_path = ap (λ b. if b then some [] else none) (sym other) ∙ h in
        ground (arith, no_path))
  ];
  entry = λ v i l h few hi there. absurd (ground (arith, there));
  pages = (
    refl,
    record { unused = refl; aligned = refl; low = omega arith; high = omega arith },
    omega arith,
    (
      refl,
      record { unused = refl; aligned = refl; low = omega arith; high = omega arith },
      omega arith,
      (
        refl,
        record { unused = refl; aligned = refl; low = omega arith; high = omega arith },
        tt,
        refl,
      ),
    ),
  );
}

walkpgdir-Walked_example :
    Walked start_paths pages start (table_at 1) 0x1000 (walkpgdir (table_at 1) 0x1000 true start)
walkpgdir-Walked_example =
    walkpgdir-Walked start_paths pages start (table_at 1) 0x1000 refl start-IsTree

mappages-Mapped_example :
    Mapped pages start
      (table_at 1)
      0x1000
      (lor 64 (lor 64 0x5000 6) 1)
      (mappages (table_at 1) 0x1000 4096 0x5000 6 start)
mappages-Mapped_example =
    mappages-Mapped start_paths pages start (table_at 1) 0x1000 0x5000 6 start-IsTree refl refl
      (omega arith)

-- The entry that the run leaves.
mappages_run :
    (elim (mappages (table_at 1) 0x1000 4096 0x5000 6 start) [
      | panic ↦ none
      | ok (_, s) ↦ lookup s.mem (table_at 1) (path 0x1000)
    ])
    ≡ some 0x5007
unfolding mappages map_from walkpgdir next_table zeroed_page kalloc lor
mappages_run = refl
