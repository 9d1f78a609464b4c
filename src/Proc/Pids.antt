-- ===== src/Proc/Pids.antt =====
-- `fork`: the child, its pid, and the pids of all processes.
use mathlib.Core.Path.{subst}
use cs461_final_project_grub.Base.{
  ℕ, ◌+◌, ◌≡◌, ◌≢◌, ◌<◌, ◌⊎◌, inl, inr, refl, sym, false, ◌==◌, if◌then◌else◌, none, some,
  get_elem?, Bool-cases, Option-cases, arith, pos, negsuc, ok, ok_eq, Result-cases,
}
use cs461_final_project_grub.File.{Ftable}
use cs461_final_project_grub.Proc.{
  embryo, unused, runnable, is_unused, Proc, Table, modify, Kernel, allocproc, claim_from,
  context_offset, Forked, fork, fork_into, dup_files, child_of,
}
use cs461_final_project_grub.Proc.Slots.{get-modify, allocproc-some}

-- Every pid has been given out, and no two slots in use have the same.
pub record IsNumbered (k : Kernel) : Type 0 where
  pub given : (j : ℕ) (p : Proc) → get_elem? k.table j ≡ some p → p.pid < k.nextpid
  pub apart :
      (i j : ℕ) (p q : Proc)
      → i ≢ j
      → get_elem? k.table i ≡ some p
      → get_elem? k.table j ≡ some q
      → is_unused p.state ≡ false
      → is_unused q.state ≡ false
      → p.pid ≢ q.pid

-- One slot gets the next pid.
IsNumbered-put :
    (k : Kernel) (i : ℕ) (new : Proc) (t : Table)
    → IsNumbered k
    → new.pid ≡ k.nextpid
    → ((j : ℕ) → get_elem? t j ≡ (if j == i then some new else get_elem? k.table j))
    → IsNumbered (record { table = t; nextpid = k.nextpid + 1 })
IsNumbered-put k i new t v e at = record {
  given = λ j p h. elim (Bool-cases (j == i)) [
    | inl here ↦ ground (arith, at j, h, here, e)
    | inr other ↦ ground (arith, at j, h, other, v.given j p)
  ];
  apart = λ a b p q ne ha hb pa pb. elim (Bool-cases (a == i)) [
    | inl here ↦ ground (arith, at a, at b, ha, hb, here, e, v.given b q)
    | inr other ↦ elim (Bool-cases (b == i)) [
      | inl here ↦ ground (arith, at a, at b, ha, hb, here, other, e, v.given a p)
      | inr others ↦ ground (arith, at a, at b, ha, hb, other, others, v.apart a b p q)
    ]
  ];
}

-- What a `fork` by `cur` from the state `k` comes to.
pub data ForkOutcome (cur : ℕ) (k : Kernel) (r : Forked) : Type 0 where
  refused : r.value ≡ negsuc 0 → IsNumbered r.kernel → ForkOutcome cur k r
  forked :
      (slot : ℕ) (child : Proc)
      → r.value ≡ pos k.nextpid
      → IsNumbered r.kernel
      → ((j : ℕ)
          → get_elem? r.kernel.table j ≡ (if j == slot then some child else get_elem? k.table j))
      → child.pid ≡ k.nextpid
      → child.parent ≡ some cur
      → child.tf.rax ≡ 0
      → child.state ≡ runnable
      → ForkOutcome cur k r

allocproc_pair :
    (kstack : ℕ) (k : Kernel)
    → kstack ≢ 0
    → (allocproc kstack k ≡ (none, k))
      ⊎ ((i : ℕ) × (k' : Kernel) × (allocproc kstack k ≡ (some i, k')))
unfolding allocproc
allocproc_pair kstack k h = elim (Option-cases (claim_from 0 k.nextpid k.table)) [
  | inl full ↦ inl (rw (full, allocproc))
  | inr ((i, t), e) ↦
      let good : (kstack == 0) ≡ false = ground arith in
      inr (
        i,
        record {
          table = modify i (λ p. record p { kstack = kstack; context = kstack + context_offset }) t;
          nextpid = k.nextpid + 1;
        },
        rw (e, allocproc) (rw good refl),
      )
]

ForkOutcome_child :
    (cur kstack pgdir : ℕ) (k k' : Kernel) (i : ℕ) (p : Proc) (files' : Ftable) (r : Forked)
    → IsNumbered k
    → allocproc kstack k ≡ (some i, k')
    → record {
      value = pos k.nextpid;
      kernel = record k' { table = modify i (child_of cur p pgdir) k'.table };
      files = files';
      idup = some p.cwd;
    }
      ≡ r
    → ForkOutcome cur k r
unfolding child_of
ForkOutcome_child cur kstack pgdir k k' i p files' r v a e =
    let (slot, at, free, next, all) = allocproc-some kstack k a in
    let np : Proc = record slot {
      state = embryo;
      pid = k.nextpid;
      kstack = kstack;
      context = kstack + context_offset;
    } in
    let child : Proc = child_of cur p pgdir np in
    let table : (j : ℕ)
        → get_elem? (modify i (child_of cur p pgdir) k'.table) j
          ≡ (if j == i then some child else get_elem? k.table j) =
      λ j. ground (arith, all j, get-modify i (child_of cur p pgdir) k'.table j) in
    let numbered : IsNumbered
        (record { table = modify i (child_of cur p pgdir) k'.table; nextpid = k.nextpid + 1 }) =
      IsNumbered-put k i child (modify i (child_of cur p pgdir) k'.table) v refl table in
    subst (ForkOutcome cur k) e (
      forked i child refl
        (subst
          (λ n.
            IsNumbered (record { table = modify i (child_of cur p pgdir) k'.table; nextpid = n }))
          (sym next) numbered)
        table refl refl refl refl)

ForkOutcome_refused :
    (cur kstack : ℕ) (k k' : Kernel) (i : ℕ) (files : Ftable) (r : Forked)
    → IsNumbered k
    → allocproc kstack k ≡ (some i, k')
    → record {
      value = negsuc 0;
      kernel = record k' {
        table = modify i (λ p. record p { kstack = 0; state = unused }) k'.table;
      };
      files = files;
      idup = none;
    }
      ≡ r
    → ForkOutcome cur k r
ForkOutcome_refused cur kstack k k' i files r v a e =
    let (slot, at, free, next, all) = allocproc-some kstack k a in
    let freed : Proc → Proc = λ p. record p { kstack = 0; state = unused } in
    let np : Proc = record slot {
      state = unused;
      pid = k.nextpid;
      kstack = 0;
      context = kstack + context_offset;
    } in
    let table : (j : ℕ)
        → get_elem? (modify i freed k'.table) j
          ≡ (if j == i then some np else get_elem? k.table j) =
      λ j. ground (arith, all j, get-modify i freed k'.table j) in
    let numbered : IsNumbered
        (record { table = modify i freed k'.table; nextpid = k.nextpid + 1 }) =
      IsNumbered-put k i np (modify i freed k'.table) v refl table in
    subst (ForkOutcome cur k) e (
      refused refl (
        subst (λ n. IsNumbered (record { table = modify i freed k'.table; nextpid = n })) (sym next)
          numbered))

-- `fork` by a process, with a kernel stack and from a table in which all pids have been given out
-- and the used slots have different ones: it returns -1 and keeps the pids so, or it returns the
-- next pid, and exactly one slot has changed: it holds a runnable child with that pid, whose parent
-- is the caller and whose own `fork` returns 0, and the pids are as before.
pub fork_lem :
    (cur kstack pgdir : ℕ) (k : Kernel) (files : Ftable) {r : Forked}
    → kstack ≢ 0
    → IsNumbered k
    → fork cur kstack pgdir k files ≡ ok r
    → ForkOutcome cur k r
unfolding fork fork_into
fork_lem cur kstack pgdir k files {r} h v e = elim (allocproc_pair kstack k h) [
  | inl a ↦
      subst (ForkOutcome cur k)
        (ok_eq (subst (λ x. fork_into cur pgdir k.nextpid files x ≡ ok r) a e)) (refused refl v)
  | inr (i, k', a) ↦
      forked_into i k' a (subst (λ x. fork_into cur pgdir k.nextpid files x ≡ ok r) a e)
]
  where
    forked_into :
        (i : ℕ) (k' : Kernel)
        → allocproc kstack k ≡ (some i, k')
        → fork_into cur pgdir k.nextpid files (some i, k') ≡ ok r
        → ForkOutcome cur k r
    forked_into i k' a e' = elim (Bool-cases (pgdir == 0)) [
      | inl bad ↦
          ForkOutcome_refused cur kstack k k' i files r v a (ok_eq (ground (arith, bad, e')))
      | inr good ↦ elim (Option-cases (get_elem? k'.table cur)) [
        | inl gone ↦ absurd (ground (arith, good, gone, e'))
        | inr (p, here) ↦ elim (Result-cases (dup_files p.ofile files)) [
          | inl bad ↦ absurd (ground (arith, good, here, bad, e'))
          | inr (files', dup) ↦
              ForkOutcome_child cur kstack pgdir k k' i p files' r v a
                (ok_eq (ground (arith, good, here, dup, e')))
        ]
      ]
    ]
