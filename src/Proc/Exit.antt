-- ===== src/Proc/Exit.antt =====
-- `exit`: the children, the parent and the process itself afterwards.
use mathlib.Core.Option
use mathlib.Core.Path.{subst}
use cs461_final_project_grub.Base.{
  ℕ, zero, suc, ◌+◌, ◌≡◌, ◌≢◌, ◌≤◌, ◌<◌, inl, inr, refl, ap, sym, false, ◌&&◌, ltb, leb, ◌==◌,
  if◌then◌else◌, Option, none, some, List, [], ◌∷◌, get_elem?, Bool-cases, Option-cases, arith, ok,
}
use cs461_final_project_grub.File.{Ftable, Drop}
use cs461_final_project_grub.Proc.{
  zombie, is_zombie, is_sleeping, Proc, Table, modify, Chan, of_proc, same_chan, wake, wakeup1,
  nproc,
}
use cs461_final_project_grub.Proc.Ending.{is_parent, reparent_from, exit, no_files, parent_chan}
use cs461_final_project_grub.Proc.Slots.{get-modify, get-map}

-- The parent of a slot's process.
abbrev pub parent_at : Table → ℕ → Option (Option ℕ)
parent_at t j = Option.map (λ (p : Proc). p.parent) (get_elem? t j)

-- Whom a process with the parent `o` has for a parent once `cur` is gone.
abbrev pub adopt : ℕ → ℕ → Option ℕ → Option ℕ
adopt cur init o = if is_parent cur o then some init else o

parent_at-wakeup1 : (c : Chan) (t : Table) (j : ℕ) → parent_at (wakeup1 c t) j ≡ parent_at t j
unfolding wakeup1 wake
parent_at-wakeup1 c t j = ground (arith, get-map (wake c) t j)

get-none : (t : Table) (i j : ℕ) → i ≤ j → get_elem? t i ≡ none → get_elem? t j ≡ none
get-none [] i j le h = refl
get-none (p ∷ ps) zero j le h = cc
get-none (p ∷ ps) (suc i) zero le h = absurd (omega arith)
get-none (p ∷ ps) (suc i) (suc j) le h = get-none ps i j (omega arith) h

-- One round of the loop of `exit` over the children.
abbrev adopt_round : ℕ → ℕ → ℕ → Proc → Table → Table
adopt_round cur init i p t =
    let t' = modify i (λ p. record p { parent = some init }) t in
    let t'' = if is_zombie p.state then wakeup1 (of_proc init) t' else t' in
    if is_parent cur p.parent then t'' else t

adopt_round_lem :
    (cur init i : ℕ) (p : Proc) (t : Table) (j : ℕ)
    → get_elem? t i ≡ some p
    → parent_at (adopt_round cur init i p t) j
      ≡ (if j == i then Option.map (adopt cur init) (parent_at t j) else parent_at t j)
adopt_round_lem cur init i p t j e = ground (
  arith,
  e,
  get-modify i (λ p. record p { parent = some init }) t j,
  parent_at-wakeup1 (of_proc init) (modify i (λ p. record p { parent = some init }) t) j,
)

reparent_from_lem :
    (n i cur init : ℕ) (t : Table) (j : ℕ)
    → parent_at (reparent_from n i cur init t) j ≡ (
        if leb i j && ltb j (i + n)
        then Option.map (adopt cur init) (parent_at t j)
        else parent_at t j)
unfolding reparent_from
reparent_from_lem zero i cur init t j = ground arith
reparent_from_lem (suc n) i cur init t j = elim (Option-cases (get_elem? t i)) [
  | inl gone ↦ ground (arith, gone, get-none t i j)
  | inr (p, e) ↦
      let round : reparent_from (suc n) i cur init t
          ≡ reparent_from n (i + 1) cur init (adopt_round cur init i p t) =
        rw (e, reparent_from) in
      rw round (
        ground (
          arith,
          adopt_round_lem cur init i p t j e,
          reparent_from_lem n (i + 1) cur init (adopt_round cur init i p t) j,
        ))
]

-- The process of slot `q` does not sleep on `c`.
abbrev pub AwakeFor : Chan → ℕ → Table → Type 0
AwakeFor c q t =
    (p : Proc) → get_elem? t q ≡ some p → (is_sleeping p.state && same_chan p.chan c) ≡ false

AwakeFor-wakeup1 : (c : Chan) (q : ℕ) (t : Table) → AwakeFor c q (wakeup1 c t)
unfolding wakeup1 wake
AwakeFor-wakeup1 c q t p e = elim (Option-cases (get_elem? t q)) [
  | inl gone ↦ absurd (ground (arith, e, gone, get-map (wake c) t q))
  | inr (r, at) ↦ ground (arith, e, at, get-map (wake c) t q)
]

AwakeFor-later : (c d : Chan) (q : ℕ) (t : Table) → AwakeFor c q t → AwakeFor c q (wakeup1 d t)
unfolding wakeup1 wake
AwakeFor-later c d q t h p e = elim (Option-cases (get_elem? t q)) [
  | inl gone ↦ absurd (ground (arith, e, gone, get-map (wake d) t q))
  | inr (r, at) ↦ ground (arith, e, at, h r at, get-map (wake d) t q)
]

AwakeFor-adopt :
    (c : Chan) (q i init : ℕ) (t : Table)
    → AwakeFor c q t
    → AwakeFor c q (modify i (λ p. record p { parent = some init }) t)
AwakeFor-adopt c q i init t h p e = elim (Option-cases (get_elem? t q)) [
  | inl gone ↦
      absurd (ground (arith, e, gone, get-modify i (λ p. record p { parent = some init }) t q))
  | inr (r, at) ↦
      ground (arith, e, at, h r at, get-modify i (λ p. record p { parent = some init }) t q)
]

AwakeFor-round :
    (c : Chan) (q cur init i : ℕ) (p : Proc) (t : Table)
    → AwakeFor c q t
    → AwakeFor c q (adopt_round cur init i p t)
AwakeFor-round c q cur init i p t h = elim (Bool-cases (is_parent cur p.parent)) [
  | inr other ↦ rw other h
  | inl child ↦ elim (Bool-cases (is_zombie p.state)) [
    | inl dead ↦
        rw (child, dead)
          (AwakeFor-later c (of_proc init) q (modify i (λ p. record p { parent = some init }) t)
            (AwakeFor-adopt c q i init t h))
    | inr alive ↦ rw (child, alive) (AwakeFor-adopt c q i init t h)
  ]
]

AwakeFor-reparent :
    (c : Chan) (q n i cur init : ℕ) (t : Table)
    → AwakeFor c q t
    → AwakeFor c q (reparent_from n i cur init t)
unfolding reparent_from
AwakeFor-reparent c q zero i cur init t h = h
AwakeFor-reparent c q (suc n) i cur init t h = elim (Option-cases (get_elem? t i)) [
  | inl gone ↦ rw (gone, reparent_from) h
  | inr (p, e) ↦
      rw (e, reparent_from)
        (AwakeFor-reparent c q n (i + 1) cur init (adopt_round cur init i p t)
          (AwakeFor-round c q cur init i p t h))
]

-- The table as `exit` leaves it.
abbrev pub exited : ℕ → ℕ → Proc → Table → Table
exited cur init p t =
    modify cur (λ p. record p { state = zombie })
      (reparent_from nproc 0 cur init (
        wakeup1 (parent_chan p.parent)
          (modify cur (λ p. record p { ofile = no_files p.ofile; cwd = 0 }) t)))

-- What `exit` of `cur` leaves of a table.
pub record Exited (cur init : ℕ) (p : Proc) (t t' : Table) : Type 0 where
  pub adopted : (j : ℕ) → j < nproc → parent_at t' j ≡ Option.map (adopt cur init) (parent_at t j)
  pub dead : (q : Proc) → get_elem? t' cur ≡ some q → q.state ≡ zombie
  pub told : (q : ℕ) → p.parent ≡ some q → q ≢ cur → AwakeFor (of_proc q) q t'

exited-Exited : (cur init : ℕ) (p : Proc) (t : Table) → Exited cur init p t (exited cur init p t)
exited-Exited cur init p t = record {
  adopted = λ j lt. ground (
    arith,
    get-modify cur die t3 j,
    reparent_from_lem nproc 0 cur init t2 j,
    parent_at-wakeup1 (parent_chan p.parent) t1 j,
    get-modify cur drop t j,
  );
  dead = λ q e. elim (Option-cases (get_elem? t3 cur)) [
    | inl gone ↦ absurd (ground (arith, e, gone, get-modify cur die t3 cur))
    | inr (r, at) ↦ ground (arith, e, at, get-modify cur die t3 cur)
  ];
  told = λ q par ne r e.
      AwakeFor-reparent (of_proc q) q nproc 0 cur init t2
        (subst (λ c. AwakeFor (of_proc q) q (wakeup1 c t1)) (ap parent_chan (sym par))
          (AwakeFor-wakeup1 (of_proc q) q t1))
        r (ground (arith, ne, e, get-modify cur die t3 q));
}
  where
    die : Proc → Proc
    die p = record p { state = zombie }

    drop : Proc → Proc
    drop p = record p { ofile = no_files p.ofile; cwd = 0 }

    t1 : Table
    t1 = modify cur drop t

    t2 : Table
    t2 = wakeup1 (parent_chan p.parent) t1

    t3 : Table
    t3 = reparent_from nproc 0 cur init t2

-- An `exit` that reaches the scheduler leaves `cur` a zombie, hands each of its children, and no
-- other process, to `init`, and leaves its parent, if that is another process, not asleep in
-- `wait`.
pub exit-Exited :
    (cur init : ℕ) (t : Table) (files : Ftable) (p : Proc) {t' : Table} {files' : Ftable}
    {drops : List Drop} {ip : ℕ}
    → get_elem? t cur ≡ some p
    → exit cur init t files ≡ ok (t', files', drops, ip)
    → Exited cur init p t t'
unfolding exit
exit-Exited cur init t files p {t'} e h =
    subst (λ r. Exited cur init p t r) same (exited-Exited cur init p t)
  where
    same : exited cur init p t ≡ t'
    same = ground (arith, e, h)
