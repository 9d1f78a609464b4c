-- ===== src/Proc/Slots.antt =====
-- Slots of the process table: what a change of one slot does to each, and the slot that is claimed.
use mathlib.Core.Path.{subst}
use mathlib.Core.Option
use cs461_final_project_grub.Base.{
  ℕ, zero, suc, ◌+◌, ◌≡◌, inl, inr, refl, ap, sym, ◌∙◌, true, ◌==◌, if◌then◌else◌, Option, none,
  some, [], ◌∷◌, map, get_elem?, Bool-cases, Option-cases, arith,
}
use cs461_final_project_grub.Proc.{
  embryo, is_unused, Proc, Table, claim_from, modify, Kernel, allocproc, context_offset,
}

pub get-modify :
    (i : ℕ) (f : Proc → Proc) (t : Table) (j : ℕ)
    → get_elem? (modify i f t) j ≡ (if j == i then Option.map f (get_elem? t j) else get_elem? t j)
unfolding modify
get-modify i f [] j = ground arith
get-modify zero f (p ∷ ps) zero = refl
get-modify zero f (p ∷ ps) (suc j) = ground arith
get-modify (suc i) f (p ∷ ps) zero = ground arith
get-modify (suc i) f (p ∷ ps) (suc j) = ground (arith, get-modify i f ps j)

pub get-map :
    (f : Proc → Proc) (t : Table) (j : ℕ) → get_elem? (map f t) j ≡ Option.map f (get_elem? t j)
get-map f [] j = refl
get-map f (p ∷ ps) zero = refl
get-map f (p ∷ ps) (suc j) = get-map f ps j

-- What `allocproc` does to the slot that it claims.
abbrev pub claim : ℕ → Proc → Proc
claim pid p = record p { state = embryo; pid = pid }

pub record Claimed (pid : ℕ) (t : Table) (i : ℕ) (t' : Table) : Type 0 where
  pub slot : Proc
  pub at : get_elem? t i ≡ some slot
  pub free : is_unused slot.state ≡ true
  pub changed : t' ≡ modify i (claim pid) t

pair_eq :
    {a b : ℕ} {l m : Table}
    → ◌≡◌ {A = Option (ℕ × Table)} (some (a, l)) (some (b, m))
    → (a ≡ b) × (l ≡ m)
pair_eq {a} {l} h = (
  ap (λ o. elim o [ none ↦ a | some (x, _) ↦ x ]) h,
  ap (λ o. elim o [ none ↦ l | some (_, y) ↦ y ]) h,
)

claim_from-Claimed :
    (o pid : ℕ) (t : Table) {j : ℕ} {t' : Table}
    → claim_from o pid t ≡ some (j, t')
    → (i : ℕ) × (j ≡ o + i) × Claimed pid t i t'
unfolding claim_from modify
claim_from-Claimed o pid [] h = absurd (ground (arith, h))
claim_from-Claimed o pid (p ∷ ps) {j} {t'} h = elim (Bool-cases (is_unused p.state)) [
  | inl free ↦
      let e : ◌≡◌ {A = Option (ℕ × Table)} (some (o, claim pid p ∷ ps)) (some (j, t')) =
        rw free at h in
      (
        0,
        omega (arith, (pair_eq e).0),
        record { slot = p; at = refl; free = free; changed = sym (pair_eq e).1 },
      )
  | inr used ↦ elim (Option-cases (claim_from (o + 1) pid ps)) [
    | inl full ↦ absurd (ground (arith, full, used))
    | inr ((k, l), e) ↦
        let (i, at, c) = claim_from-Claimed (o + 1) pid ps e in
        let e' : ◌≡◌ {A = Option (ℕ × Table)} (some (k, p ∷ l)) (some (j, t')) =
          ground (arith, e, used, h) in
        (
          suc i,
          omega (arith, (pair_eq e').0, at),
          record {
            slot = c.slot;
            at = c.at;
            free = c.free;
            changed = sym (pair_eq e').1 ∙ ap (λ r. p ∷ r) c.changed;
          },
        )
  ]
]

-- A successful `allocproc` claims an unused slot for the next pid, gives it its stack, and touches
-- no other slot.
pub allocproc-some :
    (kstack : ℕ) (k : Kernel) {i : ℕ} {k' : Kernel}
    → allocproc kstack k ≡ (some i, k')
    → (p : Proc) × (get_elem? k.table i ≡ some p)
      × (is_unused p.state ≡ true)
      × (k'.nextpid ≡ k.nextpid + 1)
      × ((j : ℕ)
          → get_elem? k'.table j ≡ (
              if j == i
              then some (record p {
                state = embryo;
                pid = k.nextpid;
                kstack = kstack;
                context = kstack + context_offset;
              })
              else get_elem? k.table j))
unfolding allocproc
allocproc-some kstack k {i} {k'} h = elim (Option-cases (claim_from 0 k.nextpid k.table)) [
  | inl full ↦ absurd (ground (arith, full))
  | inr ((c, t), e) ↦ elim (Bool-cases (kstack == 0)) [
    | inl bad ↦ absurd (ground (arith, e, bad))
    | inr good ↦
        let (i', at, cl) = claim_from-Claimed 0 k.nextpid k.table e in
        let slot : i ≡ i' = ground (arith, e, good, at, h) in
        let setup : Proc → Proc =
          λ p. record p { kstack = kstack; context = kstack + context_offset } in
        let there : c ≡ i = omega (arith, at, slot) in
        let tbl : k'.table ≡ modify i setup (modify i (claim k.nextpid) k.table) =
          subst (λ s. k'.table ≡ modify s setup (modify s (claim k.nextpid) k.table)) there
            (subst (λ s. k'.table ≡ modify c setup (modify s (claim k.nextpid) k.table))
              (sym slot ∙ sym there)
              (subst (λ l. k'.table ≡ modify c setup l) cl.changed (ground (arith, e, good, h)))) in
        (
          cl.slot,
          rw slot cl.at,
          cl.free,
          ground (arith, e, good),
          λ j. rw tbl (
              ground (
                arith,
                slot,
                cl.at,
                get-modify i setup (modify i (claim k.nextpid) k.table) j,
                get-modify i (claim k.nextpid) k.table j,
              )),
        )
  ]
]
