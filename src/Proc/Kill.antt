-- ===== src/Proc/Kill.antt =====
-- `kill`, and what it does to a slot that no process has.
use cs461_final_project_grub.Base.{
  ℕ, zero, suc, ◌+◌, ◌≡◌, ◌≢◌, ◌<◌, inl, inr, refl, true, false, ◌==◌, if◌then◌else◌, some, [], ◌∷◌,
  get_elem?, Bool-cases, arith, ℤ, pos, negsuc,
}
use cs461_final_project_grub.Proc.{
  embryo, runnable, is_unused, is_sleeping, Proc, Table, claim_from,
}
use cs461_final_project_grub.Proc.Ending.{kill}

-- A process after `kill`: marked, and woken if it slept.
abbrev pub marked : Proc → Proc
marked p = record p { killed = true; state = (if is_sleeping p.state then runnable else p.state) }

-- The first slot with the pid is marked and no other slot changes; without one, nothing does.
pub data Marked (pid : ℕ) (t : Table) : ℤ × Table → Type 0 where
  first :
      (i : ℕ) (p : Proc) {t' : Table}
      → get_elem? t i ≡ some p
      → p.pid ≡ pid
      → ((j : ℕ) (q : Proc) → j < i → get_elem? t j ≡ some q → q.pid ≢ pid)
      → ((j : ℕ) → get_elem? t' j ≡ (if j == i then some (marked p) else get_elem? t j))
      → Marked pid t (pos 0, t')
  nobody : ((j : ℕ) (q : Proc) → get_elem? t j ≡ some q → q.pid ≢ pid) → Marked pid t (negsuc 0, t)

kill_next :
    (pid : ℕ) (p : Proc) (ps : Table) (r : ℤ × Table)
    → p.pid ≢ pid
    → Marked pid ps r
    → Marked pid (p ∷ ps) (r.0, p ∷ r.1)
kill_next pid p ps r ne (first i q {t'} at same before after) =
    first (suc i) q at same earlier (λ j. changed j)
  where
    earlier : (j : ℕ) (q : Proc) → j < suc i → get_elem? (p ∷ ps) j ≡ some q → q.pid ≢ pid
    earlier zero q lt e = ground (arith, e, ne)
    earlier (suc j) q lt e = before j q (omega arith) e

    changed :
        (j : ℕ)
        → get_elem? (p ∷ t') j ≡ (if j == suc i then some (marked q) else get_elem? (p ∷ ps) j)
    changed zero = ground arith
    changed (suc j) = ground (arith, after j)
kill_next pid p ps r ne (nobody all) = nobody everywhere
  where
    everywhere : (j : ℕ) (q : Proc) → get_elem? (p ∷ ps) j ≡ some q → q.pid ≢ pid
    everywhere zero q e = ground (arith, e, ne)
    everywhere (suc j) q e = all j q e

-- `kill` returns 0 and marks the first process with the pid, which it also wakes if it sleeps, and
-- changes no other; if no slot has the pid it returns -1 and changes nothing.
pub kill-Marked : (pid : ℕ) (t : Table) → Marked pid t (kill pid t)
unfolding kill
kill-Marked pid [] = nobody (λ j q e. cc)
kill-Marked pid (p ∷ ps) = elim (Bool-cases (p.pid == pid)) [
  | inl hit ↦
      rw hit (first zero p refl (ground (arith, hit)) (λ j q lt e. absurd (omega arith)) changed)
  | inr miss ↦
      rw miss (kill_next pid p ps (kill pid ps) (ground (arith, miss)) (kill-Marked pid ps))
]
  where
    changed :
        (j : ℕ)
        → get_elem? (marked p ∷ ps) j ≡ (if j == 0 then some (marked p) else get_elem? (p ∷ ps) j)
    changed zero = refl
    changed (suc j) = ground arith

-- The first slot with pid 0 is the first unused one, as it is where every process has a pid.
abbrev pub FirstFree : ℕ → Table → Type 0
FirstFree i [] = ⊥
FirstFree zero (p ∷ ps) = (is_unused p.state ≡ true) × (p.pid ≡ 0)
FirstFree (suc i) (p ∷ ps) = (is_unused p.state ≡ false) × (p.pid ≢ 0) × FirstFree i ps

-- Where the first slot with pid 0 is the first unused one: `kill(0)` succeeds although no process
-- has pid 0, and the next process to be allocated starts out killed.
pub kill_zero :
    (o pid i : ℕ) (t : Table)
    → FirstFree i t
    → ((kill 0 t).0 ≡ pos 0)
      × ((t' : Table) × (p : Proc) × (claim_from o pid (kill 0 t).1 ≡ some (o + i, t'))
          × (get_elem? t' i ≡ some p)
          × (p.killed ≡ true)
          × (p.pid ≡ pid))
unfolding kill claim_from
kill_zero o pid i [] h = absurd h
kill_zero o pid zero (p ∷ ps) h = (
  ground arith,
  (
    record p { killed = true; state = embryo; pid = pid } ∷ ps,
    record p { killed = true; state = embryo; pid = pid },
    ground arith,
    refl,
    refl,
    refl,
  ),
)
kill_zero o pid (suc i) (p ∷ ps) h =
    let (r, (t', q, e, at, dead, new)) = kill_zero (o + 1) pid i ps h.2 in
    let shift : o + 1 + i ≡ o + suc i = omega arith in
    (ground (arith, r, h), (p ∷ t', q, ground (arith, e, shift, h), at, dead, new))
