-- ===== src/Log/Writes.antt =====
-- `log_write`: the slot that it takes.
use cs461_final_project_grub.Base.{
  ℕ, zero, suc, ◌+◌, ◌≡◌, ◌≤◌, ◌<◌, refl, ◌⊎◌, inl, inr, true, ◌||◌, arith, ◌==◌, if◌then◌else◌,
  Bool-cases, update, ok,
}
use cs461_final_project_grub.Log.{Log, slot_from, log_write}
use cs461_final_project_grub.Log.Loops.{logged}

-- The search loop stops at the first entry that is `b`, or behind the last.
slot_from_lem :
    (k i : ℕ) (block : ℕ → ℕ) (b : ℕ)
    → let s = slot_from k i block b in
      (i ≤ s)
      × (s ≤ i + k)
      × (if logged block k i b then (s < i + k) × (block s ≡ b) else s ≡ i + k)
unfolding slot_from
slot_from_lem zero i block b = ground arith
slot_from_lem (suc k) i block b = ground (arith, slot_from_lem k (i + 1) block b)

logged_update :
    (k i : ℕ) (block : ℕ → ℕ) (s b c : ℕ)
    → (s < i) ⊎ (i + k ≤ s) ⊎ (block s ≡ b)
    → logged (update block s b) k i c ≡ logged block k i c
logged_update zero i block s b c h = refl
logged_update (suc k) i block s b c h =
    ground (arith, logged_update k (i + 1) block s b c (ground arith))

logged_last :
    (k i : ℕ) (block : ℕ → ℕ) (c : ℕ)
    → logged block (suc k) i c ≡ (logged block k i c || block (i + k) == c)
logged_last zero i block c = let e : i + 0 ≡ i = omega arith in rw e (ground arith)
logged_last (suc k) i block c =
    let e : i + suc k ≡ i + 1 + k = omega arith in
    rw e (ground (arith, logged_last k (i + 1) block c))

logged_mem :
    (k i : ℕ) (block : ℕ → ℕ) (s : ℕ) → i ≤ s → s < i + k → logged block k i (block s) ≡ true
logged_mem zero i block s lo hi = absurd (omega arith)
logged_mem (suc k) i block s lo hi = elim (Bool-cases (i == s)) [
  | inl e ↦ ground arith
  | inr ne ↦ ground (arith, logged_mem k (i + 1) block s (ground arith) (omega arith))
]

-- The entries after the slot of `b` has been filled.
slot_entries :
    (n : ℕ) (block : ℕ → ℕ) (b c : ℕ)
    → let i = slot_from n 0 block b in
      logged (update block i b) (if i == n then n + 1 else n) 0 c ≡ (logged block n 0 c || b == c)
slot_entries n block b c = elim (Bool-cases (logged block n 0 b)) [
  | inl old ↦
      let at = slot_from_lem n 0 block b in
      let kept = logged_update n 0 block (slot_from n 0 block b) b c in
      ground (arith, at, kept, logged_mem n 0 block (slot_from n 0 block b))
  | inr new ↦
      let at = slot_from_lem n 0 block b in
      let kept = logged_update n 0 block n b c (omega arith) in
      let slot : slot_from n 0 block b ≡ n = ground (arith, at) in
      let more : (if n == n then n + 1 else n) ≡ suc n = ground arith in
      rw slot (rw more (ground (arith, kept, logged_last n 0 (update block n b) c)))
]

-- A successful `log_write` adds its block to those of the transaction, takes a new slot only for a
-- block that has none, and leaves the rest of the log as it was.
pub log_write_lem :
    (b : ℕ) (log : Log) {log' : Log}
    → log_write b log ≡ ok log'
    → ((c : ℕ) → logged log'.lh.block log'.lh.n 0 c ≡ (logged log.lh.block log.lh.n 0 c || b == c))
      × (log'.lh.n ≡ (if logged log.lh.block log.lh.n 0 b then log.lh.n else log.lh.n + 1))
      × (log'.outstanding ≡ log.outstanding)
      × (log'.committing ≡ log.committing)
      × (log'.size ≡ log.size)
      × (log'.start ≡ log.start)
unfolding log_write
log_write_lem b log {log'} h = (
  λ c. ground (arith, slot_entries log.lh.n log.lh.block b c),
  ground (arith, slot_from_lem log.lh.n 0 log.lh.block b),
  ground arith,
  ground arith,
  ground arith,
  ground arith,
)
