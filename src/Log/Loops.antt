-- ===== src/Log/Loops.antt =====
-- What a stop at any block write of `commit` leaves, and what recovery makes of it.
use cs461_final_project_grub.Base.{
  ℕ, zero, suc, ◌+◌, ◌-◌, ◌≡◌, ◌≤◌, ◌<◌, refl, ◌⊎◌, inl, inr, Bool, true, false, ◌||◌, arith, ◌==◌,
  Bool-cases,
}
use cs461_final_project_grub.Log.{Block, Log, Device, bread, bwrite, install_from, write_log_from}

-- One of the `k` entries from `tail` on is `b`.
abbrev pub logged : (ℕ → ℕ) → ℕ → ℕ → ℕ → Bool
logged block zero tail b = false
logged block (suc k) tail b = (block tail == b) || logged block k (tail + 1) b

-- `b` is no block of a log at `start` with `n` entries.
abbrev pub Outside : ℕ → ℕ → ℕ → Type 0
Outside start n b = (b < start) ⊎ (start + n < b)

module _ (log : Log) where
  open log use {start, lh}

  -- The install loop writes at the blocks of its entries only.
  pub install_frame :
      (k tail : ℕ) (d : Device) (b : ℕ)
      → logged lh.block k tail b ≡ false
      → let d' = install_from k tail log d in (d'.disk b ≡ d.disk b) × (d'.cache b ≡ d.cache b)
  unfolding install_from bwrite
  install_frame zero tail d b h = (refl, refl)
  install_frame (suc k) tail d b h =
      ground (
        arith,
        install_frame k (tail + 1) (bwrite d (lh.block tail) (bread d (start + tail + 1))) b,
      )

  pub install_power : (k tail : ℕ) (d : Device) → (install_from k tail log d).power ≡ d.power - k
  unfolding install_from bwrite
  install_power zero tail d = omega arith
  install_power (suc k) tail d =
      omega
        (arith, install_power k (tail + 1) (bwrite d (lh.block tail) (bread d (start + tail + 1))))

  -- With power for every round, and a log block for each entry that holds what `value` gives for
  -- the entry's block, the loop leaves that value at each logged block.
  pub install_full :
      (value : ℕ → Block) (k tail : ℕ) (d : Device) (b : ℕ)
      → k ≤ d.power
      → ((j : ℕ) → tail ≤ j → j < tail + k → Outside start (tail + k) (lh.block j))
      → ((j : ℕ) → tail ≤ j → j < tail + k → d.cache (start + j + 1) ≡ value (lh.block j))
      → logged lh.block k tail b ≡ true
      → (install_from k tail log d).disk b ≡ value b
  unfolding install_from bwrite
  install_full value zero tail d b p out held h = cc
  install_full value (suc k) tail d b p out held h =
      elim (Bool-cases (logged lh.block k (tail + 1) b)) [
        | inl later ↦
            install_full value k (tail + 1) next b (omega arith) (λ j lo hi. ground (arith, out j))
              (λ j lo hi. ground (arith, out tail, held j)) later
        | inr last ↦ ground (arith, install_frame k (tail + 1) next b, held tail)
      ]
    where
      next : Device
      next = bwrite d (lh.block tail) (bread d (start + tail + 1))

  -- The log's blocks are where the loop of `write_log` writes.
  pub write_log_frame :
      (k tail : ℕ) (d : Device) (b : ℕ)
      → (b < start + tail + 1) ⊎ (start + tail + k < b)
      → let d' = write_log_from k tail log d in (d'.disk b ≡ d.disk b) × (d'.cache b ≡ d.cache b)
  unfolding write_log_from bwrite
  write_log_frame zero tail d b h = (refl, refl)
  write_log_frame (suc k) tail d b h = ground (
    arith,
    write_log_frame k (tail + 1) (bwrite d (start + tail + 1) (bread d (lh.block tail))) b,
  )

  pub write_log_power :
      (k tail : ℕ) (d : Device) → (write_log_from k tail log d).power ≡ d.power - k
  unfolding write_log_from bwrite
  write_log_power zero tail d = omega arith
  write_log_power (suc k) tail d =
      omega (
        arith,
        write_log_power k (tail + 1) (bwrite d (start + tail + 1) (bread d (lh.block tail))),
      )

  -- With power for every round each log block gets the cached contents of its entry's block.
  pub write_log_full :
      (k tail : ℕ) (d : Device) (j : ℕ)
      → k ≤ d.power
      → tail ≤ j
      → j < tail + k
      → ((i : ℕ) → tail ≤ i → i < tail + k → Outside start (tail + k) (lh.block i))
      → let d' = write_log_from k tail log d in
        (d'.disk (start + j + 1) ≡ d.cache (lh.block j))
        × (d'.cache (start + j + 1) ≡ d.cache (lh.block j))
  unfolding write_log_from bwrite
  write_log_full zero tail d j p lo hi out = absurd (omega arith)
  write_log_full (suc k) tail d j p lo hi out = elim (Bool-cases (j == tail)) [
    | inl here ↦ ground (arith, write_log_frame k (tail + 1) next (start + j + 1))
    | inr later ↦
        let ih =
          write_log_full k (tail + 1) next j (omega arith) (ground arith) (omega arith)
            (λ i l h. ground (arith, out i)) in
        ground (arith, ih, out j)
  ]
    where
      next : Device
      next = bwrite d (start + tail + 1) (bread d (lh.block tail))
