-- ===== src/Log/Commit.antt =====
-- `commit` against its promise: all of the transaction or none of it, wherever the machine stops.
use mathlib.Core.Path.{fun_ext}
use cs461_final_project_grub.Base.{
  ℕ, zero, suc, ◌+◌, ◌-◌, ◌≡◌, ◌∙◌, ◌≤◌, ◌<◌, refl, ◌⊎◌, inl, inr, true, false, arith, leb,
  if◌then◌else◌, Bool-cases,
}
use cs461_final_project_grub.Log.{
  Block, Log, Device, bread, bwrite, install_from, install_trans, write_head, clear,
  recover_from_log, write_log, commit, initlog,
}
use cs461_final_project_grub.Log.Loops.{
  logged, Outside, install_frame, install_power, install_full, write_log_frame, write_log_power,
  write_log_full,
}
use cs461_final_project_grub.Log.Header.{write_head-disk, write_head-frame, write_head-cache}
use cs461_final_project_grub.Log.Crash.{
  Holds, reboot, replayed, not_logged, recover_full, Holds-zero, Holds-frame,
}

-- What a transaction needs: a clear log on the disk, and entries that are not blocks of the log.
pub record IsReady (log : Log) (d : Device) : Type 0 where
  pub clean : d.disk log.start 0 ≡ 0
  pub outside : (j : ℕ) → j < log.lh.n → Outside log.start log.lh.n (log.lh.block j)

install_spent :
    (log : Log) (k tail : ℕ) (d : Device) → d.power ≡ 0 → (install_from k tail log d).disk ≡ d.disk
unfolding install_from bwrite
install_spent log zero tail d h = refl
install_spent log (suc k) tail d h = ground (
  arith,
  install_spent log k (tail + 1) (bwrite d (log.lh.block tail) (bread d (log.start + tail + 1)))
      (omega arith),
)

module _ (log : Log) (d : Device) (ready : IsReady log d) where
  open log use {start, lh}
  open ready use {clean, outside}

  abbrev d1 : Device
  d1 = write_log log d

  abbrev d2 : Device
  d2 = write_head log d1

  abbrev d3 : Device
  d3 = install_trans log d2

  abbrev d4 : Device
  d4 = write_head (clear log) d3

  d1_power : d1.power ≡ d.power - lh.n
  unfolding write_log
  d1_power = write_log_power log lh.n 0 d

  d2_power : d2.power ≡ d.power - lh.n - 1
  unfolding write_head bwrite
  d2_power = omega (arith, d1_power)

  d3_power : d3.power ≡ d.power - lh.n - 1 - lh.n
  unfolding install_trans
  d3_power = omega (arith, install_power log lh.n 0 d2, d2_power)

  d1_frame :
      (b : ℕ) → (b ≤ start) ⊎ (start + lh.n < b) → (d1.disk b ≡ d.disk b) × (d1.cache b ≡ d.cache b)
  unfolding write_log
  d1_frame b h = write_log_frame log lh.n 0 d b (omega arith)

  region : (w : ℕ) → start ≤ w → w ≤ start + lh.n → logged lh.block lh.n 0 w ≡ false
  region w lo hi = not_logged lh.n 0 lh.block w (λ j l h. ground (arith, outside j))

  d3_frame : (b : ℕ) → logged lh.block lh.n 0 b ≡ false → d3.disk b ≡ d2.disk b
  unfolding install_trans
  d3_frame b h = (install_frame log lh.n 0 d2 b h).0

  -- With no power for the header the stop leaves the log clear and each home block as it was.
  spent : (b : ℕ) → d.power ≤ lh.n → (b ≤ start) ⊎ (start + lh.n < b) → d4.disk b ≡ d.disk b
  unfolding install_trans
  spent b p h =
      write_head-frame (clear log) d3 b (inr (omega (arith, d3_power)))
      ∙ (ap_at (install_spent log lh.n 0 d2 (omega (arith, d2_power)))
          ∙ (write_head-frame log d1 b (inr (omega (arith, d1_power))) ∙ (d1_frame b h).0))
    where
      ap_at : {f g : ℕ → Block} → f ≡ g → f b ≡ g b
      ap_at e = λ i. e i b

  -- With power for the header the log holds the transaction.
  d2_Holds : lh.n < d.power → Holds d2.disk start lh.n lh.block d.cache
  d2_Holds p = record {
    count = (write_head-disk log d1 (omega (arith, d1_power))).0;
    entries = (write_head-disk log d1 (omega (arith, d1_power))).1;
    outside = outside;
    contents = λ j h. write_head-frame log d1 (start + j + 1) (inl (omega arith)) ∙ filled j h;
  }
    where
      filled : (j : ℕ) → j < lh.n → d1.disk (start + j + 1) ≡ d.cache (lh.block j)
      filled j h =
          unfold write_log in
          (write_log_full log lh.n 0 d j (omega arith) (omega arith) (omega arith)
            (λ i lo hi. ground (arith, outside i))).0

  d3_Holds : lh.n < d.power → Holds d3.disk start lh.n lh.block d.cache
  d3_Holds p =
      Holds-frame d2.disk d3.disk start lh.n lh.block d.cache
        (λ w lo hi. d3_frame w (region w lo hi)) (d2_Holds p)

  -- A home block that is not of the transaction.
  unlogged :
      (b : ℕ) → Outside start lh.n b → logged lh.block lh.n 0 b ≡ false → d3.disk b ≡ d.disk b
  unlogged b out miss =
      d3_frame b miss
      ∙ (write_head-frame log d1 b (inl (omega arith)) ∙ (d1_frame b (omega arith)).0)

  d2_cache : (b : ℕ) → Outside start lh.n b → d2.cache b ≡ d.cache b
  d2_cache b out = write_head-cache log d1 b (omega arith) ∙ (d1_frame b (omega arith)).1

  -- With power for the installation each logged block holds its new contents.
  d3_full :
      (b : ℕ) → lh.n + 1 + lh.n ≤ d.power → logged lh.block lh.n 0 b ≡ true → d3.disk b ≡ d.cache b
  unfolding install_trans
  d3_full b p hit =
      install_full log d.cache lh.n 0 d2 b (omega (arith, d2_power))
        (λ j lo hi. ground (arith, outside j))
        (λ j lo hi. write_head-cache log d1 (start + j + 1) (omega arith) ∙ filled j (omega arith))
        hit
    where
      filled : (j : ℕ) → j < lh.n → d1.cache (start + j + 1) ≡ d.cache (lh.block j)
      filled j h =
          unfold write_log in
          (write_log_full log lh.n 0 d j (omega arith) (omega arith) (omega arith)
            (λ i lo hi. ground (arith, outside i))).1

  -- The four stages are `commit`, also where the log is empty and `commit` does nothing.
  commit-disk : (b : ℕ) → 0 < lh.n → (commit log d).1.disk b ≡ d4.disk b
  unfolding commit
  commit-disk b h = ground arith

  -- With power for every write the transaction is on the disk and the log is clear.
  finished :
      (b : ℕ)
      → lh.n + 1 + lh.n < d.power
      → Outside start lh.n b
      → (d4.disk b ≡ replayed lh.n lh.block d.cache d.disk b) × (d4.disk start 0 ≡ 0)
  finished b p out = (
    write_head-frame (clear log) d3 b (inl (omega arith))
        ∙ elim (Bool-cases (logged lh.block lh.n 0 b)) [
          | inl hit ↦ rw hit (d3_full b (omega arith) hit)
          | inr miss ↦ rw miss (unlogged b out miss)
        ],
    (write_head-disk (clear log) d3 (omega (arith, d3_power))).0,
  )

  abbrev later : Log → Log
  later boot = record boot { start = start; size = log.size; dev = log.dev }

  -- A stop before the last header write: the boot finds the whole transaction in the log.
  replay_stop :
      (boot : Log) (power b : ℕ)
      → lh.n < d.power
      → d.power ≤ lh.n + 1 + lh.n
      → lh.n < power
      → Outside start lh.n b
      → (recover_from_log (later boot) (reboot d4.disk power)).1.disk b
        ≡ replayed lh.n lh.block d.cache d.disk b
  replay_stop boot power b lo hi p out =
      (recover_full d4.disk (later boot) lh.n lh.block d.cache kept power b p out).0
      ∙ elim (Bool-cases (logged lh.block lh.n 0 b)) [
        | inl hit ↦ rw hit
        | inr miss ↦ rw miss (same b ∙ unlogged b out miss)
      ]
    where
      same : (w : ℕ) → d4.disk w ≡ d3.disk w
      same w = write_head-frame (clear log) d3 w (inr (omega (arith, d3_power)))

      kept : Holds d4.disk start lh.n lh.block d.cache
      kept = Holds-frame d3.disk d4.disk start lh.n lh.block d.cache (λ w l h. same w) (d3_Holds lo)

  -- A stop with the header cleared, or never written: the boot changes no home block.
  clear_stop :
      (boot : Log) (power b : ℕ)
      → d4.disk start 0 ≡ 0
      → lh.n < power
      → Outside start lh.n b
      → (recover_from_log (later boot) (reboot d4.disk power)).1.disk b ≡ d4.disk b
  clear_stop boot power b e p out =
      (recover_full d4.disk (later boot) 0 lh.block d.cache
        (Holds-zero d4.disk start lh.block d.cache e) power b (omega arith) (omega arith)).0

  stages_atomic :
      (boot : Log) (power b : ℕ)
      → lh.n < power
      → Outside start lh.n b
      → (recover_from_log (later boot) (reboot d4.disk power)).1.disk b
        ≡ (if leb d.power lh.n then d.disk b else replayed lh.n lh.block d.cache d.disk b)
  stages_atomic boot power b p out = elim (Bool-cases (leb d.power lh.n)) [
    | inl early ↦ rw early (
        clear_stop boot power b (unwritten (ground arith)) p out
        ∙ spent b (ground arith) (omega arith))
    | inr late ↦ rw late (elim (Bool-cases (leb d.power (lh.n + 1 + lh.n))) [
      | inl held ↦ replay_stop boot power b (ground arith) (ground arith) p out
      | inr over ↦
          let done = finished b (ground arith) out in clear_stop boot power b done.1 p out ∙ done.0
    ])
  ]
    where
      unwritten : d.power ≤ lh.n → d4.disk start 0 ≡ 0
      unwritten h = rw (spent start h (omega arith)) clean

-- For a log that is ready to commit and has a block, and any number of block writes that `commit`
-- makes before the machine stops: `initlog` at the next boot, with enough writes to finish, leaves
-- each home block as it was before the transaction, if the header was not yet written, and
-- otherwise with the transaction's contents in each logged block and the others as they were: no
-- stop shows a part of a transaction.
pub commit_atomic :
    (log : Log) (d : Device) (boot : Log) (power b : ℕ)
    → IsReady log d
    → 0 < log.lh.n
    → log.lh.n < power
    → Outside log.start log.lh.n b
    → let stopped = (commit log d).1.disk in
      (initlog log.start log.size log.dev boot (reboot stopped power)).1.disk b
      ≡ (if leb d.power log.lh.n then d.disk b else replayed log.lh.n log.lh.block d.cache d.disk b)
unfolding initlog
commit_atomic log d boot power b ready some p out =
    let e : (commit log d).1.disk ≡ (d4 log d ready).disk =
      fun_ext (λ w. commit-disk log d ready w some) in
    rw e (stages_atomic log d ready boot power b p out)

-- A `commit` of a log that is ready and has a block, with enough block writes to finish, writes
-- each logged block's new contents to its home block, changes no other home block, and leaves the
-- log clear on the disk and in memory.
pub commit-installs :
    (log : Log) (d : Device) (b : ℕ)
    → IsReady log d
    → 0 < log.lh.n
    → log.lh.n + 1 + log.lh.n < d.power
    → Outside log.start log.lh.n b
    → let (log', d') = commit log d in
      (d'.disk b ≡ replayed log.lh.n log.lh.block d.cache d.disk b)
      × (d'.disk log.start 0 ≡ 0)
      × (log'.lh.n ≡ 0)
commit-installs log d b ready some p out = (
  commit-disk log d ready b some ∙ done.0,
  (λ i. commit-disk log d ready log.start some i 0) ∙ done.1,
  unfold commit in ground arith,
)
  where
    done :
        ((d4 log d ready).disk b ≡ replayed log.lh.n log.lh.block d.cache d.disk b)
        × ((d4 log d ready).disk log.start 0 ≡ 0)
    done = finished log d ready b p out
