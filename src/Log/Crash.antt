-- ===== src/Log/Crash.antt =====
-- A stop at any block write of `commit` or of the recovery: what the next boot finds.
use mathlib.Core.Path.{subst}
use cs461_final_project_grub.Base.{
  ℕ, zero, suc, ◌+◌, ◌≡◌, ◌∙◌, ◌≢◌, ◌≤◌, ◌<◌, refl, inl, inr, true, false, arith, leb,
  if◌then◌else◌, Bool-cases,
}
use cs461_final_project_grub.Log.{
  Block, Log, Device, install_trans, read_head, write_head, clear, recover_from_log,
}
use cs461_final_project_grub.Log.Loops.{logged, Outside, install_frame, install_power, install_full}
use cs461_final_project_grub.Log.Header.{read_head-block, write_head-disk, write_head-frame}

-- A disk whose log at `start` holds the new contents `value` of the blocks `block j`, `j < n`.
pub record Holds (disk : ℕ → Block) (start n : ℕ) (block : ℕ → ℕ) (value : ℕ → Block) : Type 0 where
  pub count : disk start 0 ≡ n
  pub entries : (j : ℕ) → j < n → disk start (j + 1) ≡ block j
  pub outside : (j : ℕ) → j < n → Outside start n (block j)
  pub contents : (j : ℕ) → j < n → disk (start + j + 1) ≡ value (block j)

-- The machine after a stop: the cache is empty, so `bread` reads the disk.
pub reboot : (ℕ → Block) → ℕ → Device
reboot disk power = record { disk = disk; cache = disk; power = power }

-- The contents of the blocks that recovery is to leave.
abbrev pub replayed : (n : ℕ) (block : ℕ → ℕ) (value disk : ℕ → Block) → ℕ → Block
replayed n block value disk b = if logged block n 0 b then value b else disk b

logged_ext :
    (k tail : ℕ) (f g : ℕ → ℕ) (b : ℕ)
    → ((j : ℕ) → tail ≤ j → j < tail + k → f j ≡ g j)
    → logged f k tail b ≡ logged g k tail b
logged_ext zero tail f g b h = refl
logged_ext (suc k) tail f g b h =
    ground
      (arith, h tail, logged_ext k (tail + 1) f g b (λ j lo hi. h j (omega arith) (omega arith)))

pub not_logged :
    (k tail : ℕ) (block : ℕ → ℕ) (b : ℕ)
    → ((j : ℕ) → tail ≤ j → j < tail + k → block j ≢ b)
    → logged block k tail b ≡ false
not_logged zero tail block b h = refl
not_logged (suc k) tail block b h =
    ground
      (arith, h tail, not_logged k (tail + 1) block b (λ j lo hi. h j (omega arith) (omega arith)))

module _ (disk : ℕ → Block) (log : Log) (n : ℕ) (block : ℕ → ℕ) (value : ℕ → Block)
    (holds : Holds disk log.start n block value) where
  open holds use {count, entries, outside, contents}

  abbrev found : (power : ℕ) → Log
  found power = read_head log (reboot disk power)

  found_n : (power : ℕ) → (found power).lh.n ≡ n
  unfolding read_head reboot
  found_n power = count

  found_start : (power : ℕ) → (found power).start ≡ log.start
  unfolding read_head reboot
  found_start power = refl

  found_block : (power j : ℕ) → j < n → (found power).lh.block j ≡ block j
  unfolding reboot
  found_block power j h = ground (arith, read_head-block log (reboot disk power) j, entries j)

  found_logged : (power b : ℕ) → logged (found power).lh.block n 0 b ≡ logged block n 0 b
  found_logged power b =
      logged_ext n 0 (found power).lh.block block b (λ j lo hi. found_block power j (omega arith))

  -- The blocks of the log, and what is no logged block, come through the installation.
  installed_frame :
      (power b : ℕ)
      → logged block n 0 b ≡ false
      → (install_trans (found power) (reboot disk power)).disk b ≡ disk b
  unfolding install_trans reboot
  installed_frame power b h =
      simp (found_n power)
        ((install_frame (found power) n 0 (reboot disk power) b (found_logged power b ∙ h)).0)

  installed_full :
      (power b : ℕ)
      → n ≤ power
      → logged block n 0 b ≡ true
      → (install_trans (found power) (reboot disk power)).disk b ≡ value b
  unfolding install_trans reboot
  installed_full power b p h = simp (found_n power) (
      install_full (found power) value n 0 (reboot disk power) b p
        (λ j lo hi.
          rw (found_start power, found_block power j (omega arith)) (ground (arith, outside j)))
        (λ j lo hi.
          rw (found_start power, found_block power j (omega arith)) (ground (arith, contents j)))
        (found_logged power b ∙ h))

  log_not_logged : (w : ℕ) → log.start ≤ w → w ≤ log.start + n → logged block n 0 w ≡ false
  log_not_logged w lo hi = not_logged n 0 block w (λ j l h. ground (arith, outside j))

  -- Recovery with power for its writes leaves each home block with its logged contents, and the
  -- others as they were, and clears the log.
  pub recover_full :
      (power b : ℕ)
      → n < power
      → Outside log.start n b
      → let d' = (recover_from_log log (reboot disk power)).1 in
        (d'.disk b ≡ replayed n block value disk b) × (d'.disk log.start 0 ≡ 0)
  unfolding recover_from_log
  recover_full power b p out = (
    home,
    subst (λ at. (write_head (clear (found power)) inst).disk at 0 ≡ 0) (found_start power)
        (write_head-disk (clear (found power)) inst powered).0,
  )
    where
      inst : Device
      inst = install_trans (found power) (reboot disk power)

      powered : 0 < inst.power
      powered =
          unfold install_trans reboot in
          simp (found_n power) (omega (arith, install_power (found power) n 0 (reboot disk power)))

      home : (write_head (clear (found power)) inst).disk b ≡ replayed n block value disk b
      home =
          write_head-frame (clear (found power)) inst b
            (inl (rw (found_start power) (ground arith)))
          ∙ elim (Bool-cases (logged block n 0 b)) [
            | inl hit ↦ rw hit (installed_full power b (omega arith) hit)
            | inr miss ↦ rw miss (installed_frame power b miss)
          ]

  -- A recovery that stops before it clears the header leaves the log as it found it.
  recover_frame :
      (power b : ℕ)
      → power ≤ n
      → logged block n 0 b ≡ false
      → (recover_from_log log (reboot disk power)).1.disk b ≡ disk b
  unfolding recover_from_log
  recover_frame power b p miss =
      write_head-frame (clear (found power)) inst b (inr spent) ∙ installed_frame power b miss
    where
      inst : Device
      inst = install_trans (found power) (reboot disk power)

      spent : inst.power ≡ 0
      spent =
          unfold install_trans reboot in
          simp (found_n power) (omega (arith, install_power (found power) n 0 (reboot disk power)))

-- No entries are held by a log whose header says 0.
pub Holds-zero :
    (disk : ℕ → Block) (start : ℕ) (block : ℕ → ℕ) (value : ℕ → Block)
    → disk start 0 ≡ 0
    → Holds disk start 0 block value
Holds-zero disk start block value e = record {
  count = e;
  entries = λ j h. absurd (omega arith);
  outside = λ j h. absurd (omega arith);
  contents = λ j h. absurd (omega arith);
}

pub Holds-frame :
    (disk disk' : ℕ → Block) (start n : ℕ) (block : ℕ → ℕ) (value : ℕ → Block)
    → ((w : ℕ) → start ≤ w → w ≤ start + n → disk' w ≡ disk w)
    → Holds disk start n block value
    → Holds disk' start n block value
Holds-frame disk disk' start n block value same holds = record {
  count = rw (same start (omega arith) (omega arith)) count;
  entries = λ j h. rw (same start (omega arith) (omega arith)) (entries j h);
  outside = outside;
  contents = λ j h. rw (same (start + j + 1) (omega arith) (omega arith)) (contents j h);
}
  where
    open holds use {count, entries, outside, contents}

-- On a disk that holds a committed transaction: stopping a recovery after any number of block
-- writes and starting it again, with enough writes to install the blocks, ends as an undisturbed
-- recovery does: each logged block holds its logged contents, and no other home block has changed.
pub recover_again :
    (disk : ℕ → Block) (log : Log) (n : ℕ) (block : ℕ → ℕ) (value : ℕ → Block)
    → Holds disk log.start n block value
    → (power power' b : ℕ) → n < power'
    → Outside log.start n b
    → let stopped = (recover_from_log log (reboot disk power)).1.disk in
      (recover_from_log log (reboot stopped power')).1.disk b ≡ replayed n block value disk b
recover_again disk log n block value holds power power' b p out = elim (Bool-cases (leb power n)) [
  | inl short ↦
      let kept =
        Holds-frame disk stopped log.start n block value
          (λ w lo hi.
            recover_frame disk log n block value holds power w (ground arith)
              (log_not_logged disk log n block value holds w lo hi))
          holds in
      (recover_full stopped log n block value kept power' b p out).0
      ∙ elim (Bool-cases (logged block n 0 b)) [
        | inl hit ↦ rw hit
        | inr miss ↦
            rw miss (recover_frame disk log n block value holds power b (ground arith) miss)
      ]
  | inr full ↦
      let done = recover_full disk log n block value holds power b (ground arith) out in
      (recover_full stopped log 0 block value (Holds-zero stopped log.start block value done.1)
        power' b (omega arith) (omega arith)).0
      ∙ done.0
]
  where
    stopped : ℕ → Block
    stopped = (recover_from_log log (reboot disk power)).1.disk
