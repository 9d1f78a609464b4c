-- ===== src/Log/Tests.antt =====
-- Runs of log.c and the theorems at concrete inputs.
use cs461_final_project_grub.Base.{
  ℕ, ◌+◌, ◌≡◌, ◌<◌, refl, inr, pos, true, false, arith, [], ◌∷◌, ◌==◌, if◌then◌else◌, update,
}
use cs461_final_project_grub.Log.{Block, Log, Device, commit, initlog, recover_from_log}
use cs461_final_project_grub.Log.Crash.{Holds, reboot, recover_again}
use cs461_final_project_grub.Log.Commit.{IsReady, commit_atomic, commit-installs}
use cs461_final_project_grub.Log.Ops.{Busy}

-- Two blocks, 40 and 41, are to be written; block `b` is cached as `b` in every word.
abbrev full_log : Log
full_log = record {
  start = 2;
  size = 31;
  outstanding = pos 0;
  committing = true;
  dev = 1;
  lh = record { n = 2; block = λ j. 40 + j };
}

abbrev device : ℕ → Device
device power = record { disk = λ b w. 0; cache = λ b w. b; power = power }

full_log-IsReady : (power : ℕ) → IsReady full_log (device power)
full_log-IsReady power = record { clean = refl; outside = λ j h. inr (omega arith) }

commit_atomic_example :
    let stopped = (commit full_log (device 3)).1.disk in
    (initlog 2 31 1 full_log (reboot stopped 9)).1.disk 41 ≡ (λ w. 41)
commit_atomic_example =
    commit_atomic full_log (device 3) full_log 9 41 (full_log-IsReady 3) (omega arith) (omega arith)
      (inr (omega arith))

commit-installs_example :
    let (log', d') = commit full_log (device 9) in
    (d'.disk 41 ≡ (λ w. 41)) × (d'.disk 2 0 ≡ 0) × (log'.lh.n ≡ 0)
commit-installs_example =
    commit-installs full_log (device 9) 41 (full_log-IsReady 9) (omega arith) (omega arith)
      (inr (omega arith))

-- A disk with one logged block, 50, whose contents in the log are 9s.
abbrev logged_disk : ℕ → Block
logged_disk b w =
    if b == 2 then (if w == 0 then 1 else if w == 1 then 50 else 0) else if b == 3 then 9 else 0

logged_disk-Holds : Holds logged_disk 2 1 (λ j. 50) (λ b w. 9)
logged_disk-Holds = record {
  count = refl;
  entries = λ j h. ground arith;
  outside = λ j h. inr (omega arith);
  contents = λ j h. at j h;
}
  where
    at : (j : ℕ) → j < 1 → logged_disk (2 + j + 1) ≡ (λ w. 9)
    at j h = let e : j ≡ 0 = omega arith in rw e

recover_again_example :
    let stopped = (recover_from_log full_log (reboot logged_disk 1)).1.disk in
    (recover_from_log full_log (reboot stopped 5)).1.disk 50 ≡ (λ w. 9)
recover_again_example =
    recover_again logged_disk full_log 1 (λ j. 50) (λ b w. 9) logged_disk-Holds 1 5 50 (omega arith)
      (inr (omega arith))

abbrev idle_log : Log
idle_log = record {
  start = 2;
  size = 31;
  outstanding = pos 0;
  committing = false;
  dev = 1;
  lh = record { n = 0; block = λ j. 0 };
}

abbrev idle : Busy
idle = record { log = idle_log; budgets = [] }

abbrev started : Busy
started = record { log = record idle_log { outstanding = pos 1 }; budgets = 10 ∷ [] }

abbrev written : Log
written = record started.log { lh = record { n = 1; block = update (λ j. 0) 0 60 } }
