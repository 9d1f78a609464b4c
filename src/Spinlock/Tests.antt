-- ===== src/Spinlock/Tests.antt =====
-- The theorems about spinlock.c at concrete inputs.
use cs461_final_project_grub.Base.{◌≡◌, refl, true, false, ℕ, List, [], ◌∷◌, none, ok, arith}
use cs461_final_project_grub.Spinlock.{Cpu, Machine, outside, run}
use cs461_final_project_grub.Spinlock.Nesting.{IsSafe, run-IsSafe}

abbrev busy : Cpu
busy = record { ncli = 0; intena = false; flag = true }

abbrev machine : Machine
machine = record {
  lock = record { locked = false; cpu = none };
  cpus = λ c. busy;
  phase = λ c. outside;
}

machine-IsSafe : IsSafe machine
machine-IsSafe = record {
  alone = λ c d h k. absurd (ground (arith, h));
  set = λ c h. absurd (ground (arith, h));
  owner = λ c h. absurd (ground (arith, h));
  held = λ c o. absurd (ground (arith, o));
  quiet = λ c h. absurd (h refl);
}

-- Processor 1 takes the lock first; processor 0 spins, and takes it between the stores of 1's
-- `release` and its `popcli`.
abbrev schedule : List ℕ
schedule = 0 ∷ 1 ∷ 1 ∷ 0 ∷ 1 ∷ 1 ∷ 1 ∷ 0 ∷ 1 ∷ 0 ∷ 0 ∷ 1 ∷ 0 ∷ []

run-IsSafe_example : (m : Machine) × (run schedule machine ≡ ok m) × IsSafe m
run-IsSafe_example = run-IsSafe schedule machine machine-IsSafe
