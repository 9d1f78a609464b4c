-- ===== src/Proc/Tests.antt =====
-- Runs of proc.c and the theorems at concrete inputs.
use cs461_final_project_grub.Base.{
  ℕ, zero, suc, ◌+◌, ◌≡◌, ◌≢◌, ◌<◌, refl, true, false, Option, none, some, List, [], ◌∷◌, get_elem?,
  arith, pos, negsuc, Result, ok, panic,
}
use cs461_final_project_grub.File.{Ftable, Drop}
use cs461_final_project_grub.Proc.{
  ProcState, unused, runnable, running, sleeping, zombie, is_unused, Proc, Table, Trapframe,
  no_chan, of_address, modify, Kernel, allocproc, claim_from, Forked, fork, wakeup1, dup_files,
  fork_into,
}
use cs461_final_project_grub.Proc.Ending.{sleep_on, wait, kill, exit, close_files}
use cs461_final_project_grub.Proc.Wakeup.{wakeup1_lem, Outcome, wait-Outcome}
use cs461_final_project_grub.Proc.Exit.{Exited, exit-Exited}
use cs461_final_project_grub.Proc.Kill.{kill_zero}
use cs461_final_project_grub.Proc.Pids.{IsNumbered, ForkOutcome, fork_lem}

abbrev frame : Trapframe
frame = record {
  rax = 5;
  rdi = 0;
  rsi = 0;
  rdx = 0;
  r10 = 0;
  r8 = 0;
  r9 = 0;
  rsp = 0;
  rcx = 0;
  rip = 0;
}

abbrev proc : ProcState → ℕ → Option ℕ → Proc
proc s n q = record {
  sz = 4096;
  pgdir = 8192;
  kstack = 4096;
  state = s;
  pid = n;
  parent = q;
  tf = frame;
  context = 0;
  chan = no_chan;
  killed = false;
  ofile = none ∷ none ∷ [];
  cwd = 3;
  name = 0 ∷ [];
}

-- `init`, a shell, a dead child of the shell, and a free slot.
abbrev table : Table
table =
    proc sleeping 1 none
    ∷ proc running 2 (some 0)
    ∷ proc zombie 3 (some 1)
    ∷ proc unused 0 none
    ∷ []

abbrev kernel : Kernel
kernel = record { table = table; nextpid = 4 }

wakeup1_lem_example :
    get_elem? (wakeup1 (of_address 7) (modify 1 (sleep_on (of_address 7)) table)) 1
    ≡ some (record (proc runnable 2 (some 0)) { chan = of_address 7 })
wakeup1_lem_example =
    (wakeup1_lem 1 (of_address 7) (of_address 8) table (proc running 2 (some 0)) refl).0

wait-Outcome_example : Outcome 1 false table (wait 1 false table)
wait-Outcome_example = wait-Outcome 1 false table

kill_zero_example :
    ((kill 0 table).0 ≡ pos 0)
    × ((t' : Table) × (p : Proc) × (claim_from 0 4 (kill 0 table).1 ≡ some (3, t'))
        × (get_elem? t' 3 ≡ some p)
        × (p.killed ≡ true)
        × (p.pid ≡ 4))
kill_zero_example =
    kill_zero 0 4 3 table
      (refl, omega arith, (refl, omega arith, (refl, omega arith, (refl, refl))))

abbrev left : Result (Table × Ftable × List Drop × ℕ) → Table
left (ok r) = r.0
left panic = []

exit-Exited_example : Exited 1 0 (proc running 2 (some 0)) table (left (exit 1 0 table []))
unfolding exit close_files
exit-Exited_example = exit-Exited 1 0 table [] (proc running 2 (some 0)) refl refl

kernel-IsNumbered : IsNumbered kernel
kernel-IsNumbered = record { given = below; apart = different }
  where
    below : (j : ℕ) (p : Proc) → get_elem? table j ≡ some p → p.pid < 4
    below zero p e = ground (arith, e)
    below (suc zero) p e = ground (arith, e)
    below (suc (suc zero)) p e = ground (arith, e)
    below (suc (suc (suc zero))) p e = ground (arith, e)
    below (suc (suc (suc (suc j)))) p e = ground (arith, e)

    at :
        (j : ℕ) (p : Proc)
        → get_elem? table j ≡ some p
        → is_unused p.state ≡ false
        → (p.pid ≡ j + 1) × (j < 3)
    at zero p e u = ground (arith, e)
    at (suc zero) p e u = ground (arith, e)
    at (suc (suc zero)) p e u = ground (arith, e)
    at (suc (suc (suc zero))) p e u = absurd (ground (arith, e, u))
    at (suc (suc (suc (suc j)))) p e u = absurd (ground (arith, e))

    different :
        (i j : ℕ) (p q : Proc)
        → i ≢ j
        → get_elem? table i ≡ some p
        → get_elem? table j ≡ some q
        → is_unused p.state ≡ false
        → is_unused q.state ≡ false
        → p.pid ≢ q.pid
    different i j p q ne e f u w = omega (arith, at i p e u, at j q f w)

abbrev forked : Result Forked → Forked
forked (ok r) = r
forked panic = record { value = negsuc 0; kernel = kernel; files = []; idup = none }

fork_lem_example : ForkOutcome 1 kernel (forked (fork 1 4096 8192 kernel []))
unfolding fork fork_into allocproc claim_from modify dup_files
fork_lem_example = fork_lem 1 4096 8192 kernel [] (omega arith) kernel-IsNumbered refl
