-- ===== src/Proc/Ending.antt =====
-- proc.c: `exit`, `wait`, `kill`, `sleep`, `yield` and the scheduler's choice.
use cs461_final_project_grub.Base.{
  ℕ, zero, suc, ◌+◌, Bool, true, false, not, ◌&&◌, ◌||◌, ◌==◌, if◌then◌else◌, Option, none, some,
  List, [], ◌∷◌, map, get_elem?, set, Result, ok, panic, ◌>>=◌, ℤ, pos, negsuc,
}
use cs461_final_project_grub.File.{Ftable, Drop, fileclose}
use cs461_final_project_grub.Proc.{
  unused, sleeping, runnable, running, zombie, is_sleeping, is_runnable, is_zombie, Chan, no_chan,
  of_proc, Proc, nproc, Table, modify, wakeup1,
}

-- The closing loop of `exit`: the files, and what is to be done for those closed for the last time.
unfoldable pub close_files : List (Option ℕ) → Ftable → Result (Ftable × List Drop)
close_files [] t = ok (t, [])
close_files (none ∷ fs) t = close_files fs t
close_files (some f ∷ fs) t = do
  (t', drop) ← fileclose t f
  (t'', drops) ← close_files fs t'
  ok (t'', drop ∷ drops)

abbrev pub is_parent : ℕ → Option ℕ → Bool
is_parent cur none = false
is_parent cur (some q) = q == cur

-- The loop of `exit` that passes children on: each child of `cur` goes to `init`, which is woken
-- where the child is a zombie. It runs over the slots from `i` on of the whole table.
unfoldable pub reparent_from : ℕ → ℕ → ℕ → ℕ → Table → Table
reparent_from zero i cur init t = t
reparent_from (suc n) i cur init t = elim (get_elem? t i) [
  | none ↦ t
  | some p ↦
      let t' = modify i (λ p. record p { parent = some init }) t in
      let t'' = if is_zombie p.state then wakeup1 (of_proc init) t' else t' in
      reparent_from n (i + 1) cur init (if is_parent cur p.parent then t'' else t)
]

unfoldable pub no_files : List (Option ℕ) → List (Option ℕ)
no_files fs = map (λ f. none) fs

abbrev pub parent_chan : Option ℕ → Chan
parent_chan none = no_chan
parent_chan (some q) = of_proc q

-- `exit` of the process `cur`, up to the switch to the scheduler: the table, the files, what the
-- closes leave to be done, and the inode that is put.
unfoldable pub exit : ℕ → ℕ → Table → Ftable → Result (Table × Ftable × List Drop × ℕ)
exit cur init t files = if cur == init then panic else elim (get_elem? t cur) [
  | none ↦ panic
  | some p ↦ (do
    (files', drops) ← close_files p.ofile files
    let t1 = modify cur (λ p. record p { ofile = no_files p.ofile; cwd = 0 }) t
    let t2 = wakeup1 (parent_chan p.parent) t1
    let t3 = reparent_from nproc 0 cur init t2
    ok (modify cur (λ p. record p { state = zombie }) t3, files', drops, p.cwd))
]

-- A slot after its zombie has been collected.
unfoldable pub reaped : Proc → Proc
reaped p = record p {
  kstack = 0;
  pid = 0;
  parent = none;
  name = set p.name 0 0;
  killed = false;
  state = unused;
}

-- One scan of `wait`, from slot `i` on: the first zombie child, and whether there is a child. The
-- kernel stack and the page table of the zombie are freed.
pub data Scan : Type 0 where
  reap : (slot : ℕ) (child : Proc) → Scan
  havekids : Bool → Scan

unfoldable pub scan_from : ℕ → ℕ → Bool → Table → Scan
scan_from i cur kids [] = havekids kids
scan_from i cur kids (p ∷ ps) =
    let rest = scan_from (i + 1) cur (kids || is_parent cur p.parent) ps in
    if is_parent cur p.parent && is_zombie p.state then reap i p else rest

-- What a turn of `wait`'s loop comes to.
pub data Waited : Type 0 where
  returned : ℤ → Table → Waited
  freed : (pid kstack pgdir : ℕ) → Table → Waited
  sleeps : Table → Waited

-- The state in which `sleep` leaves its caller.
unfoldable pub sleep_on : Chan → Proc → Proc
sleep_on c p = record p { chan = c; state = sleeping }

unfoldable pub wait : ℕ → Bool → Table → Waited
wait cur killed t = elim (scan_from 0 cur false t) [
  | reap i p ↦ freed p.pid p.kstack p.pgdir (modify i reaped t)
  | havekids kids ↦
      if not kids || killed
      then returned (negsuc 0) t
      else sleeps (modify cur (sleep_on (of_proc cur)) t)
]

-- `kill`: 0 if a process had the pid, -1 if not.
unfoldable pub kill : ℕ → Table → ℤ × Table
kill pid [] = (negsuc 0, [])
kill pid (p ∷ ps) =
    let (r, ps') = kill pid ps in
    if p.pid == pid
    then (
      pos 0,
      record p { killed = true; state = (if is_sleeping p.state then runnable else p.state) } ∷ ps,
    )
    else (r, p ∷ ps')

-- `yield` of the process `cur`, up to the switch to the scheduler.
unfoldable pub yield_cpu : ℕ → Table → Table
yield_cpu cur t = modify cur (λ p. record p { state = runnable }) t

-- The loop of `scheduler`: the first runnable process at or behind slot `i`, which is set running.
unfoldable pub pick_from : ℕ → Table → Option ℕ × Table
pick_from i [] = (none, [])
pick_from i (p ∷ ps) =
    let (j, ps') = pick_from (i + 1) ps in
    if is_runnable p.state then (some i, record p { state = running } ∷ ps) else (j, p ∷ ps')
