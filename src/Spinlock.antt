-- ===== src/Spinlock.antt =====
-- spinlock.c: spin locks, and the interrupts that they hold off.
--
-- A processor is a number; its `struct cpu` has the interrupt flag of its `eflags` with it. The
-- record of the call stack is left out, as `holding` does not read it.
pub mod Nesting
mod Tests
use cs461_final_project_grub.Base.{
  ℕ, zero, suc, ◌+◌, ◌-◌, Bool, true, false, not, ◌&&◌, ◌||◌, ltb, leb, ◌==◌, if◌then◌else◌, update,
  Option, none, some, List, [], ◌∷◌, Result, ok, panic, ◌>>=◌,
}

-- `ncli` and `intena` of `struct cpu`, and the flag `FL_IF`.
pub record Cpu : Type 0 where
  pub ncli : ℕ
  pub intena : Bool
  pub flag : Bool

-- `locked` and `cpu` of `struct spinlock`.
pub record Spinlock : Type 0 where
  pub locked : Bool
  pub cpu : Option ℕ

unfoldable pub initlock : Spinlock → Spinlock
initlock lk = record { locked = false; cpu = none }

abbrev pub same_cpu : Option ℕ → ℕ → Bool
same_cpu none c = false
same_cpu (some d) c = d == c

unfoldable pub holding : ℕ → Spinlock → Bool
holding c lk = lk.locked && same_cpu lk.cpu c

unfoldable pub pushcli : Cpu → Cpu
pushcli s = record {
  ncli = s.ncli + 1;
  intena = (if s.ncli == 0 then s.flag else s.intena);
  flag = false;
}

-- The count is an `int`: it may not go below 0.
unfoldable pub popcli : Cpu → Result Cpu
popcli s =
    if s.flag || s.ncli == 0
    then panic
    else ok (record { ncli = s.ncli - 1; intena = s.intena; flag = (s.ncli - 1 == 0) && s.intena })

-- `acquire` by the processor `c` up to its loop: it changes the processor's own state only.
unfoldable pub acquire : ℕ → Spinlock → Cpu → Result Cpu
acquire c lk s = if holding c lk then panic else ok (pushcli s)

-- The exchange in the loop of `acquire`: `none` where the lock was taken already, and it spins.
unfoldable pub spin : Spinlock → Option Spinlock
spin lk = if lk.locked then none else some (record lk { locked = true })

-- The store of `acquire` behind the loop.
unfoldable pub set_owner : ℕ → Spinlock → Spinlock
set_owner c lk = record lk { cpu = some c }

-- The test at the start of `release`, its two stores, in order, and then `popcli`.
unfoldable pub release : ℕ → Spinlock → Result Spinlock
release c lk = if holding c lk then ok lk else panic

unfoldable pub clear_owner : Spinlock → Spinlock
clear_owner lk = record lk { cpu = none }

unfoldable pub unlock : Spinlock → Spinlock
unlock lk = record lk { locked = false }

-- Where a processor is: outside; in the loop of `acquire`; behind the exchange that took the lock; in
-- the critical section; in `release` behind the test, behind the first store, and behind the second.
pub data Phase : Type 0 where
  outside spinning taken inside leaving disowned unlocked : Phase

pub record Machine : Type 0 where
  pub lock : Spinlock
  pub cpus : ℕ → Cpu
  pub phase : ℕ → Phase

abbrev pub go : ℕ → Phase → Spinlock → Machine → Machine
go c p lk m = record m { lock = lk; phase = update m.phase c p }

-- The next step of the processor `c` on one lock, by where it is.
unfoldable pub turn_at : Phase → ℕ → Machine → Result Machine
turn_at outside c m = do
  s ← acquire c m.lock (m.cpus c)
  ok (record m { cpus = update m.cpus c s; phase = update m.phase c spinning })
turn_at spinning c m = elim (spin m.lock) [ none ↦ ok m | some lk ↦ ok (go c taken lk m) ]
turn_at taken c m = ok (go c inside (set_owner c m.lock) m)
turn_at inside c m = do lk ← release c m.lock; ok (go c leaving lk m)
turn_at leaving c m = ok (go c disowned (clear_owner m.lock) m)
turn_at disowned c m = ok (go c unlocked (unlock m.lock) m)
turn_at unlocked c m = do
  s ← popcli (m.cpus c)
  ok (record m { cpus = update m.cpus c s; phase = update m.phase c outside })

unfoldable pub turn : ℕ → Machine → Result Machine
turn c m = turn_at (m.phase c) c m

-- A schedule: the processors, in the order of their steps.
unfoldable pub run : List ℕ → Machine → Result Machine
run [] m = ok m
run (c ∷ cs) m = turn c m >>= run cs
