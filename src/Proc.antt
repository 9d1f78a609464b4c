-- ===== src/Proc.antt =====
-- proc.c: the process table and the operations on it.
--
-- A `struct proc *` is a slot of the table, `none` for a null pointer. An operation runs under
-- `ptable.lock` up to its return or to the switch to the scheduler, as one step. What comes from
-- kalloc.c and vm.c, a kernel stack or a page table, is an argument, 0 where the call failed; what
-- is handed back to them is in the result. `nextpid` does not wrap.
pub mod Slots
pub mod Ending
pub mod Wakeup
pub mod Exit
pub mod Kill
pub mod Pids
mod Tests
use cs461_final_project_grub.Base.{
  ℕ, zero, suc, ◌+◌, ◌-◌, Bool, true, false, not, ◌&&◌, ◌||◌, ltb, leb, ◌==◌, if◌then◌else◌, Option,
  none, some, List, [], ◌∷◌, ◌++◌, map, get_elem?, set, Result, ok, panic, ◌>>=◌, ℤ, pos, negsuc,
}
use cs461_final_project_grub.File.{Ftable, Drop, filedup, fileclose}

pub data ProcState : Type 0 where
  unused embryo sleeping runnable running zombie : ProcState

abbrev pub is_unused : ProcState → Bool
is_unused unused = true
is_unused _ = false

abbrev pub is_sleeping : ProcState → Bool
is_sleeping sleeping = true
is_sleeping _ = false

abbrev pub is_runnable : ProcState → Bool
is_runnable runnable = true
is_runnable _ = false

abbrev pub is_zombie : ProcState → Bool
is_zombie zombie = true
is_zombie _ = false

-- What a process sleeps on: an address in the kernel, that of a process or another.
pub data Chan : Type 0 where
  no_chan : Chan
  of_proc : ℕ → Chan
  of_address : ℕ → Chan

abbrev pub same_chan : Chan → Chan → Bool
same_chan no_chan no_chan = true
same_chan (of_proc a) (of_proc b) = a == b
same_chan (of_address a) (of_address b) = a == b
same_chan _ _ = false

-- The registers of `struct trapframe` that the kernel's C code reads and writes.
pub record Trapframe : Type 0 where
  pub rax : ℕ
  pub rdi : ℕ
  pub rsi : ℕ
  pub rdx : ℕ
  pub r10 : ℕ
  pub r8 : ℕ
  pub r9 : ℕ
  pub rsp : ℕ
  pub rcx : ℕ
  pub rip : ℕ

-- `struct proc`; `tf` is the frame itself, and `context` the address of the saved registers.
pub record Proc : Type 0 where
  pub sz : ℕ
  pub pgdir : ℕ
  pub kstack : ℕ
  pub state : ProcState
  pub pid : ℕ
  pub parent : Option ℕ
  pub tf : Trapframe
  pub context : ℕ
  pub chan : Chan
  pub killed : Bool
  pub ofile : List (Option ℕ)
  pub cwd : ℕ
  pub name : List ℕ

abbrev pub nproc : ℕ
nproc = 64

abbrev pub Table : Type 0
Table = List Proc

-- The search of `allocproc` for an unused slot, from slot `i` on, and the slot's new state and pid.
unfoldable pub claim_from : ℕ → ℕ → Table → Option (ℕ × Table)
claim_from i pid [] = none
claim_from i pid (p ∷ ps) =
    if is_unused p.state
    then some (i, record p { state = embryo; pid = pid } ∷ ps)
    else elim (claim_from (i + 1) pid ps) [ none ↦ none | some (j, ps') ↦ some (j, p ∷ ps') ]

-- Changes the process of one slot.
unfoldable pub modify : ℕ → (Proc → Proc) → Table → Table
modify i f [] = []
modify zero f (p ∷ ps) = f p ∷ ps
modify (suc i) f (p ∷ ps) = p ∷ modify i f ps

pub record Kernel : Type 0 where
  pub table : Table
  pub nextpid : ℕ

-- `KSTACKSIZE`, less a trap frame, the return address and a context.
abbrev pub context_offset : ℕ
context_offset = 4096 - 176 - 8 - 56

-- `allocproc`, given the kernel stack that `kalloc` returns.
unfoldable pub allocproc : ℕ → Kernel → Option ℕ × Kernel
allocproc kstack k = elim (claim_from 0 k.nextpid k.table) [
  | none ↦ (none, k)
  | some (i, t) ↦
      if kstack == 0
      then (
        none,
        record {
          table = modify i (λ p. record p { kstack = 0; state = unused }) t;
          nextpid = k.nextpid + 1;
        },
      )
      else (
        some i,
        record {
          table = modify i (λ p. record p { kstack = kstack; context = kstack + context_offset }) t;
          nextpid = k.nextpid + 1;
        },
      )
]

-- `filedup` of every open file of `fork`'s caller.
unfoldable pub dup_files : List (Option ℕ) → Ftable → Result Ftable
dup_files [] t = ok t
dup_files (none ∷ fs) t = dup_files fs t
dup_files (some f ∷ fs) t = filedup t f >>= dup_files fs

-- The open files of the child: those of the parent, and its own where the parent has none.
unfoldable pub child_files : List (Option ℕ) → List (Option ℕ) → List (Option ℕ)
child_files [] own = own
child_files (some f ∷ fs) [] = []
child_files (some f ∷ fs) (o ∷ own) = some f ∷ child_files fs own
child_files (none ∷ fs) [] = []
child_files (none ∷ fs) (o ∷ own) = o ∷ child_files fs own

-- The child as `fork` leaves it.
unfoldable pub child_of : ℕ → Proc → ℕ → Proc → Proc
child_of parent p pgdir np = record np {
  sz = p.sz;
  pgdir = pgdir;
  state = runnable;
  parent = some parent;
  tf = record (p.tf) { rax = 0 };
  ofile = child_files p.ofile np.ofile;
  cwd = p.cwd;
  name = p.name;
}

-- What `fork` comes to: the value returned, the new state, and the inode whose count goes up.
pub record Forked : Type 0 where
  pub value : ℤ
  pub kernel : Kernel
  pub files : Ftable
  pub idup : Option ℕ

-- `fork` behind `allocproc`, given the latter's result.
unfoldable pub fork_into : (cur pgdir pid : ℕ) → Ftable → Option ℕ × Kernel → Result Forked
fork_into cur pgdir pid files (none, k) =
    ok (record { value = negsuc 0; kernel = k; files = files; idup = none })
fork_into cur pgdir pid files (some i, k) =
    if pgdir == 0
    then ok (record {
      value = negsuc 0;
      kernel = record k { table = modify i (λ p. record p { kstack = 0; state = unused }) k.table };
      files = files;
      idup = none;
    })
    else elim (get_elem? k.table cur) [
      | none ↦ panic
      | some p ↦ (do
        files' ← dup_files p.ofile files
        ok (record {
          value = pos pid;
          kernel = record k { table = modify i (child_of cur p pgdir) k.table };
          files = files';
          idup = some p.cwd;
        }))
    ]

-- `fork` by the process `cur`, given what `kalloc` and `copyuvm` return.
unfoldable pub fork : ℕ → (kstack pgdir : ℕ) → Kernel → Ftable → Result Forked
fork cur kstack pgdir k files = fork_into cur pgdir k.nextpid files (allocproc kstack k)

-- One process in the loop of `wakeup1`.
unfoldable pub wake : Chan → Proc → Proc
wake c p = if is_sleeping p.state && same_chan p.chan c then record p { state = runnable } else p

unfoldable pub wakeup1 : Chan → Table → Table
wakeup1 c t = map (wake c) t
