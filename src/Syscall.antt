-- ===== src/Syscall.antt =====
-- syscall.c: the arguments of a system call, and the call itself.
--
-- `mem` is the user memory of the calling process, byte by byte, and `sz` its size. An `int`
-- that is stored is its 32 bits. Each `sys_` function is a parameter, by its number.
pub mod Args
mod Tests
use cs461_final_project_grub.Base.{
  ℕ, zero, suc, ◌+◌, ◌-◌, ◌*◌, ◌/◌, ◌%◌, ◌^◌, Bool, true, false, not, ◌&&◌, ◌||◌, ltb, leb, ◌==◌,
  if◌then◌else◌, Option, none, some, Result, ok, panic, ◌>>=◌, ℤ, pos, negsuc,
}
use cs461_final_project_grub.Proc.{Trapframe}

abbrev pub page : ℕ
page = 4096

unfoldable pub load : ℕ → (ℕ → ℕ) → ℕ → ℕ
load zero mem a = 0
load (suc k) mem a = mem a + 256 * load k mem (a + 1)

-- `addr + sizeof(int)` wraps at 64 bits.
unfoldable pub fetchint : (mem : ℕ → ℕ) → (sz addr : ℕ) → Option ℕ
fetchint mem sz addr =
    if ltb addr page || leb sz addr || ltb sz ((addr + 4) % 2 ^ 64)
    then none
    else some (load 4 mem addr)

unfoldable pub fetchaddr : (mem : ℕ → ℕ) → (sz addr : ℕ) → Option ℕ
fetchaddr mem sz addr =
    if ltb addr page || leb sz addr || ltb sz ((addr + 8) % 2 ^ 64)
    then none
    else some (load 8 mem addr)

-- The loop of `fetchstr`, with `k` bytes left and `n` passed: the length.
unfoldable pub scan : ℕ → ℕ → (ℕ → ℕ) → ℕ → Option ℕ
scan zero n mem s = none
scan (suc k) n mem s = let rest = scan k (n + 1) mem (s + 1) in if mem s == 0 then some n else rest

-- The string's address and its length.
unfoldable pub fetchstr : (mem : ℕ → ℕ) → (sz addr : ℕ) → Option (ℕ × ℕ)
fetchstr mem sz addr =
    if ltb addr page || leb sz addr
    then none
    else elim (scan (sz - addr) 0 mem addr) [ none ↦ none | some n ↦ some (addr, n) ]

unfoldable pub fetcharg : ℕ → Trapframe → Result ℕ
fetcharg zero tf = ok tf.rdi
fetcharg (suc zero) tf = ok tf.rsi
fetcharg (suc (suc zero)) tf = ok tf.rdx
fetcharg (suc (suc (suc zero))) tf = ok tf.r10
fetcharg (suc (suc (suc (suc zero)))) tf = ok tf.r8
fetcharg (suc (suc (suc (suc (suc zero))))) tf = ok tf.r9
fetcharg (suc (suc (suc (suc (suc (suc _)))))) tf = panic

unfoldable pub argint : ℕ → Trapframe → Result ℕ
argint n tf = do a ← fetcharg n tf; ok (a % 2 ^ 32)

unfoldable pub argaddr : ℕ → Trapframe → Result ℕ
argaddr n tf = fetcharg n tf

-- `(uint)i + size`, of an `unsigned` and an `int`, is an `unsigned`.
unfoldable pub argptr : ℕ → (size : ℤ) → (sz : ℕ) → Trapframe → Result (Option ℕ)
argptr n (negsuc _) sz tf = do i ← argaddr n tf; ok none
argptr n (pos size) sz tf = do
  i ← argaddr n tf
  ok (if leb sz (i % 2 ^ 32) || ltb sz ((i % 2 ^ 32 + size) % 2 ^ 32) then none else some i)

-- An `int` made an `addr_t`.
unfoldable pub sign_extend : ℕ → ℕ
sign_extend a = if ltb a (2 ^ 31) then a else a + (2 ^ 64 - 2 ^ 32)

unfoldable pub argstr : ℕ → (mem : ℕ → ℕ) → (sz : ℕ) → Trapframe → Result (Option (ℕ × ℕ))
argstr n mem sz tf = do addr ← argint n tf; ok (fetchstr mem sz (sign_extend addr))

-- What `syscall` leaves: the frame, and whether the process goes on to `exit`. `calls` has what each
-- call in the table leaves, the value and whether the process was killed meanwhile.
unfoldable pub syscall :
    (calls : ℕ → Option (ℕ × Bool)) → (killed : Bool) → Trapframe → Trapframe × Bool
syscall calls killed tf =
    if ltb 0 tf.rax && ltb tf.rax 22
    then elim (calls tf.rax) [
      | some (value, now) ↦ (record tf { rax = value }, now)
      | none ↦ (record tf { rax = 2 ^ 64 - 1 }, killed)
    ]
    else (record tf { rax = 2 ^ 64 - 1 }, killed)
