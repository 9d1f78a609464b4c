-- ===== src/Syscall/Tests.antt =====
-- The theorems about syscall.c at concrete inputs.
use cs461_final_project_grub.Base.{
  ℕ, ◌+◌, ◌*◌, ◌^◌, ◌≡◌, refl, ◌==◌, if◌then◌else◌, some, ok, pos, arith,
}
use cs461_final_project_grub.Proc.{Trapframe}
use cs461_final_project_grub.Syscall.{fetcharg, fetchstr, argptr}
use cs461_final_project_grub.Syscall.Args.{Fetched, fetchstr-Fetched, argptr-truncates}

-- A string of two bytes at 5000.
abbrev memory : ℕ → ℕ
memory a = if a == 5002 then 0 else 7

abbrev frame : ℕ → Trapframe
frame a = record {
  rax = 5;
  rdi = 0;
  rsi = a;
  rdx = 0;
  r10 = 0;
  r8 = 0;
  r9 = 0;
  rsp = 0;
  rcx = 0;
  rip = 0;
}

fetchstr-Fetched_example : Fetched memory 8192 5000 (fetchstr memory 8192 5000)
fetchstr-Fetched_example = fetchstr-Fetched memory 8192 5000

-- An address of the kernel's half.
argptr-truncates_example :
    argptr 1 (pos 100) 8192 (frame (0xffff8000 * 2 ^ 32 + 5000))
    ≡ ok (some (0xffff8000 * 2 ^ 32 + 5000))
unfolding fetcharg
argptr-truncates_example =
    argptr-truncates 1 0xffff8000 5000 100 8192 (frame (0xffff8000 * 2 ^ 32 + 5000)) refl
      (omega arith) (omega arith) (omega arith)
