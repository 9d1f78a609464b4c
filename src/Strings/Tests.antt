-- ===== src/Strings/Tests.antt =====
-- Runs of string.c and the theorems at concrete inputs.
use cs461_final_project_grub.Base.{
  ℕ, zero, suc, ◌+◌, ◌≡◌, ◌≢◌, ◌<◌, inl, refl, ◌==◌, if◌then◌else◌, arith,
}
use cs461_final_project_grub.Strings.{Memory, memmove, strncpy, safestrcpy}
use cs461_final_project_grub.Strings.Copy.{memmove_lem, strncpy_lem}
use cs461_final_project_grub.Strings.Safe.{safestrcpy_lem}

-- "abc" at 100, "abd" at 110, each with its NUL.
abbrev memory : Memory
memory a =
    if a == 100
    then b'a'
    else if a == 101
    then b'b'
    else if a == 102
    then b'c'
    else if a == 110
    then b'a'
    else if a == 111
    then b'b'
    else if a == 112
    then b'd'
    else 0

-- The two blocks overlap.
memmove_lem_example : memmove memory 101 100 3 103 ≡ b'c'
memmove_lem_example = memmove_lem memory 101 100 3 103

strncpy_lem_example : strncpy memory 120 100 14 121 ≡ b'b'
strncpy_lem_example = strncpy_lem memory 120 100 14 121 (inl (omega arith))

-- The last two bytes of "abc" do not fit.
safestrcpy_lem_example : safestrcpy memory 120 100 2 (120 + 1) ≡ 0
safestrcpy_lem_example =
    (safestrcpy_lem memory 120 100 2 (λ e. omega arith)).2 1 1 (omega arith) (omega arith) nonzero
      (inl refl) (omega arith)
  where
    nonzero : (j : ℕ) → j < 1 → memory (100 + j) ≢ 0
    nonzero zero lt = λ e. omega (arith, e)
    nonzero (suc j) lt = absurd (omega arith)
