-- ===== src/Syscall/Args.antt =====
-- What the checks of syscall.c say of an argument.
use mathlib.Core.Path.{subst}
use cs461_final_project_grub.Base.{
  ℕ, zero, suc, ◌+◌, ◌-◌, ◌*◌, ◌%◌, ◌^◌, ◌≡◌, ◌≢◌, ◌≤◌, ◌<◌, ◌⊎◌, inl, inr, ap, sym, ◌∙◌, ltb, leb,
  ◌==◌, Option, none, some, ok, pos, arith, Bool-cases,
}
use cs461_final_project_grub.Proc.{Trapframe}
use cs461_final_project_grub.Syscall.{fetchstr, scan, page, argptr, argaddr, fetcharg}

-- What a search for a 0 in the `k` bytes from `s` on comes to, `n` bytes having been passed.
pub data Scanned (k n s : ℕ) (mem : ℕ → ℕ) : Option ℕ → Type 0 where
  ends :
      (len : ℕ)
      → len < k
      → mem (s + len) ≡ 0
      → ((j : ℕ) → j < len → mem (s + j) ≢ 0)
      → Scanned k n s mem (some (n + len))
  endless : ((j : ℕ) → j < k → mem (s + j) ≢ 0) → Scanned k n s mem none

-- A byte behind the first.
shifted : (mem : ℕ → ℕ) (s j : ℕ) → mem (s + suc j) ≡ mem (s + 1 + j)
shifted mem s j = ap mem (omega arith)

all_nonzero :
    (mem : ℕ → ℕ) (s k : ℕ)
    → mem s ≢ 0
    → ((j : ℕ) → j < k → mem (s + 1 + j) ≢ 0)
    → (j : ℕ) → j < suc k
    → mem (s + j) ≢ 0
all_nonzero mem s k ne before zero lt = subst (λ i. mem i ≢ 0) (omega arith) ne
all_nonzero mem s k ne before (suc j) lt =
    subst (λ v. v ≢ 0) (sym (shifted mem s j)) (before j (omega arith))

scan-Scanned : (k n : ℕ) (mem : ℕ → ℕ) (s : ℕ) → Scanned k n s mem (scan k n mem s)
unfolding scan
scan-Scanned zero n mem s = endless (λ j lt. absurd (omega arith))
scan-Scanned (suc k) n mem s = elim (Bool-cases (mem s == 0)) [
  | inl end ↦ rw end (
      subst (λ i. Scanned (suc k) n s mem (some i)) here
        (ends 0 (omega arith) (ap mem there ∙ ground (arith, end)) (λ j lt. absurd (omega arith))))
  | inr more ↦ rw more (
      passed (scan k (n + 1) mem (s + 1)) (ground (arith, more))
        (scan-Scanned k (n + 1) mem (s + 1)))
]
  where
    here : n + 0 ≡ n
    here = omega arith

    there : s + 0 ≡ s
    there = omega arith

    next : (len : ℕ) → n + suc len ≡ n + 1 + len
    next len = omega arith

    passed :
        (r : Option ℕ) → mem s ≢ 0 → Scanned k (n + 1) (s + 1) mem r → Scanned (suc k) n s mem r
    passed _ ne (ends len lt at before) =
        subst (λ i. Scanned (suc k) n s mem (some i)) (next len)
          (ends (suc len) (omega arith) (shifted mem s len ∙ at) (all_nonzero mem s len ne before))
    passed _ ne (endless before) = endless (all_nonzero mem s k ne before)

-- What `fetchstr` may return for the string at `addr`, of a process of size `sz`.
pub data Fetched (mem : ℕ → ℕ) (sz addr : ℕ) : Option (ℕ × ℕ) → Type 0 where
  string :
      (len : ℕ)
      → page ≤ addr
      → addr + len < sz
      → mem (addr + len) ≡ 0
      → ((j : ℕ) → j < len → mem (addr + j) ≢ 0)
      → Fetched mem sz addr (some (addr, len))
  outside : (addr < page) ⊎ (sz ≤ addr) → Fetched mem sz addr none
  unended : ((j : ℕ) → addr + j < sz → mem (addr + j) ≢ 0) → Fetched mem sz addr none

-- `fetchstr` succeeds just where the process has a 0 at or behind the address and the address is
-- not in the first page: it gives the address and the distance to the first 0, which lies inside
-- the process. Else the address is outside, or no byte from it on is 0.
pub fetchstr-Fetched : (mem : ℕ → ℕ) (sz addr : ℕ) → Fetched mem sz addr (fetchstr mem sz addr)
unfolding fetchstr
fetchstr-Fetched mem sz addr = elim (Bool-cases (ltb addr page)) [
  | inl low ↦ rw low (outside (inl (ground (arith, low))))
  | inr high ↦ elim (Bool-cases (leb sz addr)) [
    | inl past ↦ rw (high, past) (outside (inr (ground (arith, past))))
    | inr inside ↦
        rw (high, inside)
          (found (scan (sz - addr) 0 mem addr) (ground (arith, high)) (ground (arith, inside))
            (scan-Scanned (sz - addr) 0 mem addr))
  ]
]
  where
    found :
        (r : Option ℕ)
        → page ≤ addr
        → addr < sz
        → Scanned (sz - addr) 0 addr mem r
        → Fetched mem sz addr (elim r [ none ↦ none | some n ↦ some (addr, n) ])
    found _ low lt (ends len le at before) =
        subst (λ i. Fetched mem sz addr (some (addr, i))) (omega arith)
          (string len low (omega arith) at before)
    found _ low lt (endless before) = unended (λ j in_range. before j (omega arith))

-- For an address below 2^32 and a size with which it stays there, `argptr` succeeds just where the
-- memory from the address on, of that size, lies inside the process.
pub argptr_lem :
    (n i size sz : ℕ) (tf : Trapframe)
    → fetcharg n tf ≡ ok i
    → i + size < 2 ^ 32
    → (i < sz → i + size ≤ sz → argptr n (pos size) sz tf ≡ ok (some i))
      × ((sz ≤ i) ⊎ (sz < i + size) → argptr n (pos size) sz tf ≡ ok none)
unfolding argptr argaddr
argptr_lem n i size sz tf e lt = (λ a b. ground (arith, e), λ h. ground (arith, e))

-- In a process of less than 2^32 bytes `argptr` accepts an address of any upper half, one in the
-- kernel too, whose lower 32 bits are an offset inside the process and leave room there for the
-- size: it does not check that the pointer lies within the process.
pub argptr-truncates :
    (n high low size sz : ℕ) (tf : Trapframe)
    → fetcharg n tf ≡ ok (high * 2 ^ 32 + low)
    → low < sz
    → low + size ≤ sz
    → sz < 2 ^ 32
    → argptr n (pos size) sz tf ≡ ok (some (high * 2 ^ 32 + low))
unfolding argptr argaddr
argptr-truncates n high low size sz tf e a b lt =
    let cut : (high * 2 ^ 32 + low) % 2 ^ 32 ≡ low = omega (arith, a, lt) in ground (arith, e, cut)
