-- ===== src/Fs/Words.antt =====
-- Little-endian words in the bytes of a block: loads behind stores.

use cs461_final_project_grub.Base.{ℕ, ◌+◌, ◌/◌, ◌%◌, ◌^◌, ◌≡◌, ◌≤◌, ◌<◌, ◌⊎◌, ◌∙◌, arith}
use cs461_final_project_grub.Fs.Disk.{Bytes, load16, load32, store16, store32}

-- The two bytes, or the four, at `a` do not reach `i`.
pub store16_else : (a v : ℕ) (s : Bytes) (i : ℕ) → (i < a) ⊎ (a + 2 ≤ i) → store16 a v s i ≡ s i
unfolding store16
store16_else a v s i out = ground (arith, out)

pub store32_else : (a v : ℕ) (s : Bytes) (i : ℕ) → (i < a) ⊎ (a + 4 ≤ i) → store32 a v s i ≡ s i
unfolding store32
store32_else a v s i out =
    store16_else (a + 2) (v / 65536) (store16 a v s) i (omega arith)
    ∙ store16_else a v s i (omega arith)

pub load16-store16 : (a v : ℕ) (s : Bytes) → load16 (store16 a v s) a ≡ v % 65536
unfolding load16 store16
load16-store16 a v s = ground arith

pub load16_same :
    (a : ℕ) (s t : Bytes) → s a ≡ t a → s (a + 1) ≡ t (a + 1) → load16 s a ≡ load16 t a
unfolding load16
load16_same a s t e f = ground (arith, e, f)

-- Words that a store leaves as they are.
pub load16_else16 :
    (a b v : ℕ) (s : Bytes) → (b + 2 ≤ a) ⊎ (a + 2 ≤ b) → load16 (store16 a v s) b ≡ load16 s b
load16_else16 a b v s out =
    load16_same b (store16 a v s) s (store16_else a v s b (omega arith))
      (store16_else a v s (b + 1) (omega arith))

pub load16_else32 :
    (a b v : ℕ) (s : Bytes) → (b + 2 ≤ a) ⊎ (a + 4 ≤ b) → load16 (store32 a v s) b ≡ load16 s b
load16_else32 a b v s out =
    load16_same b (store32 a v s) s (store32_else a v s b (omega arith))
      (store32_else a v s (b + 1) (omega arith))

pub load32-store32 : (a v : ℕ) (s : Bytes) → v < 2 ^ 32 → load32 (store32 a v s) a ≡ v
unfolding load32 store32
load32-store32 a v s lt = omega (
  arith,
  load16_else16 (a + 2) a (v / 65536) (store16 a v s) (omega arith),
  load16-store16 a v s,
  load16-store16 (a + 2) (v / 65536) (store16 a v s),
)

pub load32_same :
    (a : ℕ) (s t : Bytes) → ((b : ℕ) → a ≤ b → b < a + 4 → s b ≡ t b) → load32 s a ≡ load32 t a
unfolding load32
load32_same a s t e = omega (
  arith,
  load16_same a s t (e a (omega arith) (omega arith)) (e (a + 1) (omega arith) (omega arith)),
  load16_same (a + 2) s t (e (a + 2) (omega arith) (omega arith))
      (e (a + 2 + 1) (omega arith) (omega arith)),
)
