-- ===== src/Log/Header.antt =====
-- The header block: what `write_head` stores and `read_head` finds.
use cs461_final_project_grub.Base.{
  ℕ, zero, suc, ◌+◌, ◌-◌, ◌≡◌, ◌≢◌, ◌<◌, ◌⊎◌, arith, ltb, leb, ◌&&◌, if◌then◌else◌, update,
}
use cs461_final_project_grub.Log.{
  Block, Log, Device, bread, bwrite, read_blocks, read_head, write_blocks, write_head,
}

pub read_blocks_lem :
    (k i : ℕ) (lh block : ℕ → ℕ) (j : ℕ)
    → read_blocks k i lh block j ≡ (if leb i j && ltb j (i + k) then lh (j + 1) else block j)
unfolding read_blocks
read_blocks_lem zero i lh block j = ground arith
read_blocks_lem (suc k) i lh block j =
    ground (arith, read_blocks_lem k (i + 1) lh (update block i (lh (i + 1))) j)

pub write_blocks_lem :
    (k i : ℕ) (block : ℕ → ℕ) (hb : Block) (w : ℕ)
    → write_blocks k i block hb w ≡ (if ltb i w && leb w (i + k) then block (w - 1) else hb w)
unfolding write_blocks
write_blocks_lem zero i block hb w = ground arith
write_blocks_lem (suc k) i block hb w =
    ground (arith, write_blocks_lem k (i + 1) block (update hb (i + 1) (block i)) w)

-- With power left `write_head` puts the header on the disk: `n`, then the first `n` block numbers.
pub write_head-disk :
    (log : Log) (d : Device)
    → 0 < d.power
    → let header = (write_head log d).disk log.start in
      (header 0 ≡ log.lh.n) × ((j : ℕ) → j < log.lh.n → header (j + 1) ≡ log.lh.block j)
unfolding write_head bwrite
write_head-disk log d p = (
  ground (arith, write_blocks_lem log.lh.n 0 log.lh.block hb 0),
  λ j h. ground (arith, write_blocks_lem log.lh.n 0 log.lh.block hb (j + 1)),
)
  where
    hb : Block
    hb = update (bread d log.start) 0 log.lh.n

-- `write_head` writes no block but the header.
pub write_head-frame :
    (log : Log) (d : Device) (b : ℕ)
    → (b ≢ log.start) ⊎ (d.power ≡ 0)
    → (write_head log d).disk b ≡ d.disk b
unfolding write_head bwrite
write_head-frame log d b h = ground arith

pub write_head-cache :
    (log : Log) (d : Device) (b : ℕ) → b ≢ log.start → (write_head log d).cache b ≡ d.cache b
unfolding write_head bwrite
write_head-cache log d b h = ground arith

-- `read_head` takes the entries from the header block.
pub read_head-block :
    (log : Log) (d : Device) (j : ℕ)
    → j < d.cache log.start 0
    → (read_head log d).lh.block j ≡ d.cache log.start (j + 1)
unfolding read_head
read_head-block log d j h =
    ground (arith, read_blocks_lem (d.cache log.start 0) 0 (d.cache log.start) log.lh.block j)
