-- ===== src/Fs/Disk.antt =====
-- fs.c and fs.h: the super block, and the blocks and their bitmap.
--
-- A block is its bytes, by index, and words are little-endian. The file system reads and writes
-- blocks inside a transaction: `bread` gives what the buffer cache has, and a block that was
-- changed is handed to `log_write`, which keeps its buffer in the cache until the commit. So the
-- state is what `bread` gives for each block, and the block numbers handed to `log_write`, latest
-- first. The device number is that of the only disk.
use cs461_final_project_grub.Base.{
  ℕ, zero, suc, ◌+◌, ◌-◌, ◌*◌, ◌/◌, ◌%◌, ◌^◌, ltb, ◌==◌, if◌then◌else◌, update, Option, none, some,
  List, ◌∷◌, Result, ok, panic,
}

abbrev pub Bytes : Type 0
Bytes = ℕ → ℕ

pub record Disk : Type 0 where
  pub block : ℕ → Bytes
  pub logged : List ℕ

-- `log_write` of the buffer of block `b`, whose new contents are `data`.
unfoldable pub log_block : ℕ → Bytes → Disk → Disk
log_block b buf d = record { block = update d.block b buf; logged = b ∷ d.logged }

-- Little-endian loads and stores.
unfoldable pub load16 : Bytes → ℕ → ℕ
load16 s a = s a + 256 * s (a + 1)

unfoldable pub load32 : Bytes → ℕ → ℕ
load32 s a = load16 s a + 65536 * load16 s (a + 2)

unfoldable pub store16 : ℕ → ℕ → Bytes → Bytes
store16 a v s = update (update s a (v % 256)) (a + 1) (v / 256 % 256)

unfoldable pub store32 : ℕ → ℕ → Bytes → Bytes
store32 a v s = store16 (a + 2) (v / 65536) (store16 a v s)

abbrev pub bsize : ℕ
bsize = 512

-- `BPB`, the bits of a bitmap block.
abbrev pub bpb : ℕ
bpb = 4096

pub record Superblock : Type 0 where
  pub size : ℕ
  pub nblocks : ℕ
  pub ninodes : ℕ
  pub nlog : ℕ
  pub logstart : ℕ
  pub inodestart : ℕ
  pub bmapstart : ℕ

unfoldable pub readsb : Disk → Superblock
readsb d = record {
  size = load32 (d.block 1) 0;
  nblocks = load32 (d.block 1) 4;
  ninodes = load32 (d.block 1) 8;
  nlog = load32 (d.block 1) 12;
  logstart = load32 (d.block 1) 16;
  inodestart = load32 (d.block 1) 20;
  bmapstart = load32 (d.block 1) 24;
}

unfoldable pub bzero : ℕ → Disk → Disk
bzero b d = log_block b (λ i. if ltb i bsize then 0 else d.block b i) d

-- `BBLOCK`
abbrev pub bblock : ℕ → Superblock → ℕ
bblock b sb = b / bpb + sb.bmapstart

-- `bp->data[bi/8] & m`, as a bit.
unfoldable pub bit : Bytes → ℕ → ℕ
bit buf bi = buf (bi / 8) / 2 ^ (bi % 8) % 2

-- `bp->data[bi/8] |= m`, for a bit that is clear, and `&= ~m`, for one that is set.
unfoldable pub set_bit : Bytes → ℕ → Bytes
set_bit buf bi = update buf (bi / 8) (buf (bi / 8) + 2 ^ (bi % 8))

unfoldable pub clear_bit : Bytes → ℕ → Bytes
clear_bit buf bi = update buf (bi / 8) (buf (bi / 8) - 2 ^ (bi % 8))

-- The inner loop of `balloc` from bit `bi` on, with `k` rounds left: the first free bit.
unfoldable pub free_bit : ℕ → (b bi size : ℕ) → Bytes → Option ℕ
free_bit zero b bi size buf = none
free_bit (suc k) b bi size buf =
    let rest = free_bit k b (bi + 1) size buf in
    if ltb (b + bi) size then (if bit buf bi == 0 then some bi else rest) else none

-- The outer loop of `balloc`, with `k` rounds left.
unfoldable pub balloc_from : ℕ → ℕ → Superblock → Disk → Result (ℕ × Disk)
balloc_from zero b sb d = panic
balloc_from (suc k) b sb d =
    let rest = balloc_from k (b + bpb) sb d in
    if ltb b sb.size
    then elim (free_bit bpb b 0 sb.size (d.block (bblock b sb))) [
      | none ↦ rest
      | some bi ↦
          ok (
            b + bi,
            bzero (b + bi) (log_block (bblock b sb) (set_bit (d.block (bblock b sb)) bi) d),
          )
    ]
    else panic

-- One round for each bitmap block that the size needs, and one for the loop's end.
unfoldable pub balloc : Superblock → Disk → Result (ℕ × Disk)
balloc sb d = balloc_from (sb.size / bpb + 2) 0 sb d

-- The super block is read again first.
unfoldable pub bfree : ℕ → Disk → Result Disk
bfree b d =
    let sb = readsb d in
    if bit (d.block (bblock b sb)) (b % bpb) == 0
    then panic
    else ok (log_block (bblock b sb) (clear_bit (d.block (bblock b sb)) (b % bpb)) d)
