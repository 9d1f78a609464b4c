-- ===== src/Log.antt =====
-- log.c: the write-ahead log of the file system.
--
-- A block is its 32-bit words, by index; the header block holds `n` in word 0 and `block[i]` in
-- word `i + 1`. A device is the disk and what `bread` gives for each block (the cached copy, the
-- disk's where none is cached). `power` is the number of block writes that still reach the disk
-- before the machine stops: a later `bwrite` changes the cache only, and a reboot drops the cache.
pub mod Commit
pub mod Crash
pub mod Header
pub mod Loops
pub mod Ops
pub mod Writes
mod Tests
use cs461_final_project_grub.Base.{
  ℕ, zero, suc, ◌+◌, ◌-◌, ◌*◌, Bool, true, false, ◌&&◌, ◌||◌, Option, none, some, ltb, leb, ◌==◌,
  if◌then◌else◌, update, Result, ok, panic, ℤ, pos, negsuc,
}

-- `LOGSIZE` and `MAXOPBLOCKS` of param.h.
abbrev pub max_op_blocks : ℕ
max_op_blocks = 10

abbrev pub log_size : ℕ
log_size = max_op_blocks * 3

abbrev pub Block : Type 0
Block = ℕ → ℕ

-- `struct logheader`
pub record LogHeader : Type 0 where
  pub n : ℕ
  pub block : ℕ → ℕ

-- `struct log`, without its spin lock: code between `acquire` and `release` is one step here.
pub record Log : Type 0 where
  pub start : ℕ
  pub size : ℕ
  pub outstanding : ℤ
  pub committing : Bool
  pub dev : ℕ
  pub lh : LogHeader

pub record Device : Type 0 where
  pub disk : ℕ → Block
  pub cache : ℕ → Block
  pub power : ℕ

abbrev pub bread : Device → ℕ → Block
bread d b = d.cache b

-- `bwrite` of a buffer whose new contents are `v`.
unfoldable pub bwrite : Device → ℕ → Block → Device
bwrite d b v = record {
  disk = (if d.power == 0 then d.disk else update d.disk b v);
  cache = update d.cache b v;
  power = d.power - 1;
}

-- The loop of `install_trans`, with `k` rounds left.
unfoldable pub install_from : ℕ → ℕ → Log → Device → Device
install_from zero tail log d = d
install_from (suc k) tail log d =
    let lbuf = bread d (log.start + tail + 1) in
    install_from k (tail + 1) log (bwrite d (log.lh.block tail) lbuf)

unfoldable pub install_trans : Log → Device → Device
install_trans log d = install_from log.lh.n 0 log d

-- The loop of `read_head`, with `k` rounds left.
unfoldable pub read_blocks : ℕ → ℕ → Block → (ℕ → ℕ) → ℕ → ℕ
read_blocks zero i lh block = block
read_blocks (suc k) i lh block = read_blocks k (i + 1) lh (update block i (lh (i + 1)))

unfoldable pub read_head : Log → Device → Log
read_head log d =
    let lh = bread d log.start in
    record log { lh = record { n = lh 0; block = read_blocks (lh 0) 0 lh log.lh.block } }

-- The loop of `write_head`, with `k` rounds left.
unfoldable pub write_blocks : ℕ → ℕ → (ℕ → ℕ) → Block → Block
write_blocks zero i block hb = hb
write_blocks (suc k) i block hb = write_blocks k (i + 1) block (update hb (i + 1) (block i))

unfoldable pub write_head : Log → Device → Device
write_head log d =
    let hb = update (bread d log.start) 0 log.lh.n in
    bwrite d log.start (write_blocks log.lh.n 0 log.lh.block hb)

-- `log.lh.n = 0`
abbrev pub clear : Log → Log
clear log = record log { lh = record { n = 0; block = log.lh.block } }

unfoldable pub recover_from_log : Log → Device → Log × Device
recover_from_log log d =
    let log' = read_head log d in
    let d' = install_trans log' d in (clear log', write_head (clear log') d')

-- `initlog`, given the superblock's `logstart` and `nlog`.
unfoldable pub initlog : (logstart nlog dev : ℕ) → Log → Device → Log × Device
initlog logstart nlog dev log d =
    recover_from_log (record log { start = logstart; size = nlog; dev = dev }) d

-- The loop of `write_log`, with `k` rounds left.
unfoldable pub write_log_from : ℕ → ℕ → Log → Device → Device
write_log_from zero tail log d = d
write_log_from (suc k) tail log d =
    let source = bread d (log.lh.block tail) in
    write_log_from k (tail + 1) log (bwrite d (log.start + tail + 1) source)

unfoldable pub write_log : Log → Device → Device
write_log log d = write_log_from log.lh.n 0 log d

unfoldable pub commit : Log → Device → Log × Device
commit log d =
    if ltb 0 log.lh.n
    then (let d1 = write_log log d in
        let d2 = write_head log d1 in
        let d3 = install_trans log d2 in (clear log, write_head (clear log) d3))
    else (log, d)

-- `outstanding` is an `int`: one more, one less, and the tests on it.
abbrev pub one_more : ℤ → ℤ
one_more (pos n) = pos (n + 1)
one_more (negsuc zero) = pos 0
one_more (negsuc (suc n)) = negsuc n

abbrev pub one_less : ℤ → ℤ
one_less (pos zero) = negsuc 0
one_less (pos (suc n)) = pos n
one_less (negsuc n) = negsuc (suc n)

abbrev pub is_zero : ℤ → Bool
is_zero (pos n) = n == 0
is_zero (negsuc n) = false

abbrev pub below_one : ℤ → Bool
below_one (pos n) = ltb n 1
below_one (negsuc n) = true

-- `n + ops * MAXOPBLOCKS > LOGSIZE`
abbrev pub is_over : ℕ → ℤ → Bool
is_over n (pos ops) = ltb log_size (n + ops * max_op_blocks)
is_over n (negsuc ops) = ltb (log_size + (ops + 1) * max_op_blocks) n

-- One turn of `begin_op`'s loop: `none` where it sleeps.
unfoldable pub begin_op : Log → Option Log
begin_op log =
    if log.committing
    then none
    else if is_over log.lh.n (one_more log.outstanding)
    then none
    else some (record log { outstanding = one_more log.outstanding })

-- The first part of `end_op`, under the lock; the flag is `do_commit`.
unfoldable pub end_op : Log → Result (Log × Bool)
end_op log =
    let log' = record log { outstanding = one_less log.outstanding } in
    if log.committing
    then panic
    else if is_zero log'.outstanding
    then ok (record log' { committing = true }, true)
    else ok (log', false)

-- The second part of `end_op`: the commit, and the flag's reset.
unfoldable pub end_commit : Log → Device → Log × Device
end_commit log d = let (log', d') = commit log d in (record log' { committing = false }, d')

-- The search loop of `log_write`, with `k` rounds left: the index of the block's slot.
unfoldable pub slot_from : ℕ → ℕ → (ℕ → ℕ) → ℕ → ℕ
slot_from zero i block b = i
slot_from (suc k) i block b =
    let rest = slot_from k (i + 1) block b in if block i == b then i else rest

unfoldable pub log_write : ℕ → Log → Result Log
log_write b log =
    if leb log_size log.lh.n || leb (log.size - 1) log.lh.n
    then panic
    else if below_one log.outstanding
    then panic
    else (let i = slot_from log.lh.n 0 log.lh.block b in
        ok (record log {
          lh = record {
            n = (if i == log.lh.n then log.lh.n + 1 else log.lh.n);
            block = update log.lh.block i b;
          };
        }))
