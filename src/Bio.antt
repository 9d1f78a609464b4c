-- ===== src/Bio.antt =====
-- bio.c, sleeplock.c and memide.c: the buffer cache, its sleep locks, and the disk in memory.
--
-- A buffer is its number in `bcache.buf`; `head` has the number behind the last. The spin lock calls are
-- left out: each function is one step, and a process that waits for a sleep lock is a result of its own.
pub mod Links
pub mod Ring
pub mod Search
pub mod Cache
pub mod Init
pub mod Device
pub mod Keeps
pub mod Reads
pub mod Writes
mod Tests
use cs461_final_project_grub.Base.{
  ℕ, zero, suc, ◌+◌, ◌-◌, ◌%◌, ◌^◌, Bool, true, false, not, ◌&&◌, ◌||◌, leb, ◌==◌, if◌then◌else◌,
  Option, none, some, update, Result, ok, panic, ◌>>=◌,
}

-- `struct sleeplock`, without what is there for debugging and its spin lock.
pub record Sleeplock : Type 0 where
  pub locked : Bool
  pub pid : ℕ

unfoldable pub initsleeplock : Sleeplock
initsleeplock = record { locked = false; pid = 0 }

-- `none` where the process sleeps; woken up, it calls this again.
unfoldable pub acquiresleep : ℕ → Sleeplock → Option Sleeplock
acquiresleep pid lk = if lk.locked then none else some (record { locked = true; pid = pid })

-- The `wakeup` is that of `Proc`.
unfoldable pub releasesleep : Sleeplock → Sleeplock
releasesleep lk = record { locked = false; pid = 0 }

unfoldable pub holdingsleep : Sleeplock → Bool
holdingsleep lk = lk.locked

-- `data[BSIZE]`
abbrev pub Block : Type 0
Block = ℕ → ℕ

-- `struct buf`; of the flags there are `B_VALID` and `B_DIRTY`.
pub record Buf : Type 0 where
  pub valid : Bool
  pub dirty : Bool
  pub dev : ℕ
  pub blockno : ℕ
  pub lock : Sleeplock
  pub refcnt : ℕ
  pub data_of : Block

abbrev pub nbuf : ℕ
nbuf = 30

abbrev pub list_head : ℕ
list_head = nbuf

pub record Bcache : Type 0 where
  pub buf : ℕ → Buf
  pub next : ℕ → ℕ
  pub prev : ℕ → ℕ

-- The disk: `disksize` blocks.
pub record Disk : Type 0 where
  pub disksize : ℕ
  pub block : ℕ → Block

abbrev pub set_buf : Bcache → ℕ → Buf → Bcache
set_buf c b v = record c { buf = update c.buf b v }

-- The round of `binit` for `b`.
unfoldable pub link_front : ℕ → Bcache → Bcache
link_front b c =
    let next = update c.next b (c.next list_head) in
    let prev = update c.prev b list_head in
    record c { next = update next list_head b; prev = update prev (next list_head) b }

-- The rounds of `binit` for the first `n` buffers.
unfoldable pub link_all : ℕ → Bcache → Bcache
link_all zero c = c
link_all (suc n) c =
    let c' = link_all n c in
    link_front n (set_buf c' n (record (c'.buf n) { lock = initsleeplock }))

unfoldable pub binit : Bcache → Bcache
binit c = link_all nbuf (record c {
  prev = update c.prev list_head list_head;
  next = update c.next list_head list_head;
})

abbrev pub is_block : ℕ → ℕ → Buf → Bool
is_block dev blockno b = b.dev == dev && b.blockno == blockno

abbrev pub is_clean : Buf → Bool
is_clean b = b.refcnt == 0 && not b.dirty

-- The loops of `bget`, on fuel, along `link` from `b`.
unfoldable pub search : ℕ → (Buf → Bool) → (ℕ → ℕ) → (ℕ → Buf) → ℕ → Option ℕ
search zero test link buf b = none
search (suc f) test link buf b =
    let more = search f test link buf (link b) in
    if b == list_head then none else if test (buf b) then some b else more

-- What `bget` comes to: a locked buffer, or one whose lock the process waits for.
pub data Got : Type 0 where
  got waits : ℕ → Bcache → Got

-- `acquiresleep(&b->lock); return b;`
abbrev pub lock_with : ℕ → Bcache → Option Sleeplock → Got
lock_with b c none = waits b c
lock_with b c (some lk) = got b (set_buf c b (record (c.buf b) { lock = lk }))

unfoldable pub lock_buf : ℕ → ℕ → Bcache → Got
lock_buf pid b c = lock_with b c (acquiresleep pid (c.buf b).lock)

-- `bget`, by the buffers that its two loops find: the first that has the block, and the last unused one.
unfoldable pub choose : ℕ → ℕ → ℕ → Bcache → Option ℕ → Option ℕ → Result Got
choose pid dev blockno c (some b) _ =
    ok
      (lock_buf pid b (set_buf c b (record (c.buf b) { refcnt = ((c.buf b).refcnt + 1) % 2 ^ 32 })))
choose pid dev blockno c none (some b) = ok (
    lock_buf pid b (
      set_buf c b (record (c.buf b) {
        dev = dev;
        blockno = blockno;
        valid = false;
        dirty = false;
        refcnt = 1;
      })))
choose pid dev blockno c none none = panic

unfoldable pub bget : ℕ → ℕ → ℕ → Bcache → Result Got
bget pid dev blockno c =
    choose pid dev blockno c
      (search (nbuf + 1) (is_block dev blockno) c.next c.buf (c.next list_head))
      (search (nbuf + 1) is_clean c.prev c.buf (c.prev list_head))

-- memide.c
unfoldable pub iderw : Disk → Buf → Result (Disk × Buf)
iderw d b =
    if not (holdingsleep b.lock)
    then panic
    else if b.valid && not b.dirty
    then panic
    else if not (b.dev == 1)
    then panic
    else if leb d.disksize b.blockno
    then panic
    else if b.dirty
    then ok (
      record d { block = update d.block b.blockno b.data_of },
      record b { dirty = false; valid = true },
    )
    else ok (d, record b { data_of = d.block b.blockno; valid = true })

-- `iderw(b)` on a buffer of the cache.
unfoldable pub transfer : Disk → ℕ → Bcache → Result (Disk × Bcache)
transfer d b c = do (d', v) ← iderw d (c.buf b); ok (d', set_buf c b v)

-- `bread` behind `bget`.
unfoldable pub fill : Disk → Got → Result (Disk × Got)
fill d (waits b c) = ok (d, waits b c)
fill d (got b c) =
    if not (c.buf b).valid
    then (do (d', c') ← transfer d b c; ok (d', got b c'))
    else ok (d, got b c)

unfoldable pub bread : ℕ → ℕ → ℕ → Disk → Bcache → Result (Disk × Got)
bread pid dev blockno d c = do g ← bget pid dev blockno c; fill d g

-- What a process that waited for `b` in `bread` does when it is woken up.
unfoldable pub bread_woken : ℕ → ℕ → Disk → Bcache → Result (Disk × Got)
bread_woken pid b d c = fill d (lock_buf pid b c)

unfoldable pub bwrite : Disk → ℕ → Bcache → Result (Disk × Bcache)
bwrite d b c =
    if not (holdingsleep (c.buf b).lock)
    then panic
    else transfer d b (set_buf c b (record (c.buf b) { dirty = true }))

-- `b->next->prev = b->prev; b->prev->next = b->next;`
unfoldable pub unlink : ℕ → Bcache → Bcache
unlink b c =
    let prev = update c.prev (c.next b) (c.prev b) in
    record c { prev = prev; next = update c.next (prev b) (c.next b) }

unfoldable pub brelse : ℕ → Bcache → Result Bcache
brelse b c =
    if not (holdingsleep (c.buf b).lock)
    then panic
    else let c' = set_buf c b (record (c.buf b) {
      lock = releasesleep (c.buf b).lock;
      refcnt = ((c.buf b).refcnt + 2 ^ 32 - 1) % 2 ^ 32;
    }) in
      (if (c'.buf b).refcnt == 0 then ok (link_front b (unlink b c')) else ok c')
