-- ===== src/Bio/Writes.antt =====
-- bio.c: what `bwrite` leaves on the disk.
use cs461_final_project_grub.Base.{
  ℕ, ◌≡◌, ◌≢◌, ◌<◌, refl, ap, sym, ◌∙◌, true, false, not, ◌==◌, leb, if◌then◌else◌, List, update,
  update_self, update_ne, Result, ok, panic, ◌>>=◌, arith,
}
use cs461_final_project_grub.Bio.{Buf, Bcache, Disk, set_buf, holdingsleep, iderw, transfer, bwrite}
use cs461_final_project_grub.Bio.Cache.{In, IsCached, keep-IsCached, disk-IsCached}
use cs461_final_project_grub.Bio.Device.{iderw_write, and_false}

-- The disk and the cache after a write of `b`.
pub record Stored (d : Disk) (c : Bcache) (l : List ℕ) (b : ℕ) (d' : Disk) (c' : Bcache)
    : Type 0 where
  pub cached : IsCached d' c' l
  pub stored : d'.block (c.buf b).blockno ≡ (c.buf b).data_of
  pub others : (n : ℕ) → n ≢ (c.buf b).blockno → d'.block n ≡ d.block n
  pub clean : (c'.buf b).dirty ≡ false
  pub same : (c'.buf b).data_of ≡ (c.buf b).data_of

abbrev marked : Bcache → ℕ → Buf
marked c b = record (c.buf b) { dirty = true }

abbrev cleaned : Bcache → ℕ → Buf
cleaned c b = record (c.buf b) { dirty = false; valid = true }

bwrite_at :
    (d : Disk) (c : Bcache) (b : ℕ)
    → (c.buf b).lock.locked ≡ true
    → (c.buf b).dev == 1 ≡ true
    → leb d.disksize (c.buf b).blockno ≡ false
    → bwrite d b c
      ≡ ok (
        record d { block = update d.block (c.buf b).blockno (c.buf b).data_of },
        set_buf (set_buf c b (marked c b)) b (cleaned c b),
      )
unfolding bwrite transfer holdingsleep
bwrite_at d c b held one inside =
    let v : Buf = record (c.buf b) { dirty = true } in
    let c' : Bcache = set_buf c b v in
    let back : Result (Disk × Buf) → Result (Disk × Bcache) =
      λ r. r >>= (λ w. ok (w.0, set_buf c' b w.1)) in
    ap (λ t. if not t then panic else back (iderw d (c'.buf b))) held
    ∙ ap (λ w. back (iderw d w)) (update_self c.buf b v)
    ∙ ap back (iderw_write d v held (and_false (c.buf b).valid) one inside refl)

-- `bwrite` of a locked buffer of disk 1 whose number is in range does not panic: the disk gets the
-- buffer's bytes at that block and keeps every other block, the buffer keeps its bytes and is
-- clean, and the cache is in order again.
pub bwrite-Stored :
    (d : Disk) (c : Bcache) (l : List ℕ) (b : ℕ)
    → IsCached d c l
    → In b l
    → (c.buf b).lock.locked ≡ true
    → (c.buf b).dev ≡ 1
    → (c.buf b).blockno < d.disksize
    → (d' : Disk) × (c' : Bcache) × (bwrite d b c ≡ ok (d', c')) × Stored d c l b d' c'
bwrite-Stored d c l b h hb held one inside =
    let d' : Disk = record d { block = update d.block (c.buf b).blockno (c.buf b).data_of } in
    let c1 : Bcache = set_buf c b (marked c b) in
    let at : c1.buf b ≡ marked c b = update_self c.buf b (marked c b) in
    let at' : (set_buf c1 b (cleaned c b)).buf b ≡ cleaned c b =
      update_self c1.buf b (cleaned c b) in
    let h1 =
      keep-IsCached d' c l b (marked c b) (disk-IsCached d c l b (c.buf b).data_of h hb one held) hb
        refl refl
        (record {
          device = λ val. one;
          coherent = λ val clean free. absurd (ground (arith, clean));
        }) in
    (
      d',
      set_buf c1 b (cleaned c b),
      bwrite_at d c b held (ground (arith, one)) (ground (arith, inside)),
      record {
        cached =
            keep-IsCached d' c1 l b (cleaned c b) h1 hb (ap (λ w. w.dev) (sym at))
              (ap (λ w. w.blockno) (sym at))
              (record {
                device = λ val. one;
                coherent =
                    λ val clean free. sym (update_self d.block (c.buf b).blockno (c.buf b).data_of);
              });
        stored = update_self d.block (c.buf b).blockno (c.buf b).data_of;
        others = λ n ne. update_ne d.block (c.buf b).blockno n (c.buf b).data_of ne;
        clean = ap (λ w. w.dirty) at';
        same = ap (λ w. w.data_of) at';
      },
    )
