-- ===== src/Bio/Reads.antt =====
-- bio.c: what `bread` and `bwrite` give.
use mathlib.Core.Path.{subst}
use cs461_final_project_grub.Base.{
  ℕ, ◌+◌, ◌%◌, ◌^◌, ◌≡◌, ◌≢◌, ◌≤◌, ◌⊎◌, inl, inr, refl, ap, sym, ◌∙◌, true, false, not, ◌&&◌,
  if◌then◌else◌, Option, none, some, List, update_self, Bool-cases, Option-cases, Result, ok, panic,
  ◌>>=◌, arith,
}
use cs461_final_project_grub.Bio.{
  Buf, Bcache, Disk, Got, got, waits, nbuf, set_buf, is_block, is_clean, acquiresleep, lock_with,
  lock_buf, choose, bget, transfer, fill, bread,
}
use cs461_final_project_grub.Bio.Search.{find, rev, search-next, search-prev}
use cs461_final_project_grub.Bio.Cache.{
  In, Settled, IsCached, find-some, find-none, In-rev, rev-In, keep-IsCached, set-IsCached,
}
use cs461_final_project_grub.Bio.Keeps.{IsKept, Afterwards, bread_keep}
use cs461_final_project_grub.Bio.Device.{Ready, Moved, transfer_lem}

-- The buffer `b` is to hold the block; another process has its lock.
pub record Awaited (d : Disk) (c : Bcache) (l : List ℕ) (b dev blockno : ℕ) : Type 0 where
  pub cached : IsCached d c l
  pub place : In b l
  pub held : (c.buf b).lock.locked ≡ true
  pub device : (c.buf b).dev ≡ dev
  pub number : (c.buf b).blockno ≡ blockno

-- What `bread` comes to behind `bget`, where the lock of a clean buffer was got.
abbrev Filled : Disk → List ℕ → (dev blockno : ℕ) → Result (Disk × Got) → Type 0
Filled d l dev blockno panic = (dev ≢ 1) ⊎ (d.disksize ≤ blockno)
Filled d l dev blockno (ok (d', got b c)) = Ready d' c l b dev blockno
Filled d l dev blockno (ok (d', waits b c)) = Awaited d' c l b dev blockno

fill_lem :
    (d : Disk) (c : Bcache) (l : List ℕ) (b : ℕ)
    → IsCached d c l
    → In b l
    → (c.buf b).lock.locked ≡ true
    → ((c.buf b).valid ≡ true
        → (c.buf b).dirty ≡ false
        → (c.buf b).data_of ≡ d.block (c.buf b).blockno)
    → Filled d l (c.buf b).dev (c.buf b).blockno (fill d (got b c))
unfolding fill
fill_lem d c l b h hb held fresh = elim (Bool-cases (c.buf b).valid) [
  | inl val ↦ rw val (record {
    cached = h;
    place = hb;
    held = held;
    valid = val;
    device = refl;
    number = refl;
    fresh = fresh val;
  })
  | inr val ↦ rw val (
      moved (transfer d b c)
        (transfer_lem d c l b h hb held (ap (λ x. x && not (c.buf b).dirty) val)))
]
  where
    moved :
        (r : Result (Disk × Bcache))
        → Moved d c l b r
        → Filled d l (c.buf b).dev (c.buf b).blockno (do (d', c') ← r; ok (d', got b c'))
    moved panic m = m
    moved (ok (d', c')) m = m.0

abbrev locked_buf : ℕ → ℕ → Bcache → Bcache
locked_buf pid b c = set_buf c b (record (c.buf b) { lock = record { locked = true; pid = pid } })

lock_taken : (pid b : ℕ) (c : Bcache) → (c.buf b).lock.locked ≡ true → lock_buf pid b c ≡ waits b c
unfolding lock_buf acquiresleep
lock_taken pid b c taken =
    ap (λ t. lock_with b c (if t then none else some (record { locked = true; pid = pid }))) taken

lock_free :
    (pid b : ℕ) (c : Bcache)
    → (c.buf b).lock.locked ≡ false
    → lock_buf pid b c ≡ got b (locked_buf pid b c)
unfolding lock_buf acquiresleep
lock_free pid b c free =
    ap (λ t. lock_with b c (if t then none else some (record { locked = true; pid = pid }))) free

fill_waits : (d : Disk) (b : ℕ) (c : Bcache) → fill d (waits b c) ≡ ok (d, waits b c)
unfolding fill
fill_waits d b c = refl

lock_fill :
    (pid : ℕ) (d : Disk) (c : Bcache) (l : List ℕ) (b : ℕ)
    → IsCached d c l
    → In b l
    → Filled d l (c.buf b).dev (c.buf b).blockno (fill d (lock_buf pid b c))
lock_fill pid d c l b h hb =
    let here : Result (Disk × Got) → Type 0 = Filled d l (c.buf b).dev (c.buf b).blockno in
    elim (Bool-cases (c.buf b).lock.locked) [
      | inl taken ↦
          subst here (sym (ap (fill d) (lock_taken pid b c taken) ∙ fill_waits d b c))
            (record { cached = h; place = hb; held = taken; device = refl; number = refl })
      | inr free ↦
          let v : Buf = record (c.buf b) { lock = record { locked = true; pid = pid } } in
          let at : (set_buf c b v).buf b ≡ v = update_self c.buf b v in
          let s : Settled d v = record {
            device = (h.settled b hb).device;
            coherent = λ val clean free'. absurd (ground (arith, free'));
          } in
          let all =
            fill_lem d (set_buf c b v) l b (keep-IsCached d c l b v h hb refl refl s) hb
              (ap (λ w. w.lock.locked) at)
              (λ val clean.
                ap (λ w. w.data_of) at
                ∙ (h.settled b hb).coherent (ap (λ w. w.valid) (sym at) ∙ val)
                    (ap (λ w. w.dirty) (sym at) ∙ clean) free
                ∙ ap (λ w. d.block w.blockno) (sym at)) in
          subst here (sym (ap (fill d) (lock_free pid b c free)))
            (subst (λ w. Filled d l w.dev w.blockno (fill d (got b (locked_buf pid b c)))) at all)
    ]

-- No buffer has the block, and each is in use or is to be written.
pub record IsFull (c : Bcache) (l : List ℕ) (dev blockno : ℕ) : Type 0 where
  pub absent : (i : ℕ) → In i l → (c.buf i).dev ≡ dev → (c.buf i).blockno ≢ blockno
  pub busy : (i : ℕ) → In i l → ((c.buf i).refcnt ≢ 0) ⊎ ((c.buf i).dirty ≡ true)

-- What `bread` comes to, but for what it does to the other buffers.
abbrev Found : Disk → Bcache → List ℕ → (dev blockno : ℕ) → Result (Disk × Got) → Type 0
Found d c l dev blockno panic = ((dev ≢ 1) ⊎ (d.disksize ≤ blockno)) ⊎ IsFull c l dev blockno
Found d c l dev blockno (ok (d', got b c')) = Ready d' c' l b dev blockno
Found d c l dev blockno (ok (d', waits b c')) = Awaited d' c' l b dev blockno

Filled-Found :
    (d : Disk) (c : Bcache) (l : List ℕ) (dev blockno : ℕ) (r : Result (Disk × Got))
    → Filled d l dev blockno r
    → Found d c l dev blockno r
Filled-Found d c l dev blockno panic h = inl h
Filled-Found d c l dev blockno (ok (d', got b c')) h = h
Filled-Found d c l dev blockno (ok (d', waits b c')) h = h

lock_Found :
    (pid dev blockno : ℕ) (d : Disk) (c : Bcache) (l : List ℕ) (b : ℕ) (v : Buf)
    → IsCached d (set_buf c b v) l
    → In b l
    → v.dev ≡ dev
    → v.blockno ≡ blockno
    → Found d c l dev blockno (fill d (lock_buf pid b (set_buf c b v)))
lock_Found pid dev blockno d c l b v h hb e e' =
    let r = fill d (lock_buf pid b (set_buf c b v)) in
    let at : (set_buf c b v).buf b ≡ v = update_self c.buf b v in
    Filled-Found d c l dev blockno r (
      subst (λ n. Filled d l dev n r) (ap (λ w. w.blockno) at ∙ e')
        (subst (λ n. Filled d l n ((set_buf c b v).buf b).blockno r) (ap (λ w. w.dev) at ∙ e)
          (lock_fill pid d (set_buf c b v) l b h hb)))

module _ (pid dev blockno : ℕ) (d : Disk) (c : Bcache) (l : List ℕ) (h : IsCached d c l) where
  -- The buffer that has the block.
  hit_Found :
      (b : ℕ) (o : Option ℕ)
      → find (is_block dev blockno) c.buf l ≡ some b
      → Found d c l dev blockno (choose pid dev blockno c (some b) o >>= fill d)
  unfolding choose
  hit_Found b o hit =
      let place = find-some (is_block dev blockno) c.buf l b hit in
      let same : ((c.buf b).dev ≡ dev) × ((c.buf b).blockno ≡ blockno) = both (c.buf b) place.1 in
      let v : Buf = record (c.buf b) { refcnt = ((c.buf b).refcnt + 1) % 2 ^ 32 } in
      let old = h.settled b place.0 in
      lock_Found pid dev blockno d c l b v
        (keep-IsCached d c l b v h place.0 refl refl
          (record { device = old.device; coherent = old.coherent }))
        place.0 same.0 same.1
    where
      both : (v : Buf) → is_block dev blockno v ≡ true → (v.dev ≡ dev) × (v.blockno ≡ blockno)
      both v e = (ground (arith, e), ground (arith, e))

  -- The unused buffer that the block is to go to.
  recycle_Found :
      (b : ℕ)
      → find (is_block dev blockno) c.buf l ≡ none
      → find is_clean c.buf (rev l) ≡ some b
      → Found d c l dev blockno (choose pid dev blockno c none (some b) >>= fill d)
  unfolding choose
  recycle_Found b miss hit =
      let place = In-rev b l (find-some is_clean c.buf (rev l) b hit).0 in
      let v : Buf = record (c.buf b) {
        dev = dev;
        blockno = blockno;
        valid = false;
        dirty = false;
        refcnt = 1;
      } in
      lock_Found pid dev blockno d c l b v
        (set-IsCached d c l b v h
          (λ j hj ne e e'.
            let other = find-none (is_block dev blockno) c.buf l j miss hj in
            absurd (neither (c.buf j) e e' other))
          (record {
            device = λ val. absurd (ground (arith, val));
            coherent = λ val clean free. absurd (ground (arith, val));
          }))
        place refl refl
    where
      neither : (v : Buf) → dev ≡ v.dev → blockno ≡ v.blockno → is_block dev blockno v ≡ false → ⊥
      neither v e e' other = ground (arith, e, e', other)

  full_Found :
      find (is_block dev blockno) c.buf l ≡ none
      → find is_clean c.buf (rev l) ≡ none
      → Found d c l dev blockno (choose pid dev blockno c none none >>= fill d)
  unfolding choose
  full_Found miss full = inr (record {
    absent = λ i hi e e'. other (c.buf i) e e' (find-none (is_block dev blockno) c.buf l i miss hi);
    busy = λ i hi. used (c.buf i) (find-none is_clean c.buf (rev l) i full (rev-In i l hi));
  })
    where
      other : (v : Buf) → v.dev ≡ dev → v.blockno ≡ blockno → is_block dev blockno v ≡ false → ⊥
      other v e e' miss = ground (arith, e, e', miss)

      used : (v : Buf) → is_clean v ≡ false → (v.refcnt ≢ 0) ⊎ (v.dirty ≡ true)
      used v miss = elim (Bool-cases v.dirty) [
        | inl dirty ↦ inr dirty
        | inr clean ↦ inl (ground (arith, miss, clean))
      ]

bread-Found :
    (pid dev blockno : ℕ) (d : Disk) (c : Bcache) (l : List ℕ)
    → IsCached d c l
    → Found d c l dev blockno (bread pid dev blockno d c)
unfolding bread bget
bread-Found pid dev blockno d c l h =
    let few = h.few in
    let first = search-next (nbuf + 1) (is_block dev blockno) c l h.ring (omega (arith, few)) in
    let second = search-prev (nbuf + 1) is_clean c l h.ring (omega (arith, few)) in
    rw (first, second)
      (elim (Option-cases (find (is_block dev blockno) c.buf l)) [
        | inr (b, hit) ↦
            rw hit (hit_Found pid dev blockno d c l h b (find is_clean c.buf (rev l)) hit)
        | inl miss ↦ elim (Option-cases (find is_clean c.buf (rev l))) [
          | inr (b, hit) ↦ rw (miss, hit) (recycle_Found pid dev blockno d c l h b miss hit)
          | inl full ↦ rw (miss, full) (full_Found pid dev blockno d c l h miss full)
        ]
      ])

-- What `bread` comes to.
abbrev pub Served : Disk → Bcache → List ℕ → (dev blockno : ℕ) → Result (Disk × Got) → Type 0
Served d c l dev blockno panic = ((dev ≢ 1) ⊎ (d.disksize ≤ blockno)) ⊎ IsFull c l dev blockno
Served d c l dev blockno (ok (d', got b c')) = Ready d' c' l b dev blockno × IsKept c c'
Served d c l dev blockno (ok (d', waits b c')) = Awaited d' c' l b dev blockno × IsKept c c'

Found-Served :
    (d : Disk) (c : Bcache) (l : List ℕ) (dev blockno : ℕ) (r : Result (Disk × Got))
    → Found d c l dev blockno r
    → Afterwards (IsKept c) r
    → Served d c l dev blockno r
Found-Served d c l dev blockno panic h k = h
Found-Served d c l dev blockno (ok (d', got b c')) h k = (h, k)
Found-Served d c l dev blockno (ok (d', waits b c')) h k = (h, k)

-- From a cache in order, `bread` gives a locked, valid buffer that holds the block, with the disk's bytes
-- unless it is to be written, or waits for the lock of a buffer that is to hold this block. The cache is
-- in order again: no two buffers hold the same block of a device other than 0, and each clean, valid
-- buffer that nobody has locked agrees with the disk. Every buffer that was in use or to be written
-- still has its block, with its bytes and its dirty flag where it was valid. It panics only where the device is not disk
-- 1, where the block is out of range, or where all buffers are in use or to be written and
-- none has the block.
pub bread-Served :
    (pid dev blockno : ℕ) (d : Disk) (c : Bcache) (l : List ℕ)
    → IsCached d c l
    → Served d c l dev blockno (bread pid dev blockno d c)
bread-Served pid dev blockno d c l h =
    Found-Served d c l dev blockno (bread pid dev blockno d c) (bread-Found pid dev blockno d c l h)
      (bread_keep pid dev blockno d c)
