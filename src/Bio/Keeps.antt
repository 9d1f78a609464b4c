-- ===== src/Bio/Keeps.antt =====
-- bio.c: `bread` takes no buffer away that is in use or is to be written.
use cs461_final_project_grub.Base.{
  ℕ, zero, suc, ◌+◌, ◌%◌, ◌^◌, ◌≡◌, ◌≢◌, ◌⊎◌, inl, inr, refl, sym, ◌∙◌, ap, Bool, true, false, ◌==◌,
  Option, none, some, Bool-cases, Result, ok, panic, ◌>>=◌, arith,
}
use cs461_final_project_grub.Bio.{
  Buf, Bcache, Disk, Got, got, waits, nbuf, list_head, set_buf, is_block, is_clean, search,
  lock_with, Sleeplock, acquiresleep, lock_buf, choose, bget, iderw, transfer, fill, bread,
}

-- A buffer that keeps its block, and what it has of it.
pub record Keeps (v v' : Buf) : Type 0 where
  pub device : v'.dev ≡ v.dev
  pub number : v'.blockno ≡ v.blockno
  pub bytes : v.valid ≡ true → v'.data_of ≡ v.data_of
  pub dirty : v.valid ≡ true → v'.dirty ≡ v.dirty
  pub valid : v.valid ≡ true → v'.valid ≡ true

-- Each buffer that is in use or is to be written keeps its block.
abbrev pub IsKept : Bcache → Bcache → Type 0
IsKept c c' =
    (i : ℕ) → ((c.buf i).refcnt ≢ 0) ⊎ ((c.buf i).dirty ≡ true) → Keeps (c.buf i) (c'.buf i)

abbrev AllKeep : Bcache → Bcache → Type 0
AllKeep c c' = (i : ℕ) → Keeps (c.buf i) (c'.buf i)

Keeps-trans : (u v w : Buf) → Keeps u v → Keeps v w → Keeps u w
Keeps-trans u v w h k = record {
  device = k.device ∙ h.device;
  number = k.number ∙ h.number;
  bytes = λ q. k.bytes (h.valid q) ∙ h.bytes q;
  dirty = λ q. k.dirty (h.valid q) ∙ h.dirty q;
  valid = λ q. k.valid (h.valid q);
}

Keeps-refl : (v : Buf) → Keeps v v
Keeps-refl v = record {
  device = refl;
  number = refl;
  bytes = λ q. refl;
  dirty = λ q. refl;
  valid = λ q. q;
}

set-AllKeep : (c : Bcache) (b : ℕ) (v : Buf) → Keeps (c.buf b) v → AllKeep c (set_buf c b v)
set-AllKeep c b v h i = elim (Bool-cases (i == b)) [
  | inl same ↦ rw (same, same_index same) h
  | inr other ↦ rw other (Keeps-refl (c.buf i))
]
  where
    same_index : i == b ≡ true → i ≡ b
    same_index e = ground (arith, e)

-- Whatever a call comes to, the buffers of `c` keep their blocks.
abbrev Later : (Bcache → Type 0) → Got → Type 0
Later P (got b c) = P c
Later P (waits b c) = P c

abbrev pub Afterwards : (Bcache → Type 0) → Result (Disk × Got) → Type 0
Afterwards P panic = Unit
Afterwards P (ok (d, g)) = Later P g

iderw_same :
    (d : Disk) (v : Buf) {d' : Disk} {v' : Buf}
    → iderw d v ≡ ok (d', v')
    → (v'.dev ≡ v.dev) × (v'.blockno ≡ v.blockno)
unfolding iderw
iderw_same d v h = (ground arith, ground arith)

transfer-AllKeep :
    (d : Disk) (b : ℕ) (c : Bcache)
    → (c.buf b).valid ≡ false
    → Afterwards (AllKeep c) (do (d', c') ← transfer d b c; ok (d', got b c'))
unfolding transfer
transfer-AllKeep d b c unread = moved (iderw d (c.buf b)) refl
  where
    moved :
        (r : Result (Disk × Buf))
        → iderw d (c.buf b) ≡ r
        → Afterwards
            (AllKeep c)
            (do (d', c') ← (do (d', v) ← r; ok (d', set_buf c b v)); ok (d', got b c'))
    moved panic e = tt
    moved (ok (d', v')) e =
        let same = iderw_same d (c.buf b) e in
        set-AllKeep c b v' (record {
          device = same.0;
          number = same.1;
          bytes = λ q. absurd (ground (arith, q, unread));
          dirty = λ q. absurd (ground (arith, q, unread));
          valid = λ q. absurd (ground (arith, q, unread));
        })

fill-AllKeep : (d : Disk) (b : ℕ) (c : Bcache) → Afterwards (AllKeep c) (fill d (got b c))
unfolding fill
fill-AllKeep d b c = elim (Bool-cases (c.buf b).valid) [
  | inl val ↦ rw val (λ i. Keeps-refl (c.buf i))
  | inr unread ↦ rw unread (transfer-AllKeep d b c unread)
]

-- The same from a cache in which they keep them already.
module _ (c0 : Bcache) where
  later_keep :
      (c : Bcache) (r : Result (Disk × Got))
      → IsKept c0 c
      → Afterwards (AllKeep c) r
      → Afterwards (IsKept c0) r
  later_keep c panic h k = tt
  later_keep c (ok (d, got b c')) h k =
      λ i used. Keeps-trans (c0.buf i) (c.buf i) (c'.buf i) (h i used) (k i)
  later_keep c (ok (d, waits b c')) h k =
      λ i used. Keeps-trans (c0.buf i) (c.buf i) (c'.buf i) (h i used) (k i)

  lock_keep :
      (pid : ℕ) (d : Disk) (b : ℕ) (c : Bcache)
      → IsKept c0 c
      → Afterwards (IsKept c0) (fill d (lock_buf pid b c))
  unfolding lock_buf fill
  lock_keep pid d b c h = by_lock (acquiresleep pid (c.buf b).lock)
    where
      by_lock : (o : Option Sleeplock) → Afterwards (IsKept c0) (fill d (lock_with b c o))
      by_lock none = λ i used. h i used
      by_lock (some lk) =
          let v : Buf = record (c.buf b) { lock = lk } in
          let same : Keeps (c.buf b) v = record {
            device = refl;
            number = refl;
            bytes = λ q. refl;
            dirty = λ q. refl;
            valid = λ q. q;
          } in
          let all = set-AllKeep c b v same in
          later_keep (set_buf c b v) (fill d (got b (set_buf c b v)))
            (λ i used. Keeps-trans (c0.buf i) (c.buf i) ((set_buf c b v).buf i) (h i used) (all i))
            (fill-AllKeep d b (set_buf c b v))

  choose_keep :
      (pid dev blockno : ℕ) (d : Disk) (o1 o2 : Option ℕ)
      → ((b : ℕ) → o2 ≡ some b → is_clean (c0.buf b) ≡ true)
      → Afterwards (IsKept c0) (choose pid dev blockno c0 o1 o2 >>= fill d)
  unfolding choose
  choose_keep pid dev blockno d (some b) o2 h =
      let v : Buf = record (c0.buf b) { refcnt = ((c0.buf b).refcnt + 1) % 2 ^ 32 } in
      lock_keep pid d b (set_buf c0 b v) (λ i used.
        set-AllKeep c0 b v
          (record {
            device = refl;
            number = refl;
            bytes = λ q. refl;
            dirty = λ q. refl;
            valid = λ q. q;
          })
          i)
  choose_keep pid dev blockno d none none h = tt
  choose_keep pid dev blockno d none (some b) h =
      let v : Buf = record (c0.buf b) {
        dev = dev;
        blockno = blockno;
        valid = false;
        dirty = false;
        refcnt = 1;
      } in
      lock_keep pid d b (set_buf c0 b v) (λ i used. elim (Bool-cases (i == b)) [
        | inl same ↦
            let e : i ≡ b = ground (arith, same) in
            absurd (unused (c0.buf i) used (ap (λ k. is_clean (c0.buf k)) e ∙ h b refl))
        | inr other ↦ rw other (Keeps-refl (c0.buf i))
      ])
    where
      unused : (w : Buf) → (w.refcnt ≢ 0) ⊎ (w.dirty ≡ true) → is_clean w ≡ true → ⊥
      unused w (inl used) e = ground (arith, used, e)
      unused w (inr dirty) e = ground (arith, dirty, e)

search-test :
    (f : ℕ) (test : Buf → Bool) (link : ℕ → ℕ) (buf : ℕ → Buf) (a b : ℕ)
    → search f test link buf a ≡ some b
    → test (buf b) ≡ true
unfolding search
search-test zero test link buf a b e = absurd (ground (arith, e))
search-test (suc f) test link buf a b e = elim (Bool-cases (a == list_head)) [
  | inl end ↦ absurd (ground (arith, end, e))
  | inr more ↦ elim (Bool-cases (test (buf a))) [
    | inl hit ↦
        let same : a ≡ b = ground (arith, more, hit, e) in ap (λ k. test (buf k)) (sym same) ∙ hit
    | inr miss ↦ search-test f test link buf (link a) b (ground (arith, more, miss, e))
  ]
]

pub bread_keep :
    (pid dev blockno : ℕ) (d : Disk) (c : Bcache)
    → Afterwards (IsKept c) (bread pid dev blockno d c)
unfolding bread bget
bread_keep pid dev blockno d c =
    choose_keep c pid dev blockno d
      (search (nbuf + 1) (is_block dev blockno) c.next c.buf (c.next list_head))
      (search (nbuf + 1) is_clean c.prev c.buf (c.prev list_head))
      (λ b e. search-test (nbuf + 1) is_clean c.prev c.buf (c.prev list_head) b e)
