-- ===== src/Bio/Device.antt =====
-- bio.c and memide.c: what a transfer makes of a buffer of the cache.
use mathlib.Core.Path.{subst}
use cs461_final_project_grub.Base.{
  ℕ, ◌≡◌, ◌≢◌, ◌≤◌, ◌⊎◌, inl, inr, refl, ap, sym, ◌∙◌, Bool, true, false, not, ◌&&◌, ◌==◌, leb,
  List, update, update_self, Bool-cases, Result, ok, panic, ◌>>=◌, arith,
}
use cs461_final_project_grub.Bio.{Buf, Bcache, Disk, set_buf, holdingsleep, iderw, transfer}
use cs461_final_project_grub.Bio.Cache.{In, IsCached, keep-IsCached, disk-IsCached}

-- The locked buffer `b` holds the block, and agrees with the disk unless it is to be written.
pub record Ready (d : Disk) (c : Bcache) (l : List ℕ) (b dev blockno : ℕ) : Type 0 where
  pub cached : IsCached d c l
  pub place : In b l
  pub held : (c.buf b).lock.locked ≡ true
  pub valid : (c.buf b).valid ≡ true
  pub device : (c.buf b).dev ≡ dev
  pub number : (c.buf b).blockno ≡ blockno
  pub fresh : (c.buf b).dirty ≡ false → (c.buf b).data_of ≡ d.block blockno

-- What `iderw` comes to for a buffer of the cache.
abbrev pub Moved : Disk → Bcache → List ℕ → ℕ → Result (Disk × Bcache) → Type 0
Moved d c l b panic = ((c.buf b).dev ≢ 1) ⊎ (d.disksize ≤ (c.buf b).blockno)
Moved d c l b (ok (d', c')) =
    Ready d' c' l b (c.buf b).dev (c.buf b).blockno × ((c'.buf b).dirty ≡ false)

-- A buffer of the cache that has been read or written.
pub moved-Ready :
    (d : Disk) (c : Bcache) (l : List ℕ) (b : ℕ) (v : Buf)
    → IsCached d c l
    → In b l
    → v.lock.locked ≡ true
    → v.valid ≡ true
    → v.dirty ≡ false
    → v.dev ≡ (c.buf b).dev
    → v.blockno ≡ (c.buf b).blockno
    → (c.buf b).dev ≡ 1
    → v.data_of ≡ d.block v.blockno
    → Ready d (set_buf c b v) l b (c.buf b).dev (c.buf b).blockno
      × (((set_buf c b v).buf b).dirty ≡ false)
moved-Ready d c l b v h hb held val clean e e' one same =
    let at : (set_buf c b v).buf b ≡ v = update_self c.buf b v in
    (
      record {
        cached =
            keep-IsCached d c l b v h hb e e'
              (record { device = λ q. e ∙ one; coherent = λ q q' q''. same });
        place = hb;
        held = ap (λ w. w.lock.locked) at ∙ held;
        valid = ap (λ w. w.valid) at ∙ val;
        device = ap (λ w. w.dev) at ∙ e;
        number = ap (λ w. w.blockno) at ∙ e';
        fresh = λ q. ap (λ w. w.data_of) at ∙ same ∙ ap d.block e';
      },
      ap (λ w. w.dirty) at ∙ clean,
    )

pub and_false : (b : Bool) → b && false ≡ false
and_false true = refl
and_false false = refl

pub unread : (val dirty : Bool) → val && not dirty ≡ false → dirty ≡ false → val ≡ false
unread true dirty h clean = absurd (ground (arith, h, clean))
unread false dirty h clean = refl

module _ (d : Disk) (v : Buf) (held : v.lock.locked ≡ true)
    (todo : v.valid && not v.dirty ≡ false) where
  pub iderw_device : v.dev == 1 ≡ false → iderw d v ≡ panic
  unfolding iderw holdingsleep
  iderw_device other = simp (held, todo, other)

  pub iderw_range : v.dev == 1 ≡ true → leb d.disksize v.blockno ≡ true → iderw d v ≡ panic
  unfolding iderw holdingsleep
  iderw_range one out = simp (held, todo, one, out)

  pub iderw_write :
      v.dev == 1 ≡ true
      → leb d.disksize v.blockno ≡ false
      → v.dirty ≡ true
      → iderw d v
        ≡ ok (
          record d { block = update d.block v.blockno v.data_of },
          record v { dirty = false; valid = true },
        )
  unfolding iderw holdingsleep
  iderw_write one inside dirty = simp (held, one, inside, dirty, and_false v.valid)

  pub iderw_read :
      v.dev == 1 ≡ true
      → leb d.disksize v.blockno ≡ false
      → v.dirty ≡ false
      → iderw d v ≡ ok (d, record v { data_of = d.block v.blockno; valid = true })
  unfolding iderw holdingsleep
  iderw_read one inside clean = simp (held, unread v.valid v.dirty todo clean, one, inside, clean)

pub transfer_lem :
    (d : Disk) (c : Bcache) (l : List ℕ) (b : ℕ)
    → IsCached d c l
    → In b l
    → (c.buf b).lock.locked ≡ true
    → (c.buf b).valid && not (c.buf b).dirty ≡ false
    → Moved d c l b (transfer d b c)
unfolding transfer
transfer_lem d c l b h hb held todo =
    let v : Buf = c.buf b in
    let back : Result (Disk × Buf) → Result (Disk × Bcache) =
      λ r. r >>= (λ w. ok (w.0, set_buf c b w.1)) in
    elim (Bool-cases (v.dev == 1)) [
      | inl one ↦ elim (Bool-cases (leb d.disksize v.blockno)) [
        | inl out ↦
            subst (Moved d c l b) (sym (ap back (iderw_range d v held todo one out)))
              (inr (ground (arith, out)))
        | inr inside ↦ elim (Bool-cases v.dirty) [
          | inl dirty ↦
              subst (Moved d c l b) (sym (ap back (iderw_write d v held todo one inside dirty))) (
                moved-Ready (record d { block = update d.block v.blockno v.data_of }) c l b
                  (record v { dirty = false; valid = true })
                  (disk-IsCached d c l b v.data_of h hb (ground (arith, one)) held) hb held refl
                  refl refl refl (ground (arith, one))
                  (sym (update_self d.block v.blockno v.data_of)))
          | inr clean ↦
              subst (Moved d c l b) (sym (ap back (iderw_read d v held todo one inside clean))) (
                moved-Ready d c l b (record v { data_of = d.block v.blockno; valid = true }) h hb
                  held refl clean refl refl (ground (arith, one)) refl)
        ]
      ]
      | inr other ↦
          subst (Moved d c l b) (sym (ap back (iderw_device d v held todo other)))
            (inl (ground (arith, other)))
    ]
