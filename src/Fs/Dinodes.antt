-- ===== src/Fs/Dinodes.antt =====
-- An inode written to the disk and read back.
use mathlib.Core.Path.{subst}
use cs461_final_project_grub.Base.{
  ℕ, zero, suc, ◌+◌, ◌*◌, ◌^◌, ◌≡◌, ◌≢◌, ◌≤◌, ◌<◌, ◌⊎◌, inl, inr, refl, ap, sym, ◌∙◌, ◌==◌, arith,
  Bool-cases,
}
use cs461_final_project_grub.Fs.Disk.{
  Bytes, Disk, Superblock, log_block, load16, load32, store16, store32,
}
use cs461_final_project_grub.Fs.Inodes.{
  Inode, ndirect, iblock, dinode_at, iupdate, store_addrs, read_dinode,
}
use cs461_final_project_grub.Fs.Words.{
  store16_else, store32_else, load16-store16, load16_same, load16_else16, load16_else32,
  load32-store32, load32_same,
}

-- The words of the addresses `i` up to `i + k`, and the bytes before and behind them.
store_addrs_else :
    (k i a : ℕ) (addrs : ℕ → ℕ) (s : Bytes) (b : ℕ)
    → (b < a + 12 + i * 4) ⊎ (a + 12 + (i + k) * 4 ≤ b)
    → store_addrs k i a addrs s b ≡ s b
unfolding store_addrs
store_addrs_else zero i a addrs s b out = refl
store_addrs_else (suc k) i a addrs s b out =
    store_addrs_else k (i + 1) a addrs (store32 (a + 12 + i * 4) (addrs i) s) b (omega arith)
    ∙ store32_else (a + 12 + i * 4) (addrs i) s b (omega arith)

load32-store_addrs :
    (k i a : ℕ) (addrs : ℕ → ℕ) (s : Bytes) (j : ℕ)
    → i ≤ j
    → j < i + k
    → addrs j < 2 ^ 32
    → load32 (store_addrs k i a addrs s) (a + 12 + j * 4) ≡ addrs j
unfolding store_addrs
load32-store_addrs zero i a addrs s j low high lt = absurd (omega arith)
load32-store_addrs (suc k) i a addrs s j low high lt = elim (Bool-cases (j == i)) [
  | inr later ↦
      load32-store_addrs k (i + 1) a addrs (store32 (a + 12 + i * 4) (addrs i) s) j
        (ground (arith, later)) (omega arith) lt
  | inl here ↦
      let same : j ≡ i = ground (arith, here) in
      load32_same (a + 12 + j * 4)
        (store_addrs k (i + 1) a addrs (store32 (a + 12 + i * 4) (addrs i) s))
        (store32 (a + 12 + i * 4) (addrs i) s)
        (λ b l h.
          store_addrs_else k (i + 1) a addrs (store32 (a + 12 + i * 4) (addrs i) s) b
            (omega (arith, same)))
      ∙ subst (λ x. load32 (store32 (a + 12 + i * 4) (addrs i) s) (a + 12 + x * 4) ≡ addrs x)
          (sym same)
          (load32-store32 (a + 12 + i * 4) (addrs i) s (subst (λ x. addrs x < 2 ^ 32) same lt))
]

-- The fields of an inode fit the words of the disk.
pub record Fits (ip : Inode) : Type 0 where
  pub type16 : ip.type < 2 ^ 16
  pub major16 : ip.major < 2 ^ 16
  pub minor16 : ip.minor < 2 ^ 16
  pub nlink16 : ip.nlink < 2 ^ 16
  pub size32 : ip.size < 2 ^ 32
  pub addrs32 : (i : ℕ) → i ≤ ndirect → ip.addrs i < 2 ^ 32

-- The copies agree on what the disk keeps.
pub record Agree (ip jp : Inode) : Type 0 where
  pub type : jp.type ≡ ip.type
  pub major : jp.major ≡ ip.major
  pub minor : jp.minor ≡ ip.minor
  pub nlink : jp.nlink ≡ ip.nlink
  pub size : jp.size ≡ ip.size
  pub addrs : (i : ℕ) → i ≤ ndirect → jp.addrs i ≡ ip.addrs i

-- The bytes of a block after the stores of `iupdate` at byte `a`.
abbrev header : ℕ → Inode → Bytes → Bytes
header a ip s = store32 (a + 8) ip.size (
    store16 (a + 6) ip.nlink
      (store16 (a + 4) ip.minor (store16 (a + 2) ip.major (store16 a ip.type s))))

abbrev written : ℕ → Inode → Bytes → Bytes
written a ip s = store_addrs (ndirect + 1) 0 a ip.addrs (header a ip s)

written_else :
    (a : ℕ) (ip : Inode) (s : Bytes) (b : ℕ) → (b < a) ⊎ (a + 64 ≤ b) → written a ip s b ≡ s b
written_else a ip s b out =
    let s1 = store16 a ip.type s in
    let s2 = store16 (a + 2) ip.major s1 in
    let s3 = store16 (a + 4) ip.minor s2 in
    let s4 = store16 (a + 6) ip.nlink s3 in
    store_addrs_else (ndirect + 1) 0 a ip.addrs (header a ip s) b (omega arith)
    ∙ store32_else (a + 8) ip.size s4 b (omega arith)
    ∙ store16_else (a + 6) ip.nlink s3 b (omega arith)
    ∙ store16_else (a + 4) ip.minor s2 b (omega arith)
    ∙ store16_else (a + 2) ip.major s1 b (omega arith)
    ∙ store16_else a ip.type s b (omega arith)

-- The half words of the header, which the addresses leave.
written16 :
    (a b : ℕ) (ip : Inode) (s : Bytes)
    → b + 2 ≤ a + 8
    → load16 (written a ip s) b
      ≡ load16
          (store16
            (a + 6)
            ip.nlink
            (store16 (a + 4) ip.minor (store16 (a + 2) ip.major (store16 a ip.type s))))
          b
written16 a b ip s h =
    load16_same b (written a ip s) (header a ip s)
      (store_addrs_else (ndirect + 1) 0 a ip.addrs (header a ip s) b (omega arith))
      (store_addrs_else (ndirect + 1) 0 a ip.addrs (header a ip s) (b + 1) (omega arith))
    ∙ load16_else32 (a + 8) b ip.size
        (store16 (a + 6) ip.nlink
          (store16 (a + 4) ip.minor (store16 (a + 2) ip.major (store16 a ip.type s))))
        (omega arith)

-- What is read from the block that was written.
read_back :
    (sb : Superblock) (d : Disk) (ip jp : Inode) (a : ℕ) (s : Bytes)
    → Fits ip
    → dinode_at jp.inum ≡ a
    → d.block (iblock jp.inum sb) ≡ written a ip s
    → Agree ip (read_dinode sb d jp)
unfolding read_dinode
read_back sb d ip jp a s fits at e =
    let s1 = store16 a ip.type s in
    let s2 = store16 (a + 2) ip.major s1 in
    let s3 = store16 (a + 4) ip.minor s2 in
    let s4 = store16 (a + 6) ip.nlink s3 in
    let on16 : (n : ℕ)
        → load16 (d.block (iblock jp.inum sb)) (dinode_at jp.inum + n)
          ≡ load16 (written a ip s) (a + n) =
      λ n.
        ap (λ t. load16 t (dinode_at jp.inum + n)) e
        ∙ ap (λ x. load16 (written a ip s) (x + n)) at in
    record {
      type =
          ap (λ t. load16 t (dinode_at jp.inum)) e
          ∙ ap (λ x. load16 (written a ip s) x) at
          ∙ written16 a a ip s (omega arith)
          ∙ omega (
            arith,
            fits.type16,
            load16_else16 (a + 6) a ip.nlink s3 (omega arith),
            load16_else16 (a + 4) a ip.minor s2 (omega arith),
            load16_else16 (a + 2) a ip.major s1 (omega arith),
            load16-store16 a ip.type s,
          );
      major =
          on16 2
          ∙ written16 a (a + 2) ip s (omega arith)
          ∙ omega (
            arith,
            fits.major16,
            load16_else16 (a + 6) (a + 2) ip.nlink s3 (omega arith),
            load16_else16 (a + 4) (a + 2) ip.minor s2 (omega arith),
            load16-store16 (a + 2) ip.major s1,
          );
      minor =
          on16 4
          ∙ written16 a (a + 4) ip s (omega arith)
          ∙ omega (
            arith,
            fits.minor16,
            load16_else16 (a + 6) (a + 4) ip.nlink s3 (omega arith),
            load16-store16 (a + 4) ip.minor s2,
          );
      nlink =
          on16 6
          ∙ written16 a (a + 6) ip s (omega arith)
          ∙ omega (arith, fits.nlink16, load16-store16 (a + 6) ip.nlink s3);
      size =
          ap (λ t. load32 t (dinode_at jp.inum + 8)) e
          ∙ ap (λ x. load32 (written a ip s) (x + 8)) at
          ∙ load32_same (a + 8) (written a ip s) (header a ip s)
              (λ b l h. store_addrs_else (ndirect + 1) 0 a ip.addrs (header a ip s) b (omega arith))
          ∙ load32-store32 (a + 8) ip.size s4 fits.size32;
      addrs = λ i le. ground (
        arith,
        ap (λ t. load32 t (dinode_at jp.inum + 12 + i * 4)) e
            ∙ ap (λ x. load32 (written a ip s) (x + 12 + i * 4)) at
            ∙ load32-store_addrs (ndirect + 1) 0 a ip.addrs (header a ip s) i (omega arith)
                (omega arith) (fits.addrs32 i le),
      );
    }

-- What `iupdate` writes, `ilock` reads back: after the update of an inode whose fields fit the disk's
-- words, the disk's copy gives any entry for that inode the same type, device numbers, link count,
-- size and addresses; and every other byte of the disk is as it was, those of the other inodes of
-- the block among them.
pub read_dinode-iupdate :
    (sb : Superblock) (ip jp : Inode) (d : Disk)
    → Fits ip
    → jp.inum ≡ ip.inum
    → Agree ip (read_dinode sb (iupdate sb ip d) jp)
      × ((b i : ℕ)
          → (b ≢ iblock ip.inum sb) ⊎ ((i < dinode_at ip.inum) ⊎ (dinode_at ip.inum + 64 ≤ i))
          → (iupdate sb ip d).block b i ≡ d.block b i)
unfolding iupdate log_block
read_dinode-iupdate sb ip jp d fits same = (
  read_back sb (iupdate sb ip d) ip jp (dinode_at ip.inum) (d.block (iblock ip.inum sb)) fits
      (ap dinode_at same) (ap (λ n. (iupdate sb ip d).block (iblock n sb)) same ∙ there),
  kept,
)
  where
    there :
        (iupdate sb ip d).block (iblock ip.inum sb)
        ≡ written (dinode_at ip.inum) ip (d.block (iblock ip.inum sb))
    there = ground arith

    kept :
        (b i : ℕ)
        → (b ≢ iblock ip.inum sb) ⊎ ((i < dinode_at ip.inum) ⊎ (dinode_at ip.inum + 64 ≤ i))
        → (iupdate sb ip d).block b i ≡ d.block b i
    kept b i (inl other) = ground (arith, other)
    kept b i (inr out) = elim (Bool-cases (b == iblock ip.inum sb)) [
      | inl here ↦
          let at : b ≡ iblock ip.inum sb = ground (arith, here) in
          subst (λ x. (iupdate sb ip d).block x i ≡ d.block x i) (sym at)
            (ap (λ u. u i) there
              ∙ written_else (dinode_at ip.inum) ip (d.block (iblock ip.inum sb)) i out)
      | inr other ↦ ground (arith, other)
    ]
