-- ===== src/Fs/Inodes.antt =====
-- fs.c: inodes, their cache, and the blocks of a file.
--
-- The cache is the list of `icache.inode`; a `struct inode *` is an index into it. A spin lock is
-- held up to the end of each step, so it is not in the state; a sleep lock is the flag `locked`,
-- and a caller that would sleep on it has the result `none`.
use cs461_final_project_grub.Base.{
  ℕ, zero, suc, ◌+◌, ◌-◌, ◌*◌, ◌/◌, ◌%◌, Bool, true, false, not, ◌&&◌, ◌||◌, ltb, leb, ◌==◌,
  if◌then◌else◌, Option, none, some, List, [], ◌∷◌, get_elem?, set, Result, ok, panic, ◌>>=◌,
}
use cs461_final_project_grub.Fs.Disk.{
  Bytes, Disk, Superblock, log_block, load16, load32, store16, store32, bsize,
}

abbrev pub ndirect : ℕ
ndirect = 12

abbrev pub nindirect : ℕ
nindirect = 128

-- `MAXFILE * BSIZE`
abbrev pub max_bytes : ℕ
max_bytes = (ndirect + nindirect) * bsize

-- `struct inode`; `valid` is the bit `I_VALID` of `flags`. A short is its 16 bits.
pub record Inode : Type 0 where
  pub dev : ℕ
  pub inum : ℕ
  pub ref : ℕ
  pub locked : Bool
  pub valid : Bool
  pub type : ℕ
  pub major : ℕ
  pub minor : ℕ
  pub nlink : ℕ
  pub size : ℕ
  pub addrs : ℕ → ℕ

abbrev pub Icache : Type 0
Icache = List Inode

-- `IBLOCK`, and the byte of that block at which the inode starts.
abbrev pub iblock : ℕ → Superblock → ℕ
iblock inum sb = inum / 8 + sb.inodestart

abbrev pub dinode_at : ℕ → ℕ
dinode_at inum = inum % 8 * 64

-- The loop of `iget`, from entry `i` on: the entry of the inode, or else the first free one.
pub data Found : Type 0 where
  cached : ℕ → Inode → Found
  vacant : Option ℕ → Found

unfoldable pub find_from : ℕ → (dev inum : ℕ) → Option ℕ → Icache → Found
find_from i dev inum empty [] = vacant empty
find_from i dev inum empty (ip ∷ ips) =
    let known = find_from (i + 1) dev inum empty ips in
    let here = find_from (i + 1) dev inum (some i) ips in
    if ltb 0 ip.ref && ip.dev == dev && ip.inum == inum
    then cached i ip
    else elim empty [ some e ↦ known | none ↦ if ip.ref == 0 then here else known ]

unfoldable pub fresh : (dev inum : ℕ) → Inode → Inode
fresh dev inum ip = record ip { dev = dev; inum = inum; ref = 1; valid = false }

unfoldable pub iget : (dev inum : ℕ) → Icache → Result (ℕ × Icache)
iget dev inum c = elim (find_from 0 dev inum none c) [
  | cached i ip ↦ ok (i, set c i (record ip { ref = ip.ref + 1 }))
  | vacant none ↦ panic
  | vacant (some i) ↦ elim (get_elem? c i) [
    | none ↦ panic
    | some ip ↦ ok (i, set c i (fresh dev inum ip))
  ]
]

unfoldable pub inode_at : Icache → ℕ → Result Inode
inode_at c i = elim (get_elem? c i) [ none ↦ panic | some ip ↦ ok ip ]

unfoldable pub idup : ℕ → Icache → Result Icache
idup i c = do ip ← inode_at c i; ok (set c i (record ip { ref = ip.ref + 1 }))

-- `memset(dip, 0, sizeof(*dip))` and the new type, for the inode at byte `a`.
unfoldable pub claim_dinode : ℕ → ℕ → Bytes → Bytes
claim_dinode a type s = store16 a type (λ i. if leb a i && ltb i (a + 64) then 0 else s i)

-- The loop of `ialloc`, with `k` rounds left: the number of the first free inode.
unfoldable pub ialloc_from :
    ℕ → ℕ → Superblock → (dev type : ℕ) → Disk → Icache → Result (ℕ × Disk × Icache)
ialloc_from zero inum sb dev type d c = panic
ialloc_from (suc k) inum sb dev type d c =
    let rest = ialloc_from k (inum + 1) sb dev type d c in
    if load16 (d.block (iblock inum sb)) (dinode_at inum) == 0
    then (do
      (i, c') ← iget dev inum c
      ok (
        i,
        log_block (iblock inum sb) (claim_dinode (dinode_at inum) type (d.block (iblock inum sb)))
            d,
        c',
      ))
    else rest

unfoldable pub ialloc : Superblock → (dev type : ℕ) → Disk → Icache → Result (ℕ × Disk × Icache)
ialloc sb dev type d c = ialloc_from (sb.ninodes - 1) 1 sb dev type d c

-- `memmove` of `k` addresses from index `i` on, into the inode at byte `a`.
unfoldable pub store_addrs : ℕ → ℕ → ℕ → (ℕ → ℕ) → Bytes → Bytes
store_addrs zero i a addrs s = s
store_addrs (suc k) i a addrs s =
    store_addrs k (i + 1) a addrs (store32 (a + 12 + i * 4) (addrs i) s)

unfoldable pub iupdate : Superblock → Inode → Disk → Disk
iupdate sb ip d =
    let a = dinode_at ip.inum in
    let s1 = store16 a ip.type (d.block (iblock ip.inum sb)) in
    let s2 = store16 (a + 2) ip.major s1 in
    let s3 = store16 (a + 4) ip.minor s2 in
    let s4 = store16 (a + 6) ip.nlink s3 in
    let s5 = store32 (a + 8) ip.size s4 in
    log_block (iblock ip.inum sb) (store_addrs (ndirect + 1) 0 a ip.addrs s5) d

-- What `ilock` reads from the disk.
unfoldable pub read_dinode : Superblock → Disk → Inode → Inode
read_dinode sb d ip =
    let s = d.block (iblock ip.inum sb) in
    let a = dinode_at ip.inum in
    record ip {
      valid = true;
      type = load16 s a;
      major = load16 s (a + 2);
      minor = load16 s (a + 4);
      nlink = load16 s (a + 6);
      size = load32 s (a + 8);
      addrs = λ i. if leb i ndirect then load32 s (a + 12 + i * 4) else ip.addrs i;
    }

-- `none` where the lock is held, and the caller sleeps.
unfoldable pub ilock : Superblock → Disk → Inode → Result (Option Inode)
ilock sb d ip =
    if ip.ref == 0
    then panic
    else if ip.locked
    then ok none
    else if ip.valid
    then ok (some (record ip { locked = true }))
    else if (read_dinode sb d ip).type == 0
    then panic
    else ok (some (record (read_dinode sb d ip) { locked = true }))

unfoldable pub iunlock : Inode → Result Inode
iunlock ip = if not ip.locked || ip.ref == 0 then panic else ok (record ip { locked = false })
