-- ===== src/Fs/Dirs.antt =====
-- fs.c: directories and path names.
--
-- A name is its 14 bytes, as `strncpy` of string.c leaves them; a path is its bytes up to the
-- terminating 0. Each step works on the cache and the disk; the inode that it works on is locked by
-- the caller.
use cs461_final_project_grub.Base.{
  ℕ, zero, suc, ◌+◌, ◌*◌, ◌/◌, ◌%◌, ◌^◌, Bool, true, false, not, ◌&&◌, ltb, ◌==◌, if◌then◌else◌,
  Option, none, some, List, [], ◌∷◌, take, get_or, set, length, Result, ok, panic, ◌>>=◌, ℤ, pos,
  negsuc, ◌⊎◌, inl, inr,
}
use cs461_final_project_grub.Fs.Disk.{Disk, Superblock}
use cs461_final_project_grub.Fs.Inodes.{Inode, Icache, iget, idup, ilock, iunlock, inode_at}
use cs461_final_project_grub.Fs.Files.{readi, writei, iput, t_dir, Devsw}

abbrev pub dirsiz : ℕ
dirsiz = 14

abbrev pub is_slash : ℕ → Bool
is_slash c = c == 47

-- `while(*path == '/') path++`
unfoldable pub skip_slashes : List ℕ → List ℕ
skip_slashes [] = []
skip_slashes (c ∷ path) = if is_slash c then skip_slashes path else c ∷ path

-- The bytes up to the next slash, and the path from there on.
unfoldable pub split_elem : List ℕ → List ℕ × List ℕ
split_elem [] = ([], [])
split_elem (c ∷ path) =
    let (name, rest) = split_elem path in if is_slash c then ([], c ∷ path) else (c ∷ name, rest)

-- `none` for a path without an element; else the element, cut to `DIRSIZ` bytes, and the path
-- behind it. An element of fewer bytes is ended by a 0 in `name`, which `strncmp` stops at.
unfoldable pub skipelem : List ℕ → Option (List ℕ × List ℕ)
skipelem path = elim (skip_slashes path) [
  | [] ↦ none
  | c ∷ s ↦ some (take dirsiz (split_elem (c ∷ s)).0, skip_slashes (split_elem (c ∷ s)).1)
]

-- `namecmp`: `strncmp` over `DIRSIZ` bytes, each of which is 0 behind the end of the name.
unfoldable pub same_from : ℕ → ℕ → List ℕ → List ℕ → Bool
same_from zero i s t = true
same_from (suc k) i s t =
    let rest = same_from k (i + 1) s t in
    if get_or s i 0 == get_or t i 0 then (if get_or s i 0 == 0 then true else rest) else false

unfoldable pub namecmp : List ℕ → List ℕ → Bool
namecmp s t = same_from dirsiz 0 s t

-- `struct dirent` from its 16 bytes, and back.
pub record Dirent : Type 0 where
  pub inum : ℕ
  pub name : List ℕ

unfoldable pub dirent_of : List ℕ → Dirent
dirent_of [] = record { inum = 0; name = [] }
dirent_of (lo ∷ []) = record { inum = lo; name = [] }
dirent_of (lo ∷ hi ∷ name) = record { inum = lo + 256 * hi; name = name }

-- `strncpy` into the `k` bytes of the name.
unfoldable pub padded : ℕ → List ℕ → List ℕ
padded zero s = []
padded (suc k) [] = 0 ∷ padded k []
padded (suc k) (c ∷ s) = if c == 0 then 0 ∷ padded k [] else c ∷ padded k s

unfoldable pub bytes_of : Dirent → List ℕ
bytes_of de = de.inum % 256 ∷ de.inum / 256 % 256 ∷ padded dirsiz de.name

-- `readi` of one directory entry, which has to give all 16 bytes.
unfoldable pub read_dirent : Superblock → Devsw → ℕ → Inode → Disk → Result (Dirent × Inode × Disk)
read_dirent sb devsw off dp d = do
  r ← readi sb devsw off 16 dp d
  elim r.value [
    | negsuc n ↦ panic
    | pos n ↦ if n == 16 then ok (dirent_of r.bytes, r.inode, r.disk) else panic
  ]

abbrev pub Devwrite : Type 0
Devwrite = ℕ → Option (List ℕ → ℤ)

-- What a search comes to: an entry's offset and inode number, or the offset it ended at.
pub data Hit : Type 0 where
  at : (off inum : ℕ) → Hit
  nowhere : ℕ → Hit

-- The loop of `dirlookup`, with `k` rounds left.
unfoldable pub lookup_from :
    ℕ → Superblock → Devsw → ℕ → List ℕ → Inode → Disk → Result (Hit × Inode × Disk)
lookup_from zero sb devsw off name dp d = ok (nowhere off, dp, d)
lookup_from (suc k) sb devsw off name dp d =
    if ltb off dp.size
    then (do
      (de, dp', d') ← read_dirent sb devsw off dp d
      (if not (de.inum == 0) && namecmp name de.name
          then ok (at off de.inum, dp', d')
          else lookup_from k sb devsw (off + 16) name dp' d'))
    else ok (nowhere off, dp, d)

-- One round for each entry that the directory has room for, and one for the loop's end. The result
-- is the entry's inode, in the cache, and the offset. `dp` is an index into the cache.
unfoldable pub dirlookup :
    Superblock → Devsw → ℕ → List ℕ → Icache → Disk → Result (Option (ℕ × ℕ) × Icache × Disk)
dirlookup sb devsw dp name c d = do
  ip ← inode_at c dp
  (if ip.type == t_dir
      then (do
        (hit, ip', d') ← lookup_from (ip.size / 16 + 2) sb devsw 0 name ip d
        elim hit [
          | nowhere _ ↦ ok (none, set c dp ip', d')
          | at off inum ↦ (do (i, c') ← iget ip.dev inum (set c dp ip'); ok (some (i, off), c', d'))
        ])
      else panic)

-- The second loop of `dirlink`, with `k` rounds left: the first offset without an entry.
unfoldable pub empty_from : ℕ → Superblock → Devsw → ℕ → Inode → Disk → Result (ℕ × Inode × Disk)
empty_from zero sb devsw off dp d = ok (off, dp, d)
empty_from (suc k) sb devsw off dp d =
    if ltb off dp.size
    then (do
      (de, dp', d') ← read_dirent sb devsw off dp d
      (if de.inum == 0 then ok (off, dp', d') else empty_from k sb devsw (off + 16) dp' d'))
    else ok (off, dp, d)

-- The rest of `dirlink`, where the name is not there.
unfoldable pub add_entry :
    Superblock → Devsw → Devwrite → ℕ → List ℕ → ℕ → Icache → Disk → Result (ℤ × Icache × Disk)
add_entry sb devsw devwrite dp name inum c d = do
  ip ← inode_at c dp
  (off, ip', d') ← empty_from (ip.size / 16 + 2) sb devsw 0 ip d
  r ← writei sb devwrite off (bytes_of (record { inum = inum % 2 ^ 16; name = name })) 16 ip' d'
  elim r.value [
    | negsuc n ↦ panic
    | pos n ↦ if n == 16 then ok (pos 0, set c dp r.inode, r.disk) else panic
  ]

unfoldable pub dirlink :
    Superblock → Devsw → Devwrite → ℕ → List ℕ → ℕ → Icache → Disk → Result (ℤ × Icache × Disk)
dirlink sb devsw devwrite dp name inum c d = do
  (found, c1, d1) ← dirlookup sb devsw dp name c d
  elim found [
    | some (i, off) ↦ (do (c2, d2) ← iput sb i c1 d1; ok (negsuc 0, c2, d2))
    | none ↦ add_entry sb devsw devwrite dp name inum c1 d1
  ]

-- `iunlock` of an entry of the cache, and `iput`.
unfoldable pub iunlockput : Superblock → ℕ → Icache → Disk → Result (Icache × Disk)
iunlockput sb i c d = do ip ← inode_at c i; ip' ← iunlock ip; iput sb i (set c i ip') d

-- What a walk comes to: asleep in `ilock`, no inode, or an inode and the last element.
pub data Walk : Type 0 where
  asleep absent : Walk
  reached : ℕ → List ℕ → Walk

-- The body of `namex`'s loop behind `ilock`, for the element `name` with `path` behind it: the
-- walk's end, or the next inode.
unfoldable pub step_into :
    Superblock
    → Devsw
    → (parent : Bool) → ℕ
    → (name path : List ℕ) → Icache
    → Disk
    → Result ((Walk ⊎ ℕ) × Icache × Disk)
step_into sb devsw parent i name path c d = do
  ip ← inode_at c i
  (if not (ip.type == t_dir)
      then (do (c', d') ← iunlockput sb i c d; ok (inl absent, c', d'))
      else if parent && length path == 0
      then (do ip' ← iunlock ip; ok (inl (reached i name), set c i ip', d))
      else (do
        (found, c', d') ← dirlookup sb devsw i name c d
        (c'', d'') ← iunlockput sb i c' d'
        elim found [
          | none ↦ ok (inl absent, c'', d'')
          | some (next, off) ↦ ok (inr next, c'', d'')
        ]))

-- The loop of `namex`, with `k` rounds left; an element is shorter than the path it is taken from.
unfoldable pub namex_from :
    ℕ
    → Superblock
    → Devsw
    → (parent : Bool) → ℕ
    → (name path : List ℕ) → Icache
    → Disk
    → Result (Walk × Icache × Disk)
namex_from zero sb devsw parent i name path c d = panic
namex_from (suc k) sb devsw parent i name path c d = elim (skipelem path) [
  | none ↦
      if parent
      then (do (c', d') ← iput sb i c d; ok (absent, c', d'))
      else ok (reached i name, c, d)
  | some (elem, rest) ↦ (do
    ip ← inode_at c i
    lock ← ilock sb d ip
    elim lock [
      | none ↦ ok (asleep, c, d)
      | some ip' ↦ (do
        (to, c', d') ← step_into sb devsw parent i elem rest (set c i ip') d
        elim to [
          | inl end ↦ ok (end, c', d')
          | inr next ↦ namex_from k sb devsw parent next elem rest c' d'
        ])
    ])
]

-- `namex`, from the root inode or the inode `cwd` of the process.
unfoldable pub namex :
    Superblock
    → Devsw
    → (parent : Bool) → (cwd : ℕ) → List ℕ
    → Icache
    → Disk
    → Result (Walk × Icache × Disk)
namex sb devsw parent cwd path c d =
    if is_slash (get_or path 0 0)
    then (do (i, c') ← iget 1 1 c; namex_from (length path + 1) sb devsw parent i [] path c' d)
    else (do c' ← idup cwd c; namex_from (length path + 1) sb devsw parent cwd [] path c' d)

unfoldable pub namei :
    Superblock → Devsw → (cwd : ℕ) → List ℕ → Icache → Disk → Result (Walk × Icache × Disk)
namei sb devsw cwd path c d = namex sb devsw false cwd path c d

unfoldable pub nameiparent :
    Superblock → Devsw → (cwd : ℕ) → List ℕ → Icache → Disk → Result (Walk × Icache × Disk)
nameiparent sb devsw cwd path c d = namex sb devsw true cwd path c d
