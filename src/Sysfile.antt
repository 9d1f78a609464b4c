-- ===== src/Sysfile.antt =====
-- sysfile.c: the system calls on path names, over the file system of `Fs`.
--
-- A string argument that cannot be fetched is `none`. A call that would sleep in `ilock` ends in `asleep`: what
-- is described is a run in which the inodes' locks are free. `ops` counts the `begin_op` calls without
-- their `end_op`.
pub mod Moves
pub mod Balance
mod Tests
use cs461_final_project_grub.Base.{
  ℕ, zero, suc, ◌+◌, ◌-◌, ◌*◌, ◌/◌, ◌%◌, ◌^◌, Bool, true, false, not, ◌&&◌, ◌||◌, ltb, leb, ◌==◌,
  if◌then◌else◌, Option, none, some, List, [], ◌∷◌, get_elem?, set, Result, ok, panic, ℤ, pos,
  negsuc,
}
use cs461_final_project_grub.Base
use cs461_final_project_grub.Fs.Disk.{Disk, Superblock}
use cs461_final_project_grub.Fs.Inodes.{Inode, Icache}
use cs461_final_project_grub.Fs.Inodes
use cs461_final_project_grub.Fs.Files.{Devsw, t_dir, t_dev}
use cs461_final_project_grub.Fs.Files
use cs461_final_project_grub.Fs.Dirs.{Devwrite, Walk, reached, absent, read_dirent}
use cs461_final_project_grub.Fs.Dirs

-- What the calls work on: the inode cache, the disk, the count of operations, and the directory of the process.
pub record Fsys : Type 0 where
  pub cache : Icache
  pub disk : Disk
  pub ops : ℕ
  pub cwd : ℕ

pub data Run {ℓ} (A : Type ℓ) : Type ℓ where
  done : A → Fsys → Run A
  stops asleep : Run A

abbrev pub Op : Type 0 → Type 0
Op A = Fsys → Run A

infixl 5 ◌>>=◌ ◌>>◌
abbrev pub ◌>>=◌ : {A B : Type 0} → Op A → (A → Op B) → Op B
(m >>= f) s = elim (m s) [ done a s' ↦ f a s' | stops ↦ stops | asleep ↦ asleep ]

abbrev pub ◌>>◌ : {A B : Type 0} → Op A → Op B → Op B
m >> k = m >>= λ _. k

abbrev pub return : {A : Type 0} → A → Op A
return a s = done a s

abbrev pub fail : {A : Type 0} → Op A
fail s = stops

-- Of `begin_op` and `end_op`, what they do to the number of operations under way.
unfoldable pub run_begin_op : Op Unit
run_begin_op s = done tt (record s { ops = s.ops + 1 })

unfoldable pub run_end_op : Op Unit
run_end_op s = done tt (record s { ops = s.ops - 1 })

-- A function of `Fs`, on the cache and the disk.
abbrev pub on_disk : {A : Type 0} → (Icache → Disk → Result (A × Icache × Disk)) → Op A
on_disk f s = elim (f s.cache s.disk) [
  | ok (a, c, d) ↦ done a (record s { cache = c; disk = d })
  | panic ↦ stops
]

abbrev pub inode : ℕ → Op Inode
inode i s = elim (get_elem? s.cache i) [ some ip ↦ done ip s | none ↦ stops ]

abbrev pub set_inode : ℕ → Inode → Op Unit
set_inode i ip s = done tt (record s { cache = set s.cache i ip })

-- `T_FILE`, and the changes to `nlink`, a `short`.
abbrev pub t_file : ℕ
t_file = 2

abbrev pub nlink_more : ℕ → ℕ
nlink_more n = (n + 1) % 2 ^ 16

abbrev pub nlink_less : ℕ → ℕ
nlink_less n = (n + 2 ^ 16 - 1) % 2 ^ 16

-- `.` and `..`
abbrev pub dot : List ℕ
dot = b'.' ∷ []

abbrev pub dot_dot : List ℕ
dot_dot = b'.' ∷ b'.' ∷ []

-- What a walk comes to, for a caller that wants an inode.
abbrev pub arrive : Walk → Op (Option (ℕ × List ℕ))
arrive Walk.asleep s = asleep
arrive absent s = done none s
arrive (reached i name) s = done (some (i, name)) s

module _ (sb : Superblock) (devsw : Devsw) (devwrite : Devwrite) where
  unfoldable pub run_namei : List ℕ → Op (Option ℕ)
  run_namei path s =
      (do
        w ← on_disk (Dirs.namei sb devsw s.cwd path)
        r ← arrive w
        return (elim r [ none ↦ none | some (i, _) ↦ some i ]))
        s

  unfoldable pub run_nameiparent : List ℕ → Op (Option (ℕ × List ℕ))
  run_nameiparent path s = (do w ← on_disk (Dirs.nameiparent sb devsw s.cwd path); arrive w) s

  unfoldable pub run_ilock : ℕ → Op Unit
  run_ilock i s =
      (do
        ip ← inode i
        elim (Inodes.ilock sb s.disk ip) [
          | panic ↦ fail
          | ok none ↦ λ s'. asleep
          | ok (some ip') ↦ set_inode i ip'
        ])
        s

  unfoldable pub run_iunlock : ℕ → Op Unit
  run_iunlock i = do
    ip ← inode i
    elim (Inodes.iunlock ip) [ panic ↦ fail | ok ip' ↦ set_inode i ip' ]

  unfoldable pub run_iput : ℕ → Op Unit
  run_iput i = on_disk (λ c d. Base.◌>>=◌ (Files.iput sb i c d) (λ r. ok (tt, r.0, r.1)))

  unfoldable pub run_iunlockput : ℕ → Op Unit
  run_iunlockput i = on_disk (λ c d. Base.◌>>=◌ (Dirs.iunlockput sb i c d) (λ r. ok (tt, r.0, r.1)))

  unfoldable pub run_iupdate : ℕ → Op Unit
  run_iupdate i s =
      (do ip ← inode i; λ s'. done tt (record s' { disk = Inodes.iupdate sb ip s'.disk })) s

  unfoldable pub run_dirlookup : ℕ → List ℕ → Op (Option (ℕ × ℕ))
  run_dirlookup dp name = on_disk (Dirs.dirlookup sb devsw dp name)

  unfoldable pub run_dirlink : ℕ → List ℕ → ℕ → Op ℤ
  run_dirlink dp name inum = on_disk (Dirs.dirlink sb devsw devwrite dp name inum)

  unfoldable pub run_ialloc : (dev type : ℕ) → Op ℕ
  run_ialloc dev type =
      on_disk (λ c d. Base.◌>>=◌ (Inodes.ialloc sb dev type d c) (λ r. ok (r.0, r.2, r.1)))

  -- The loop of `isdirempty`, with `k` rounds left.
  unfoldable pub entries_empty : ℕ → ℕ → Inode → Disk → Result (Bool × Inode × Disk)
  entries_empty zero off dp d = ok (true, dp, d)
  entries_empty (suc k) off dp d =
      if ltb off dp.size
      then elim (read_dirent sb devsw off dp d) [
        | panic ↦ panic
        | ok (de, dp', d') ↦
            if not (de.inum == 0) then ok (false, dp', d') else entries_empty k (off + 16) dp' d'
      ]
      else ok (true, dp, d)

  -- A round for each entry that the directory has room for.
  unfoldable pub isdirempty : ℕ → Op Bool
  isdirempty i s =
      (do
        dp ← inode i
        on_disk (λ c d.
            Base.◌>>=◌ (entries_empty (dp.size / 16 + 1) 32 dp d)
              (λ r. ok (r.0, set c i r.1, r.2))))
        s

  -- `ip->nlink++; iupdate(ip)` and `ip->nlink--; iupdate(ip)`
  unfoldable pub link_more : ℕ → Op Unit
  link_more i = do
    ip ← inode i
    set_inode i (record ip { nlink = nlink_more ip.nlink }) >> run_iupdate i

  unfoldable pub link_less : ℕ → Op Unit
  link_less i = do
    ip ← inode i
    set_inode i (record ip { nlink = nlink_less ip.nlink }) >> run_iupdate i

  -- `-1` with nothing more to do but to end the operation.
  abbrev pub give_up : Op ℤ
  give_up = run_end_op >> return (negsuc 0)

  -- `bad:` of `sys_link`
  unfoldable pub unlink_again : ℕ → Op ℤ
  unlink_again i = run_ilock i >> link_less i >> run_iunlockput i >> give_up

  -- `sys_link` where the new name's directory is found.
  unfoldable pub link_in : (dp i : ℕ) → List ℕ → Op ℤ
  link_in dp i name = do
    _ ← run_ilock dp
    dir ← inode dp
    ip ← inode i
    r ← (if not (dir.dev == ip.dev) then return (negsuc 0) else run_dirlink dp name ip.inum)
    elim r [
      | negsuc _ ↦ run_iunlockput dp >> unlink_again i
      | pos _ ↦ run_iunlockput dp >> run_iput i >> run_end_op >> return (pos 0)
    ]

  -- `sys_link` behind `ilock(ip)`.
  unfoldable pub link_inode : ℕ → List ℕ → Op ℤ
  link_inode i new = do
    ip ← inode i
    (if ip.type == t_dir then run_iunlockput i >> give_up else (do
      _ ← link_more i
      _ ← run_iunlock i
      dp ← run_nameiparent new
      elim dp [ none ↦ unlink_again i | some (dp, name) ↦ link_in dp i name ]))

  unfoldable pub sys_link : Option (List ℕ) → Option (List ℕ) → Op ℤ
  sys_link none new = return (negsuc 0)
  sys_link (some old) none = return (negsuc 0)
  sys_link (some old) (some new) = do
    _ ← run_begin_op
    i ← run_namei old
    elim i [ none ↦ give_up | some i ↦ run_ilock i >> link_inode i new ]

  -- `memset(&de, 0, sizeof(de))` and the `writei`.
  unfoldable pub clear_entry : (dp off : ℕ) → Op Unit
  clear_entry dp off s =
      (do
        dir ← inode dp
        on_disk (λ c d.
            elim (Files.writei sb devwrite off
              (0 ∷ 0 ∷ 0 ∷ 0 ∷ 0 ∷ 0 ∷ 0 ∷ 0 ∷ 0 ∷ 0 ∷ 0 ∷ 0 ∷ 0 ∷ 0 ∷ 0 ∷ 0 ∷ []) 16 dir d) [
                | panic ↦ panic
                | ok w ↦ elim w.value [
                  | negsuc _ ↦ panic
                  | pos n ↦ if n == 16 then ok (tt, set c dp w.inode, w.disk) else panic
                ]
              ]))
        s

  -- `bad:` of `sys_unlink`
  unfoldable pub leave_dir : ℕ → Op ℤ
  leave_dir dp = run_iunlockput dp >> give_up

  -- `sys_unlink` from the entry at `off` on.
  unfoldable pub unlink_entry : (dp i off : ℕ) → (is_dir : Bool) → Op ℤ
  unlink_entry dp i off is_dir = do
    _ ← clear_entry dp off
    _ ← (if is_dir then link_less dp else return tt)
    _ ← run_iunlockput dp
    _ ← link_less i
    _ ← run_iunlockput i
    run_end_op >> return (pos 0)

  -- `sys_unlink` behind `ilock(ip)`.
  unfoldable pub unlink_inode : (dp i off : ℕ) → Op ℤ
  unlink_inode dp i off = do
    ip ← inode i
    empty ←
        (if ip.nlink == 0 || leb 0x8000 ip.nlink
          then fail
          else if ip.type == t_dir
          then isdirempty i
          else return true)
    (if ip.type == t_dir && not empty
        then run_iunlockput i >> leave_dir dp
        else unlink_entry dp i off (ip.type == t_dir))

  unfoldable pub sys_unlink : Option (List ℕ) → Op ℤ
  sys_unlink none = return (negsuc 0)
  sys_unlink (some path) = do
    _ ← run_begin_op
    r ← run_nameiparent path
    elim r [
      | none ↦ give_up
      | some (dp, name) ↦ (do
        _ ← run_ilock dp
        found ←
            (if Dirs.namecmp name dot || Dirs.namecmp name dot_dot
              then return none
              else run_dirlookup dp name)
        elim found [ none ↦ leave_dir dp | some (i, off) ↦ run_ilock i >> unlink_inode dp i off ])
    ]

  -- `create` where the name is there already.
  unfoldable pub existing : (dp i type : ℕ) → Op (Option ℕ)
  existing dp i type = do
    _ ← run_iunlockput dp
    _ ← run_ilock i
    ip ← inode i
    (if type == t_file && ip.type == t_file
        then return (some i)
        else run_iunlockput i >> return none)

  -- The `.` and `..` of a new directory.
  unfoldable pub add_dots : (dp i : ℕ) → Op Unit
  add_dots dp i = do
    _ ← link_more dp
    ip ← inode i
    dir ← inode dp
    r ← run_dirlink i dot ip.inum
    r' ← (elim r [ negsuc _ ↦ fail | pos _ ↦ run_dirlink i dot_dot dir.inum ])
    elim r' [ negsuc _ ↦ fail | pos _ ↦ return tt ]

  -- `create` where the name is not there.
  unfoldable pub create_inode : (dp : ℕ) → List ℕ → (type major minor : ℕ) → Op (Option ℕ)
  create_inode dp name type major minor = do
    dir ← inode dp
    i ← run_ialloc dir.dev type
    _ ← run_ilock i
    ip ← inode i
    _ ← set_inode i (record ip { major = major; minor = minor; nlink = 1 })
    _ ← run_iupdate i
    _ ← (if type == t_dir then add_dots dp i else return tt)
    r ← run_dirlink dp name ip.inum
    elim r [ negsuc _ ↦ fail | pos _ ↦ run_iunlockput dp >> return (some i) ]

  unfoldable pub create : List ℕ → (type major minor : ℕ) → Op (Option ℕ)
  create path type major minor = do
    r ← run_nameiparent path
    elim r [
      | none ↦ return none
      | some (dp, name) ↦ (do
        _ ← run_ilock dp
        found ← run_dirlookup dp name
        elim found [
          | some (i, _) ↦ existing dp i type
          | none ↦ create_inode dp name type major minor
        ])
    ]

  -- What `sys_mkdir` and `sys_mknod` do behind `create`.
  unfoldable pub made : Option ℕ → Op ℤ
  made none = give_up
  made (some i) = run_iunlockput i >> run_end_op >> return (pos 0)

  unfoldable pub sys_mkdir : Option (List ℕ) → Op ℤ
  sys_mkdir path = do
    _ ← run_begin_op
    r ← (elim path [ none ↦ return none | some path ↦ create path t_dir 0 0 ])
    made r

  -- The two numbers are `short`s of `create`, by their 16 bits.
  unfoldable pub sys_mknod : Option (List ℕ) → Option ℕ → Option ℕ → Op ℤ
  sys_mknod path major minor = do
    _ ← run_begin_op
    r ← (elim path [
      | none ↦ return none
      | some path ↦ elim major [
        | none ↦ return none
        | some major ↦ elim minor [
          | none ↦ return none
          | some minor ↦ create path t_dev (major % 2 ^ 16) (minor % 2 ^ 16)
        ]
      ]
    ])
    made r

  unfoldable pub chdir_to : ℕ → Op ℤ
  chdir_to i s =
      (do
        _ ← run_ilock i
        ip ← inode i
        (if not (ip.type == t_dir) then run_iunlockput i >> give_up else (do
          _ ← run_iunlock i
          _ ← run_iput s.cwd
          _ ← run_end_op
          λ s'. done (pos 0) (record s' { cwd = i }))))
        s

  unfoldable pub sys_chdir : Option (List ℕ) → Op ℤ
  sys_chdir path = do
    _ ← run_begin_op
    r ← (elim path [ none ↦ return none | some path ↦ run_namei path ])
    elim r [ none ↦ give_up | some i ↦ chdir_to i ]
