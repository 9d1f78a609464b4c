-- ===== src/Sysfile/Balance.antt =====
-- sysfile.c: every operation that a call begins on the file system is ended.
use mathlib.Core.Path.{subst}
use cs461_final_project_grub.Base.{
  ℕ, ◌+◌, ◌%◌, ◌^◌, ◌≡◌, Bool, true, ◌&&◌, ◌||◌, not, leb, ◌==◌, if◌then◌else◌, Option, none, some,
  List, Result, ok, panic, ℤ, pos, negsuc, arith,
}
use cs461_final_project_grub.Fs.Disk.{Superblock}
use cs461_final_project_grub.Fs.Inodes.{Inode, Icache}
use cs461_final_project_grub.Fs.Inodes
use cs461_final_project_grub.Fs.Files.{Devsw, t_dir, t_dev}
use cs461_final_project_grub.Fs.Dirs
use cs461_final_project_grub.Fs.Dirs.{Devwrite, Walk, reached, absent}
use cs461_final_project_grub.Sysfile.{
  Fsys, done, asleep, Op, ◌>>◌, return, fail, run_begin_op, run_end_op, on_disk, inode, set_inode,
  t_file, nlink_more, nlink_less, dot, dot_dot, arrive, run_namei, run_nameiparent, run_ilock,
  run_iunlock, run_iput, run_iunlockput, run_iupdate, run_dirlookup, run_dirlink, run_ialloc,
  isdirempty, link_more, link_less, give_up, unlink_again, link_in, link_inode, sys_link,
  clear_entry, leave_dir, unlink_entry, unlink_inode, sys_unlink, existing, add_dots, create_inode,
  create, made, sys_mkdir, sys_mknod, chdir_to, sys_chdir,
}
use cs461_final_project_grub.Sysfile.Moves.{
  Ends, Moves, Moves-bind, Moves-return, Moves-disk, Moves-inode, Moves-if, Keeps, Keeps-bind,
  Keeps-then, Keeps-if, Keeps-fail, Keeps-set, Keeps-return, Keeps-arrive, keep_bind, keep_then,
  Moves-option, Moves-int, begin-Moves, end-Moves,
}

module _ (sb : Superblock) (devsw : Devsw) (devwrite : Devwrite) where
  namei-Keeps : (path : List ℕ) → Keeps (run_namei sb devsw devwrite path)
  unfolding run_namei
  namei-Keeps path a s =
      Keeps-bind (on_disk (Dirs.namei sb devsw s.cwd path)) _ (λ b. Moves-disk b _)
        (λ w.
          Keeps-bind (arrive w) _ (Keeps-arrive w)
            (λ r. Keeps-return (elim r [ none ↦ none | some (i, _) ↦ some i ])))
        a s

  nameiparent-Keeps : (path : List ℕ) → Keeps (run_nameiparent sb devsw devwrite path)
  unfolding run_nameiparent
  nameiparent-Keeps path a s =
      Keeps-bind (on_disk (Dirs.nameiparent sb devsw s.cwd path)) _ (λ b. Moves-disk b _)
        (λ w. Keeps-arrive w) a s

  ilock-Keeps : (i : ℕ) → Keeps (run_ilock sb devsw devwrite i)
  unfolding run_ilock
  ilock-Keeps i a s =
      Keeps-bind (inode i) _ (λ b. Moves-inode b i) (λ ip. locked (Inodes.ilock sb s.disk ip)) a s
    where
      locked :
          (r : Result (Option Inode))
          → Keeps
              (elim r [ panic ↦ fail | ok none ↦ λ s'. asleep | ok (some ip') ↦ set_inode i ip' ])
      locked panic = Keeps-fail Unit
      locked (ok none) = λ a s k e. tt
      locked (ok (some ip')) = Keeps-set i ip'

  iunlock-Keeps : (i : ℕ) → Keeps (run_iunlock sb devsw devwrite i)
  unfolding run_iunlock
  iunlock-Keeps i =
      Keeps-bind (inode i) _ (λ b. Moves-inode b i) (λ ip. unlocked (Inodes.iunlock ip))
    where
      unlocked : (r : Result Inode) → Keeps (elim r [ panic ↦ fail | ok ip' ↦ set_inode i ip' ])
      unlocked panic = Keeps-fail Unit
      unlocked (ok ip') = Keeps-set i ip'

  iput-Keeps : (i : ℕ) → Keeps (run_iput sb devsw devwrite i)
  unfolding run_iput
  iput-Keeps i a = Moves-disk a _

  iunlockput-Keeps : (i : ℕ) → Keeps (run_iunlockput sb devsw devwrite i)
  unfolding run_iunlockput
  iunlockput-Keeps i a = Moves-disk a _

  iupdate-Keeps : (i : ℕ) → Keeps (run_iupdate sb devsw devwrite i)
  unfolding run_iupdate
  iupdate-Keeps i a s = Keeps-bind (inode i) _ (λ b. Moves-inode b i) (λ ip b s' k e. e) a s

  dirlookup-Keeps : (dp : ℕ) (name : List ℕ) → Keeps (run_dirlookup sb devsw devwrite dp name)
  unfolding run_dirlookup
  dirlookup-Keeps dp name a = Moves-disk a _

  dirlink-Keeps :
      (dp : ℕ) (name : List ℕ) (inum : ℕ) → Keeps (run_dirlink sb devsw devwrite dp name inum)
  unfolding run_dirlink
  dirlink-Keeps dp name inum a = Moves-disk a _

  ialloc-Keeps : (dev type : ℕ) → Keeps (run_ialloc sb devsw devwrite dev type)
  unfolding run_ialloc
  ialloc-Keeps dev type a = Moves-disk a _

  isdirempty-Keeps : (i : ℕ) → Keeps (isdirempty sb devsw devwrite i)
  unfolding isdirempty
  isdirempty-Keeps i a s =
      Keeps-bind (inode i) _ (λ b. Moves-inode b i) (λ dp b. Moves-disk b _) a s

  clear_entry-Keeps : (dp off : ℕ) → Keeps (clear_entry sb devsw devwrite dp off)
  unfolding clear_entry
  clear_entry-Keeps dp off a s =
      Keeps-bind (inode dp) _ (λ b. Moves-inode b dp) (λ dir b. Moves-disk b _) a s

  link_more-Keeps : (i : ℕ) → Keeps (link_more sb devsw devwrite i)
  unfolding link_more
  link_more-Keeps i =
      Keeps-bind (inode i) _ (λ b. Moves-inode b i)
        (λ ip.
          Keeps-then (set_inode i (record ip { nlink = nlink_more ip.nlink }))
            (run_iupdate sb devsw devwrite i)
            (Keeps-set i (record ip { nlink = nlink_more ip.nlink })) (iupdate-Keeps i))

  link_less-Keeps : (i : ℕ) → Keeps (link_less sb devsw devwrite i)
  unfolding link_less
  link_less-Keeps i =
      Keeps-bind (inode i) _ (λ b. Moves-inode b i)
        (λ ip.
          Keeps-then (set_inode i (record ip { nlink = nlink_less ip.nlink }))
            (run_iupdate sb devsw devwrite i)
            (Keeps-set i (record ip { nlink = nlink_less ip.nlink })) (iupdate-Keeps i))

  existing-Keeps : (dp i type : ℕ) → Keeps (existing sb devsw devwrite dp i type)
  unfolding existing
  existing-Keeps dp i type =
      Keeps-bind (run_iunlockput sb devsw devwrite dp) _ (iunlockput-Keeps dp) (λ u.
        Keeps-bind (run_ilock sb devsw devwrite i) _ (ilock-Keeps i) (λ u.
          Keeps-bind (inode i) _ (λ b. Moves-inode b i)
            (λ ip.
              Keeps-if (type == t_file && ip.type == t_file) (return (some i))
                (run_iunlockput sb devsw devwrite i >> return {A = Option ℕ} none)
                (Keeps-return (some i))
                (Keeps-then (run_iunlockput sb devsw devwrite i) (return {A = Option ℕ} none)
                  (iunlockput-Keeps i) (Keeps-return {A = Option ℕ} none)))))

  linked-Keeps :
      {A : Type 0} (m : Op A) → Keeps m → (r : ℤ) → Keeps (elim r [ negsuc _ ↦ fail | pos _ ↦ m ])
  linked-Keeps {A = A} m h (negsuc n) = Keeps-fail A
  linked-Keeps {A = A} m h (pos n) = h

  add_dots-Keeps : (dp i : ℕ) → Keeps (add_dots sb devsw devwrite dp i)
  unfolding add_dots
  add_dots-Keeps dp i = Keeps-bind (link_more sb devsw devwrite dp) _ (link_more-Keeps dp) (λ u.
      Keeps-bind (inode i) _ (λ b. Moves-inode b i)
        (λ ip.
          Keeps-bind (inode dp) _ (λ b. Moves-inode b dp)
            (λ dir.
              Keeps-bind (run_dirlink sb devsw devwrite i dot ip.inum) _
                (dirlink-Keeps i dot ip.inum)
                (λ r.
                  Keeps-bind
                    (elim r [
                      | negsuc _ ↦ fail
                      | pos _ ↦ run_dirlink sb devsw devwrite i dot_dot dir.inum
                    ])
                    _
                    (linked-Keeps (run_dirlink sb devsw devwrite i dot_dot dir.inum)
                      (dirlink-Keeps i dot_dot dir.inum) r)
                    (linked-Keeps (return tt) (Keeps-return tt))))))

  create_inode-Keeps :
      (dp : ℕ) (name : List ℕ) (type major minor : ℕ)
      → Keeps (create_inode sb devsw devwrite dp name type major minor)
  unfolding create_inode
  create_inode-Keeps dp name type major minor =
      Keeps-bind (inode dp) _ (λ b. Moves-inode b dp)
        (λ dir.
          Keeps-bind (run_ialloc sb devsw devwrite dir.dev type) _ (ialloc-Keeps dir.dev type) (λ i.
            Keeps-bind (run_ilock sb devsw devwrite i) _ (ilock-Keeps i) (λ u.
              Keeps-bind (inode i) _ (λ b. Moves-inode b i)
                (λ ip.
                  Keeps-bind (set_inode i (record ip { major = major; minor = minor; nlink = 1 })) _
                    (Keeps-set i (record ip { major = major; minor = minor; nlink = 1 }))
                    (λ u. Keeps-bind (run_iupdate sb devsw devwrite i) _ (iupdate-Keeps i) (λ u.
                      Keeps-bind
                        (if type == t_dir then add_dots sb devsw devwrite dp i else return tt) _
                        (Keeps-if (type == t_dir) (add_dots sb devsw devwrite dp i) (return tt)
                          (add_dots-Keeps dp i) (Keeps-return tt))
                        (λ u.
                          Keeps-bind (run_dirlink sb devsw devwrite dp name ip.inum) _
                            (dirlink-Keeps dp name ip.inum)
                            (linked-Keeps (run_iunlockput sb devsw devwrite dp >> return (some i)) (
                              Keeps-then (run_iunlockput sb devsw devwrite dp) (return (some i))
                                (iunlockput-Keeps dp) (Keeps-return (some i)))))))))))

  create-Keeps :
      (path : List ℕ) (type major minor : ℕ)
      → Keeps (create sb devsw devwrite path type major minor)
  unfolding create
  create-Keeps path type major minor =
      Keeps-bind (run_nameiparent sb devsw devwrite path) _ (nameiparent-Keeps path) (λ r a.
        Moves-option a a r _ _ (Moves-return {A = Option ℕ} a none) (λ at.
          Keeps-bind (run_ilock sb devsw devwrite at.0) _ (ilock-Keeps at.0)
            (λ u.
              Keeps-bind (run_dirlookup sb devsw devwrite at.0 at.1) _ (dirlookup-Keeps at.0 at.1)
                (λ found b.
                  Moves-option b b found _ _ (create_inode-Keeps at.0 at.1 type major minor b)
                    (λ hit. existing-Keeps at.0 hit.0 type b)))
            a))

  give_up-Moves : Moves 1 0 (give_up sb devsw devwrite)
  give_up-Moves = Moves-bind 1 0 0 run_end_op _ (end-Moves 0) (λ u. Moves-return 0 (negsuc 0))

  -- The end of a call, behind `m`.
  close-Moves : (m : Op Unit) (x : ℤ) → Keeps m → Moves 1 0 (m >> run_end_op >> return x)
  close-Moves m x h =
      Moves-bind 1 0 0 (m >> run_end_op) _ (keep_then 1 0 m run_end_op h (end-Moves 0))
        (λ u. Moves-return 0 x)

  put-Moves : (i : ℕ) → Moves 1 0 (run_iunlockput sb devsw devwrite i >> give_up sb devsw devwrite)
  put-Moves i =
      keep_then 1 0 (run_iunlockput sb devsw devwrite i) (give_up sb devsw devwrite)
        (iunlockput-Keeps i) give_up-Moves

  made-Moves : (r : Option ℕ) → Moves 1 0 (made sb devsw devwrite r)
  unfolding made
  made-Moves none = give_up-Moves
  made-Moves (some i) =
      close-Moves (run_iunlockput sb devsw devwrite i) (pos 0) (iunlockput-Keeps i)

  mkdir-Moves : (path : Option (List ℕ)) → Moves 0 0 (sys_mkdir sb devsw devwrite path)
  unfolding sys_mkdir
  mkdir-Moves path = Moves-bind 0 1 0 run_begin_op _ (begin-Moves 0) (λ u.
      Moves-bind 1 1 0 _ _
        (Moves-option 1 1 path _ _ (Moves-return {A = Option ℕ} 1 none)
          (λ path. create-Keeps path t_dir 0 0 1))
        made-Moves)

  mknod-Moves :
      (path : Option (List ℕ)) (major minor : Option ℕ)
      → Moves 0 0 (sys_mknod sb devsw devwrite path major minor)
  unfolding sys_mknod
  mknod-Moves path major minor = Moves-bind 0 1 0 run_begin_op _ (begin-Moves 0) (λ u.
      Moves-bind 1 1 0 _ _
        (Moves-option 1 1 path _ _ (Moves-return {A = Option ℕ} 1 none) (λ path.
          Moves-option 1 1 major _ _ (Moves-return {A = Option ℕ} 1 none) (λ major.
            Moves-option 1 1 minor _ _ (Moves-return {A = Option ℕ} 1 none)
              (λ minor. create-Keeps path t_dev (major % 2 ^ 16) (minor % 2 ^ 16) 1))))
        made-Moves)

  chdir_to-Moves : (i : ℕ) → Moves 1 0 (chdir_to sb devsw devwrite i)
  unfolding chdir_to
  chdir_to-Moves i s =
      keep_bind 1 0 (run_ilock sb devsw devwrite i) _ (ilock-Keeps i)
        (λ u.
          keep_bind 1 0 (inode i) _ (λ b. Moves-inode b i)
            (λ ip. Moves-if 1 0 (not (ip.type == t_dir)) _ _ (put-Moves i) (
              keep_bind 1 0 (run_iunlock sb devsw devwrite i) _ (iunlock-Keeps i) (λ u.
                keep_bind 1 0 (run_iput sb devsw devwrite s.cwd) _ (iput-Keeps s.cwd)
                  (λ u. Moves-bind 1 0 0 run_end_op _ (end-Moves 0) (λ u s' k e. e))))))
        s

  chdir-Moves : (path : Option (List ℕ)) → Moves 0 0 (sys_chdir sb devsw devwrite path)
  unfolding sys_chdir
  chdir-Moves path = Moves-bind 0 1 0 run_begin_op _ (begin-Moves 0) (λ u.
      Moves-bind 1 1 0 _ _
        (Moves-option 1 1 path _ _ (Moves-return {A = Option ℕ} 1 none)
          (λ path. namei-Keeps path 1))
        (λ r. Moves-option 1 0 r _ _ give_up-Moves chdir_to-Moves))

  unlink_again-Moves : (i : ℕ) → Moves 1 0 (unlink_again sb devsw devwrite i)
  unfolding unlink_again
  unlink_again-Moves i =
      keep_then 1 0 _ (give_up sb devsw devwrite)
        (Keeps-then (run_ilock sb devsw devwrite i >> link_less sb devsw devwrite i)
          (run_iunlockput sb devsw devwrite i)
          (Keeps-then (run_ilock sb devsw devwrite i) (link_less sb devsw devwrite i)
            (ilock-Keeps i) (link_less-Keeps i))
          (iunlockput-Keeps i))
        give_up-Moves

  link_in-Moves : (dp i : ℕ) (name : List ℕ) → Moves 1 0 (link_in sb devsw devwrite dp i name)
  unfolding link_in
  link_in-Moves dp i name = keep_bind 1 0 (run_ilock sb devsw devwrite dp) _ (ilock-Keeps dp) (λ u.
      keep_bind 1 0 (inode dp) _ (λ b. Moves-inode b dp)
        (λ dir.
          keep_bind 1 0 (inode i) _ (λ b. Moves-inode b i)
            (λ ip.
              keep_bind 1 0
                (if not (dir.dev == ip.dev)
                  then return (negsuc 0)
                  else run_dirlink sb devsw devwrite dp name ip.inum)
                _
                (Keeps-if (not (dir.dev == ip.dev)) (return (negsuc 0))
                  (run_dirlink sb devsw devwrite dp name ip.inum) (Keeps-return (negsuc 0))
                  (dirlink-Keeps dp name ip.inum))
                (λ r.
                  Moves-int 1 0 r _ _
                    (keep_then 1 0 (run_iunlockput sb devsw devwrite dp)
                      (unlink_again sb devsw devwrite i) (iunlockput-Keeps dp)
                      (unlink_again-Moves i))
                    (close-Moves
                      (run_iunlockput sb devsw devwrite dp >> run_iput sb devsw devwrite i) (pos 0)
                      (Keeps-then (run_iunlockput sb devsw devwrite dp)
                        (run_iput sb devsw devwrite i) (iunlockput-Keeps dp) (iput-Keeps i)))))))

  link_inode-Moves : (i : ℕ) (new : List ℕ) → Moves 1 0 (link_inode sb devsw devwrite i new)
  unfolding link_inode
  link_inode-Moves i new =
      keep_bind 1 0 (inode i) _ (λ b. Moves-inode b i)
        (λ ip. Moves-if 1 0 (ip.type == t_dir) _ _ (put-Moves i) (
          keep_bind 1 0 (link_more sb devsw devwrite i) _ (link_more-Keeps i) (λ u.
            keep_bind 1 0 (run_iunlock sb devsw devwrite i) _ (iunlock-Keeps i) (λ u.
              keep_bind 1 0 (run_nameiparent sb devsw devwrite new) _ (nameiparent-Keeps new) (λ dp.
                Moves-option 1 0 dp _ _ (unlink_again-Moves i)
                  (λ at. link_in-Moves at.0 i at.1))))))

  link-Moves : (old new : Option (List ℕ)) → Moves 0 0 (sys_link sb devsw devwrite old new)
  unfolding sys_link
  link-Moves none new = Moves-return 0 (negsuc 0)
  link-Moves (some old) none = Moves-return 0 (negsuc 0)
  link-Moves (some old) (some new) = Moves-bind 0 1 0 run_begin_op _ (begin-Moves 0) (λ u.
      keep_bind 1 0 (run_namei sb devsw devwrite old) _ (namei-Keeps old) (λ r.
        Moves-option 1 0 r _ _ give_up-Moves (λ i.
          keep_then 1 0 (run_ilock sb devsw devwrite i) (link_inode sb devsw devwrite i new)
            (ilock-Keeps i) (link_inode-Moves i new))))

  unlink_entry-Moves :
      (dp i off : ℕ) (is_dir : Bool) → Moves 1 0 (unlink_entry sb devsw devwrite dp i off is_dir)
  unfolding unlink_entry
  unlink_entry-Moves dp i off is_dir =
      keep_bind 1 0 (clear_entry sb devsw devwrite dp off) _ (clear_entry-Keeps dp off) (λ u.
        keep_bind 1 0 (if is_dir then link_less sb devsw devwrite dp else return tt) _
          (Keeps-if is_dir (link_less sb devsw devwrite dp) (return tt) (link_less-Keeps dp)
            (Keeps-return tt))
          (λ u. keep_bind 1 0 (run_iunlockput sb devsw devwrite dp) _ (iunlockput-Keeps dp) (λ u.
            keep_bind 1 0 (link_less sb devsw devwrite i) _ (link_less-Keeps i) (λ u.
              keep_bind 1 0 (run_iunlockput sb devsw devwrite i) _ (iunlockput-Keeps i)
                (λ u. Moves-bind 1 0 0 run_end_op _ (end-Moves 0) (λ u. Moves-return 0 (pos 0)))))))

  leave_dir-Moves : (dp : ℕ) → Moves 1 0 (leave_dir sb devsw devwrite dp)
  unfolding leave_dir
  leave_dir-Moves dp = put-Moves dp

  unlink_inode-Moves : (dp i off : ℕ) → Moves 1 0 (unlink_inode sb devsw devwrite dp i off)
  unfolding unlink_inode
  unlink_inode-Moves dp i off =
      keep_bind 1 0 (inode i) _ (λ b. Moves-inode b i)
        (λ ip.
          let rest : Op Bool =
            if ip.type == t_dir then isdirempty sb devsw devwrite i else return true in
          keep_bind 1 0 (if ip.nlink == 0 || leb 0x8000 ip.nlink then fail else rest) _
            (Keeps-if (ip.nlink == 0 || leb 0x8000 ip.nlink) fail rest (Keeps-fail Bool) (
              Keeps-if (ip.type == t_dir) (isdirempty sb devsw devwrite i) (return true)
                (isdirempty-Keeps i) (Keeps-return true)))
            (λ empty.
              Moves-if 1 0 (ip.type == t_dir && not empty) _ _
                (keep_then 1 0 (run_iunlockput sb devsw devwrite i) (leave_dir sb devsw devwrite dp)
                  (iunlockput-Keeps i) (leave_dir-Moves dp))
                (unlink_entry-Moves dp i off (ip.type == t_dir))))

  unlink-Moves : (path : Option (List ℕ)) → Moves 0 0 (sys_unlink sb devsw devwrite path)
  unfolding sys_unlink
  unlink-Moves none = Moves-return 0 (negsuc 0)
  unlink-Moves (some path) = Moves-bind 0 1 0 run_begin_op _ (begin-Moves 0) (λ u.
      keep_bind 1 0 (run_nameiparent sb devsw devwrite path) _ (nameiparent-Keeps path) (λ r.
        Moves-option 1 0 r _ _ give_up-Moves (λ at.
          let dots : Bool = Dirs.namecmp at.1 dot || Dirs.namecmp at.1 dot_dot in
          keep_bind 1 0 (run_ilock sb devsw devwrite at.0) _ (ilock-Keeps at.0) (λ u.
            keep_bind 1 0 (if dots then return none else run_dirlookup sb devsw devwrite at.0 at.1)
              _
              (Keeps-if dots (return none) (run_dirlookup sb devsw devwrite at.0 at.1)
                (Keeps-return {A = Option (ℕ × ℕ)} none) (dirlookup-Keeps at.0 at.1))
              (λ found. Moves-option 1 0 found _ _ (leave_dir-Moves at.0) (λ hit.
                keep_then 1 0 (run_ilock sb devsw devwrite hit.0)
                  (unlink_inode sb devsw devwrite at.0 hit.0 hit.1) (ilock-Keeps hit.0)
                  (unlink_inode-Moves at.0 hit.0 hit.1)))))))

  -- The calls on path names.
  pub data Call : Type 0 where
    mkdir unlink chdir : (path : Option (List ℕ)) → Call
    mknod : (path : Option (List ℕ)) (major minor : Option ℕ) → Call
    link : (old new : Option (List ℕ)) → Call

  abbrev pub call : Call → Op ℤ
  call (mkdir path) = sys_mkdir sb devsw devwrite path
  call (unlink path) = sys_unlink sb devsw devwrite path
  call (chdir path) = sys_chdir sb devsw devwrite path
  call (mknod path major minor) = sys_mknod sb devsw devwrite path major minor
  call (link old new) = sys_link sb devsw devwrite old new

  call-Moves : (c : Call) → Moves 0 0 (call c)
  call-Moves (mkdir path) = mkdir-Moves path
  call-Moves (unlink path) = unlink-Moves path
  call-Moves (chdir path) = chdir-Moves path
  call-Moves (mknod path major minor) = mknod-Moves path major minor
  call-Moves (link old new) = link-Moves old new

  -- Whenever `sys_mkdir`, `sys_mknod`, `sys_chdir`, `sys_link` or `sys_unlink` returns, with success or with -1
  -- by any of its error paths, as many operations are under way as before the call: each `begin_op` has
  -- had its `end_op`, and just one.
  pub call-ops : (c : Call) (s s' : Fsys) (x : ℤ) → call c s ≡ done x s' → s'.ops ≡ s.ops
  call-ops c s s' x e =
      let back = subst (Ends (s.ops + 0)) e (call-Moves c s s.ops (omega arith)) in
      omega (arith, back)
