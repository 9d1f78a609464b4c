-- ===== src/Sysfile/Tests.antt =====
-- Runs of sysfile.c and the theorems at concrete inputs.
use cs461_final_project_grub.Base.{◌≡◌, refl, true, false, none, some, [], ◌∷◌, pos, negsuc}
use cs461_final_project_grub.Fs.Disk.{Superblock}
use cs461_final_project_grub.Fs.Inodes
use cs461_final_project_grub.Fs.Files
use cs461_final_project_grub.Fs.Dirs
use cs461_final_project_grub.Sysfile.{
  Fsys, done, run_begin_op, run_end_op, run_namei, run_ilock, run_iunlock, run_iput, sys_chdir,
  chdir_to,
}
use cs461_final_project_grub.Sysfile.Balance.{call, chdir, call-ops}

abbrev sb : Superblock
sb = record {
  size = 1000;
  nblocks = 900;
  ninodes = 200;
  nlog = 30;
  logstart = 2;
  inodestart = 32;
  bmapstart = 58;
}

-- The root directory is the process's, and the only inode in the cache.
abbrev start : Fsys
start = record {
  cache =
      record {
        dev = 1;
        inum = 1;
        ref = 1;
        locked = false;
        valid = true;
        type = 1;
        major = 0;
        minor = 0;
        nlink = 1;
        size = 512;
        addrs = λ i. 0;
      }
      ∷ [];
  disk = record { block = λ n i. 0; logged = [] };
  ops = 3;
  cwd = 0;
}

chdir_root : call sb (λ n. none) (λ n. none) (chdir (some (b'/' ∷ []))) start ≡ done (pos 0) start
unfolding sys_chdir chdir_to run_begin_op run_end_op run_namei run_ilock run_iunlock run_iput
    Dirs.namei Dirs.namex Dirs.namex_from Dirs.skipelem Dirs.skip_slashes Inodes.iget
    Inodes.find_from Inodes.ilock Inodes.iunlock Inodes.inode_at Files.iput
chdir_root = refl

call-ops_example : start.ops ≡ 3
call-ops_example =
    call-ops sb (λ n. none) (λ n. none) (chdir (some (b'/' ∷ []))) start start (pos 0) chdir_root

mkdir_bad : call sb (λ n. none) (λ n. none) (chdir none) start ≡ done (negsuc 0) start
unfolding sys_chdir run_begin_op run_end_op
mkdir_bad = refl
