-- ===== src/Fs/Tests.antt =====
-- Runs of fs.c and the theorems at concrete inputs.
use cs461_final_project_grub.Base.{
  ℕ, zero, suc, ◌≡◌, refl, true, false, ◌==◌, if◌then◌else◌, some, [], ◌∷◌, arith,
}
use cs461_final_project_grub.Fs.Disk.{Disk, Superblock, balloc, bit}
use cs461_final_project_grub.Fs.Inodes.{Inode, Icache, iget, iupdate, read_dinode}
use cs461_final_project_grub.Fs.Dinodes.{Fits, Agree, read_dinode-iupdate}
use cs461_final_project_grub.Fs.Dirs.{skipelem, skip_slashes, split_elem}
use cs461_final_project_grub.Fs.Alloc.{IsMarked, Allocated, balloc-Allocated}
use cs461_final_project_grub.Fs.Refs.{IsUnique, Got, iget-Got}

-- The examples of the comment: `a/bb/c` and `///a//bb`.
skipelem_first :
    skipelem (97 ∷ 47 ∷ 98 ∷ 98 ∷ 47 ∷ 99 ∷ []) ≡ some (97 ∷ [], 98 ∷ 98 ∷ 47 ∷ 99 ∷ [])
unfolding skipelem skip_slashes split_elem
skipelem_first = refl

skipelem_slashes :
    skipelem (47 ∷ 47 ∷ 47 ∷ 97 ∷ 47 ∷ 47 ∷ 98 ∷ 98 ∷ []) ≡ some (97 ∷ [], 98 ∷ 98 ∷ [])
unfolding skipelem skip_slashes split_elem
skipelem_slashes = refl

abbrev entry : ℕ → ℕ → Inode
entry n r = record {
  dev = 1;
  inum = n;
  ref = r;
  locked = false;
  valid = true;
  type = 1;
  major = 0;
  minor = 0;
  nlink = 1;
  size = 0;
  addrs = λ i. 0;
}

-- Inode 5 is in use, and the second entry is free.
abbrev cache : Icache
cache = entry 5 2 ∷ entry 6 0 ∷ []

cache-IsUnique : IsUnique cache
cache-IsUnique zero zero p q ha hb u for = refl
cache-IsUnique zero (suc zero) p q ha hb u for = absurd (ground (arith, hb, u))
cache-IsUnique zero (suc (suc j)) p q ha hb u for = absurd (ground (arith, hb))
cache-IsUnique (suc zero) zero p q ha hb u for = absurd (ground (arith, ha, for.used))
cache-IsUnique (suc zero) (suc zero) p q ha hb u for = refl
cache-IsUnique (suc zero) (suc (suc j)) p q ha hb u for = absurd (ground (arith, hb))
cache-IsUnique (suc (suc i)) j p q ha hb u for = absurd (ground (arith, ha))

iget-Got_example : Got 1 6 cache (iget 1 6 cache)
iget-Got_example = iget-Got 1 6 cache cache-IsUnique

-- Twenty blocks, the bitmap in block 2, and all blocks below 8 in use.
abbrev layout : Superblock
layout = record {
  size = 20;
  nblocks = 12;
  ninodes = 8;
  nlog = 2;
  logstart = 3;
  inodestart = 5;
  bmapstart = 2;
}

abbrev disk : Disk
disk = record { block = λ b i. if b == 2 then (if i == 0 then 255 else 0) else 7; logged = [] }

disk-IsMarked : IsMarked layout disk
unfolding bit
disk-IsMarked x h = (ground arith, ground arith)

balloc-Allocated_example : Allocated layout disk (balloc layout disk)
balloc-Allocated_example = balloc-Allocated layout disk disk-IsMarked

-- The inode's fields at their largest and others.
abbrev full : Inode
full = record {
  dev = 1;
  inum = 9;
  ref = 1;
  locked = true;
  valid = true;
  type = 1;
  major = 0;
  minor = 0xffff;
  nlink = 2;
  size = 0xffff_ffff;
  addrs = λ i. 300;
}

full-Fits : Fits full
full-Fits = record {
  type16 = omega arith;
  major16 = omega arith;
  minor16 = omega arith;
  nlink16 = omega arith;
  size32 = omega arith;
  addrs32 = λ i le. omega arith;
}

read_dinode-iupdate_example : Agree full (read_dinode layout (iupdate layout full disk) (entry 9 1))
read_dinode-iupdate_example = (read_dinode-iupdate layout full (entry 9 1) disk full-Fits refl).0
