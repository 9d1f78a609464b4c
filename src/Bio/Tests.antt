-- ===== src/Bio/Tests.antt =====
-- Runs of bio.c and the theorems at concrete inputs.
use cs461_final_project_grub.Base.{◌≡◌, refl, true, false, [], ◌∷◌, ◌++◌, ok, panic, arith, inl}
use cs461_final_project_grub.Bio.{
  Buf, Bcache, Disk, got, waits, nbuf, binit, link_all, link_front, set_buf, search, choose, bget,
  lock_buf, acquiresleep, initsleeplock, holdingsleep, iderw, transfer, fill, bread, bwrite, brelse,
}
use cs461_final_project_grub.Bio.Ring.{count_down, released, brelse-IsRing, binit-IsRing}
use cs461_final_project_grub.Bio.Links.{IsRing}
use cs461_final_project_grub.Bio.Init.{binit-IsCached, binit_unused}
use cs461_final_project_grub.Bio.Cache.{IsCached, set-IsCached}
use cs461_final_project_grub.Bio.Reads.{Served, bread-Served}
use cs461_final_project_grub.Bio.Writes.{Stored, bwrite-Stored}

abbrev empty_buf : Buf
empty_buf = record {
  valid = false;
  dirty = false;
  dev = 0;
  blockno = 0;
  lock = record { locked = false; pid = 0 };
  refcnt = 0;
  data_of = λ i. 0;
}

-- The memory that the kernel starts with.
abbrev zeroed : Bcache
zeroed = record { buf = λ i. empty_buf; next = λ i. 0; prev = λ i. 0 }

-- A disk of 100 blocks, each full of its number.
abbrev disk : Disk
disk = record { disksize = 100; block = λ n i. n }

bread-Served_example :
    Served disk (binit zeroed) (count_down nbuf) 1 7 (bread 3 1 7 disk (binit zeroed))
bread-Served_example =
    bread-Served 3 1 7 disk (binit zeroed) (count_down nbuf)
      (binit-IsCached disk zeroed (λ i. refl) (λ i. refl))

-- The buffer that the read takes is the first of the array, the last of the list.
bread_first :
    (elim (bread 3 1 7 disk (binit zeroed)) [
      | panic ↦ 100
      | ok (d, g) ↦ elim g [ waits b c ↦ 101 | got b c ↦ b ]
    ])
    ≡ 0
unfolding bread bget choose search binit link_all link_front lock_buf acquiresleep fill transfer
    iderw holdingsleep initsleeplock
bread_first = refl

-- A cache whose last buffer is locked and holds block 7.
abbrev busy_buf : Buf
busy_buf = record empty_buf {
  dev = 1;
  blockno = 7;
  valid = true;
  lock = record { locked = true; pid = 3 };
  refcnt = 1;
  data_of = λ i. 5;
}

abbrev busy : Bcache
busy = set_buf (binit zeroed) 29 busy_buf

busy-IsRing : IsRing busy ([] ++ (29 ∷ count_down 29))
busy-IsRing =
    let h = binit-IsRing zeroed in record { linked = h.linked; once = h.once; apart = h.apart }

busy_held : holdingsleep (busy.buf 29).lock ≡ true
unfolding holdingsleep
busy_held = refl

brelse-IsRing_example :
    (c' : Bcache) × (brelse 29 busy ≡ ok c')
    × IsRing c' (released 29 busy [] (count_down 29))
    × (holdingsleep (c'.buf 29).lock ≡ false)
brelse-IsRing_example = brelse-IsRing 29 busy [] (count_down 29) busy-IsRing busy_held

busy-IsCached : IsCached disk busy (count_down nbuf)
busy-IsCached =
    set-IsCached disk (binit zeroed) (count_down nbuf) 29 busy_buf
      (binit-IsCached disk zeroed (λ i. refl) (λ i. refl))
      (λ j hj ne e e'.
        let nought = binit_unused zeroed (λ i. refl) j in absurd (omega (arith, e, nought)))
      (record { device = λ val. refl; coherent = λ val clean free. absurd (ground (arith, free)) })

bwrite-Stored_example :
    (d' : Disk) × (c' : Bcache) × (bwrite disk 29 busy ≡ ok (d', c'))
    × Stored disk busy (count_down nbuf) 29 d' c'
bwrite-Stored_example =
    bwrite-Stored disk busy (count_down nbuf) 29 busy-IsCached (inl refl) refl refl (omega arith)
