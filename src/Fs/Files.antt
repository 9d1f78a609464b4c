-- ===== src/Fs/Files.antt =====
-- fs.c: the contents of a file, by the blocks that its inode has.
--
-- An unsigned int keeps its wrap-around. The device switch is a parameter of `readi` and `writei`:
-- what `devsw[major].read` and `write` return, `none` where there is no such function. A loop is on fuel: a round
-- copies at least one byte.
use cs461_final_project_grub.Base.{
  ℕ, zero, suc, ◌+◌, ◌-◌, ◌*◌, ◌/◌, ◌%◌, ◌^◌, false, ◌&&◌, ◌||◌, ltb, leb, ◌==◌, if◌then◌else◌,
  update, Option, none, some, List, [], ◌∷◌, set, Result, ok, panic, ◌>>=◌, ◌++◌, ℤ, pos, negsuc,
}
use cs461_final_project_grub.Fs.Disk.{
  Bytes, Disk, Superblock, log_block, load32, store32, balloc, bfree, bsize,
}
use cs461_final_project_grub.Fs.Inodes.{
  Inode, Icache, ndirect, nindirect, max_bytes, iupdate, inode_at,
}

-- The first part of `bmap`'s two halves: an entry of `addrs`, allocated where it is 0.
unfoldable pub addr_of : Superblock → ℕ → Inode → Disk → Result (ℕ × Inode × Disk)
addr_of sb i ip d =
    if ip.addrs i == 0
    then (do (addr, d') ← balloc sb d; ok (addr, record ip { addrs = update ip.addrs i addr }, d'))
    else ok (ip.addrs i, ip, d)

-- The entry of the indirect block `at`, allocated where it is 0.
unfoldable pub indirect : Superblock → (at bn : ℕ) → Disk → Result (ℕ × Disk)
indirect sb at bn d =
    if load32 (d.block at) (bn * 4) == 0
    then (do
      (addr, d') ← balloc sb d
      ok (addr, log_block at (store32 (bn * 4) addr (d'.block at)) d'))
    else ok (load32 (d.block at) (bn * 4), d)

unfoldable pub bmap : Superblock → ℕ → Inode → Disk → Result (ℕ × Inode × Disk)
bmap sb bn ip d =
    if ltb bn ndirect
    then addr_of sb bn ip d
    else if ltb (bn - ndirect) nindirect
    then (do
      (at, ip', d') ← addr_of sb ndirect ip d
      (addr, d'') ← indirect sb at (bn - ndirect) d'
      ok (addr, ip', d''))
    else panic

-- The first loop of `itrunc`, with `k` rounds left.
unfoldable pub free_direct : ℕ → ℕ → (ℕ → ℕ) → Disk → Result ((ℕ → ℕ) × Disk)
free_direct zero i addrs d = ok (addrs, d)
free_direct (suc k) i addrs d =
    if addrs i == 0
    then free_direct k (i + 1) addrs d
    else (bfree (addrs i) d >>= free_direct k (i + 1) (update addrs i 0))

-- The second loop of `itrunc`, with `k` rounds left.
unfoldable pub free_indirect : ℕ → ℕ → Bytes → Disk → Result Disk
free_indirect zero j a d = ok d
free_indirect (suc k) j a d =
    if load32 a (j * 4) == 0
    then free_indirect k (j + 1) a d
    else (bfree (load32 a (j * 4)) d >>= free_indirect k (j + 1) a)

-- The rest of `itrunc`, once the direct blocks are free and `addrs` is what is left of the addresses.
unfoldable pub itrunc_rest : Superblock → Inode → (ℕ → ℕ) → Disk → Result (Inode × Disk)
itrunc_rest sb ip addrs d =
    if addrs ndirect == 0
    then ok (
      record ip { addrs = addrs; size = 0 },
      iupdate sb (record ip { addrs = addrs; size = 0 }) d,
    )
    else (do
      d2 ← free_indirect nindirect 0 (d.block (addrs ndirect)) d
      d3 ← bfree (addrs ndirect) d2
      let new = record ip { addrs = update addrs ndirect 0; size = 0 }
      ok (new, iupdate sb new d3))

unfoldable pub itrunc : Superblock → Inode → Disk → Result (Inode × Disk)
itrunc sb ip d = do (addrs, d1) ← free_direct ndirect 0 ip.addrs d; itrunc_rest sb ip addrs d1

-- `iput` of the inode of entry `i`.
unfoldable pub iput : Superblock → ℕ → Icache → Disk → Result (Icache × Disk)
iput sb i c d = do
  ip ← inode_at c i
  (if ip.ref == 1 && ip.valid && ip.nlink == 0
      then (do
        (ip', d') ← itrunc sb ip d
        let freed = record ip' { type = 0 }
        ok (set c i (record freed { valid = false; ref = freed.ref - 1 }), iupdate sb freed d'))
      else ok (set c i (record ip { ref = ip.ref - 1 }), d))

-- `T_DIR` and `T_DEV` of stat.h.
abbrev pub t_dir : ℕ
t_dir = 1

abbrev pub t_dev : ℕ
t_dev = 3

abbrev pub min : ℕ → ℕ → ℕ
min a b = if ltb a b then a else b

abbrev pub uint : ℕ → ℕ
uint n = n % 2 ^ 32

-- The bytes of a block from `at` on.
unfoldable pub slice : ℕ → ℕ → Bytes → List ℕ
slice at zero s = []
slice at (suc k) s = s at ∷ slice (at + 1) k s

-- The loop of `readi`, with the `n` bytes that are left.
unfoldable pub read_loop :
    ℕ → Superblock → (off n : ℕ) → Inode → Disk → Result (List ℕ × Inode × Disk)
read_loop zero sb off n ip d = ok ([], ip, d)
read_loop (suc k) sb off n ip d = if n == 0 then ok ([], ip, d) else (do
  (addr, ip', d') ← bmap sb (off / bsize) ip d
  let m = min n (bsize - off % bsize)
  (rest, ip'', d'') ← read_loop k sb (off + m) (n - m) ip' d'
  ok (slice (off % bsize) m (d'.block addr) ++ rest, ip'', d''))

-- What a read comes to: the return value and the bytes copied.
pub record Read : Type 0 where
  pub value : ℤ
  pub bytes : List ℕ
  pub inode : Inode
  pub disk : Disk

abbrev pub Devsw : Type 0
Devsw = ℕ → Option ((off n : ℕ) → ℤ × List ℕ)

abbrev pub ndev : ℕ
ndev = 10

-- A negative major number is one of 16 bits with the top one set.
unfoldable pub readi : Superblock → Devsw → (off n : ℕ) → Inode → Disk → Result Read
readi sb devsw off n ip d =
    if ip.type == t_dev
    then if leb ndev ip.major
      then ok (record { value = negsuc 0; bytes = []; inode = ip; disk = d })
      else elim (devsw ip.major) [
        | none ↦ ok (record { value = negsuc 0; bytes = []; inode = ip; disk = d })
        | some read ↦
            ok (record { value = (read off n).0; bytes = (read off n).1; inode = ip; disk = d })
      ]
    else if ltb ip.size off || ltb (uint (off + n)) off
    then ok (record { value = negsuc 0; bytes = []; inode = ip; disk = d })
    else (do
      let len = if ltb ip.size (uint (off + n)) then ip.size - off else n
      (bytes, ip', d') ← read_loop len sb off len ip d
      ok (record { value = pos len; bytes = bytes; inode = ip'; disk = d' }))

-- `memmove` of the first `k` of the source's bytes into a block.
unfoldable pub put_bytes : ℕ → ℕ → List ℕ → Bytes → Bytes
put_bytes at zero src s = s
put_bytes at (suc k) [] s = s
put_bytes at (suc k) (b ∷ src) s = put_bytes (at + 1) k src (update s at b)

abbrev pub skip : ℕ → List ℕ → List ℕ
skip zero xs = xs
skip (suc k) [] = []
skip (suc k) (x ∷ xs) = skip k xs

-- The loop of `writei`; the offset behind the last byte is in the result.
unfoldable pub write_rounds :
    ℕ → Superblock → (off n : ℕ) → List ℕ → Inode → Disk → Result (ℕ × Inode × Disk)
write_rounds zero sb off n src ip d = ok (off, ip, d)
write_rounds (suc k) sb off n src ip d = if n == 0 then ok (off, ip, d) else (do
  (addr, ip', d') ← bmap sb (off / bsize) ip d
  let m = min n (bsize - off % bsize)
  let buf = put_bytes (off % bsize) m src (d'.block addr)
  write_rounds k sb (off + m) (n - m) (skip m src) ip' (log_block addr buf d'))

pub record Write : Type 0 where
  pub value : ℤ
  pub inode : Inode
  pub disk : Disk

unfoldable pub writei :
    Superblock → (ℕ → Option (List ℕ → ℤ)) → ℕ → List ℕ → ℕ → Inode → Disk → Result Write
writei sb devsw off src n ip d =
    if ip.type == t_dev
    then if leb ndev ip.major
      then ok (record { value = negsuc 0; inode = ip; disk = d })
      else elim (devsw ip.major) [
        | none ↦ ok (record { value = negsuc 0; inode = ip; disk = d })
        | some write ↦ ok (record { value = write src; inode = ip; disk = d })
      ]
    else if ltb ip.size off || ltb (uint (off + n)) off || ltb max_bytes (uint (off + n))
    then ok (record { value = negsuc 0; inode = ip; disk = d })
    else (do
      (end, ip', d') ← write_rounds n sb off n src ip d
      (if ltb 0 n && ltb ip.size end
          then (let new = record ip' { size = end } in
              ok (record { value = pos n; inode = new; disk = iupdate sb new d' }))
          else ok (record { value = pos n; inode = ip'; disk = d' })))
