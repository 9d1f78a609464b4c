-- ===== src/File.antt =====
-- file.c and the descriptor functions of sysfile.c: the table of open files, with its reference
-- counts, and reads and writes through a file.
--
-- A `struct file *` is an index of the table. What `fileclose` asks of pipe.c and fs.c comes back as
-- a `Drop`; `readi` and `writei` are parameters, functions of the offset and the length.
pub mod Refs
pub mod Chunks
mod Tests
use cs461_final_project_grub.Base.{
  ℕ, zero, suc, ◌+◌, ◌-◌, ◌*◌, ◌/◌, ◌%◌, ◌^◌, Bool, true, false, not, ◌&&◌, ◌||◌, ltb, leb, ◌==◌,
  if◌then◌else◌, Option, none, some, List, [], ◌∷◌, ◌++◌, get_elem?, set, Result, ok, panic, ◌>>=◌,
  ℤ, pos, negsuc,
}

pub data FileType : Type 0 where
  fd_none fd_pipe fd_inode : FileType

-- `struct file`
pub record File : Type 0 where
  pub type : FileType
  pub ref : ℕ
  pub readable : Bool
  pub writable : Bool
  pub pipe : ℕ
  pub ip : ℕ
  pub off : ℕ

abbrev pub Ftable : Type 0
Ftable = List File

-- The search of `filealloc`, from index `i` on.
unfoldable pub filealloc_from : ℕ → Ftable → Option (ℕ × Ftable)
filealloc_from i [] = none
filealloc_from i (f ∷ fs) =
    if f.ref == 0
    then some (i, record f { ref = 1 } ∷ fs)
    else elim (filealloc_from (i + 1) fs) [ none ↦ none | some (j, fs') ↦ some (j, f ∷ fs') ]

unfoldable pub filealloc : Ftable → Option (ℕ × Ftable)
filealloc t = filealloc_from 0 t

-- The file that a pointer leads to; a pointer outside the table is no C value.
unfoldable pub file_at : Ftable → ℕ → Result File
file_at t f = elim (get_elem? t f) [ none ↦ panic | some x ↦ ok x ]

unfoldable pub filedup : Ftable → ℕ → Result Ftable
filedup t f = do
  x ← file_at t f
  if x.ref == 0 then panic else ok (set t f (record x { ref = x.ref + 1 }))

-- What the last close of a file leaves to be done.
pub data Drop : Type 0 where
  nothing : Drop
  close_pipe : (pipe : ℕ) (writable : Bool) → Drop
  put_inode : (ip : ℕ) → Drop

unfoldable pub drop_of : File → Drop
drop_of x = elim x.type [
  | fd_none ↦ nothing
  | fd_pipe ↦ close_pipe x.pipe x.writable
  | fd_inode ↦ put_inode x.ip
]

unfoldable pub fileclose : Ftable → ℕ → Result (Ftable × Drop)
fileclose t f = do
  x ← file_at t f
  if x.ref == 0
      then panic
      else if ltb 0 (x.ref - 1)
      then ok (set t f (record x { ref = x.ref - 1 }), nothing)
      else ok (set t f (record x { ref = 0; type = fd_none }), drop_of x)

-- `fileread` of a file on an inode: `readi off n` is the count that `readi` returns, or -1.
unfoldable pub fileread_inode : (ℕ → ℕ → ℤ) → File → ℕ → ℤ × File
fileread_inode readi f n = elim (readi f.off n) [
  | pos r ↦ (pos r, record f { off = (f.off + r) % 2 ^ 32 })
  | negsuc r ↦ (negsuc r, f)
]

-- `fileread`: the result, or `none` where the pipe is read instead, by `piperead`.
unfoldable pub fileread : (ℕ → ℕ → ℤ) → File → ℕ → Result (Option ℤ × File)
fileread readi f n = if not f.readable then ok (some (negsuc 0), f) else elim f.type [
  | fd_none ↦ panic
  | fd_pipe ↦ ok (none, f)
  | fd_inode ↦ (let (r, f') = fileread_inode readi f n in ok (some r, f'))
]

-- `((LOGSIZE-1-1-2) / 2) * 512`
abbrev pub max_chunk : ℕ
max_chunk = (30 - 1 - 1 - 2) / 2 * 512

-- One `writei` call of the loop, between `begin_op` and `end_op`.
pub record Chunk : Type 0 where
  pub at : ℕ
  pub size : ℕ

pub record Written : Type 0 where
  pub chunks : List Chunk
  pub result : ℤ
  pub file : File

-- The loop of `filewrite` with `i` bytes written, on fuel; `writei off n` is what `writei` returns.
-- The chunks are those of the calls made, in order.
unfoldable pub write_loop : ℕ → (ℕ → ℕ → ℤ) → File → (n i : ℕ) → Result Written
write_loop zero writei f n i = panic
write_loop (suc fuel) writei f n i =
    let n1 = if ltb max_chunk (n - i) then max_chunk else n - i in
    if ltb i n
    then elim (writei f.off n1) [
      | negsuc r ↦
          ok
            (record { chunks = record { at = f.off; size = n1 } ∷ []; result = negsuc 0; file = f })
      | pos r ↦ elim (r == n1) [
        | false ↦ panic
        | true ↦ (do
          w ← write_loop fuel writei (record f { off = (f.off + r) % 2 ^ 32 }) n (i + r)
          ok (record w { chunks = record { at = f.off; size = n1 } ∷ w.chunks }))
      ]
    ]
    else ok (record { chunks = []; result = (if i == n then pos n else negsuc 0); file = f })

-- `filewrite`: `none` where the pipe is written instead, by `pipewrite`. A round of the loop writes
-- a byte at least, so a round for each byte and one for the last test are enough.
unfoldable pub filewrite : (ℕ → ℕ → ℤ) → File → ℕ → Result (Option Written)
filewrite writei f n =
    if not f.writable
    then ok (some (record { chunks = []; result = negsuc 0; file = f }))
    else elim f.type [
      | fd_none ↦ panic
      | fd_pipe ↦ ok none
      | fd_inode ↦ (do w ← write_loop (n + 1) writei f n 0; ok (some w))
    ]

-- The open files of a process, by descriptor; `none` is a null pointer. `NOFILE` is its length.
abbrev pub nofile : ℕ
nofile = 16

-- The search of `fdalloc`, from descriptor `fd` on.
unfoldable pub fdalloc_from : ℕ → ℕ → List (Option ℕ) → Option (ℕ × List (Option ℕ))
fdalloc_from fd f [] = none
fdalloc_from fd f (none ∷ fs) = some (fd, some f ∷ fs)
fdalloc_from fd f (some g ∷ fs) = elim (fdalloc_from (fd + 1) f fs) [
  | none ↦ none
  | some (j, fs') ↦ some (j, some g ∷ fs')
]

unfoldable pub fdalloc : ℕ → List (Option ℕ) → Option (ℕ × List (Option ℕ))
fdalloc f ofile = fdalloc_from 0 f ofile

-- `argfd` of an argument `fd`, an `int`.
unfoldable pub argfd : ℤ → List (Option ℕ) → Option (ℕ × ℕ)
argfd (negsuc n) ofile = none
argfd (pos fd) ofile =
    if leb nofile fd
    then none
    else elim (get_elem? ofile fd) [ none ↦ none | some none ↦ none | some (some f) ↦ some (fd, f) ]

-- `sys_dup`: the new descriptor, or -1.
unfoldable pub sys_dup : ℤ → Ftable → List (Option ℕ) → Result (ℤ × Ftable × List (Option ℕ))
sys_dup fd t ofile = elim (argfd fd ofile) [
  | none ↦ ok (negsuc 0, t, ofile)
  | some (_, f) ↦ elim (fdalloc f ofile) [
    | none ↦ ok (negsuc 0, t, ofile)
    | some (new, ofile') ↦ (do t' ← filedup t f; ok (pos new, t', ofile'))
  ]
]

-- `sys_close`
unfoldable pub sys_close :
    ℤ → Ftable → List (Option ℕ) → Result (ℤ × Ftable × List (Option ℕ) × Drop)
sys_close fd t ofile = elim (argfd fd ofile) [
  | none ↦ ok (negsuc 0, t, ofile, nothing)
  | some (n, f) ↦ (do (t', drop) ← fileclose t f; ok (pos 0, t', set ofile n none, drop))
]
