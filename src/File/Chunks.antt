-- ===== src/File/Chunks.antt =====
-- `filewrite` cuts a write into chunks, each a transaction of its own.
use mathlib.Core.Path.{subst, subst₂}
use cs461_final_project_grub.Base.{
  ℕ, zero, suc, ◌+◌, ◌-◌, ◌%◌, ◌^◌, ◌≡◌, ◌≤◌, ◌<◌, ◌⊎◌, inl, inr, refl, true, ltb, ◌==◌,
  if◌then◌else◌, some, List, [], ◌∷◌, Result, ok, ◌>>=◌, ℤ, pos, negsuc, arith, Bool-cases,
}
use cs461_final_project_grub.File.{fd_inode, File, Chunk, Written, write_loop, filewrite, max_chunk}

-- `writei` took all of each chunk; they follow one another from `at` on, none empty or over the limit,
-- and are `total` bytes.
abbrev pub Tiles : (ℕ → ℕ → ℤ) → ℕ → ℕ → List Chunk → Type 0
Tiles writei at total [] = total ≡ 0
Tiles writei at total (c ∷ cs) =
    (c.at ≡ at)
    × (0 < c.size)
    × (c.size ≤ max_chunk)
    × (c.size ≤ total)
    × (writei c.at c.size ≡ pos c.size)
    × Tiles writei (at + c.size) (total - c.size) cs

-- The same for chunks inside the `total` bytes up to the last one, at `off`, which `writei` refused.
abbrev pub Stops : (ℕ → ℕ → ℤ) → (off at total : ℕ) → List Chunk → Type 0
Stops writei off at total [] = ⊥
Stops writei off at total (c ∷ cs) =
    (c.at ≡ at)
    × (0 < c.size)
    × (c.size ≤ max_chunk)
    × (c.size ≤ total)
    × (((cs ≡ []) × (off ≡ at) × (writei c.at c.size ≡ negsuc 0))
        ⊎ ((writei c.at c.size ≡ pos c.size) × Stops writei off (at + c.size) (total - c.size) cs))

-- A write of `n` bytes from `at` on, all done: the chunks tile it and the offset has moved past it.
pub record Complete (writei : ℕ → ℕ → ℤ) (at n total : ℕ) (w : Written) : Type 0 where
  pub result : w.result ≡ pos n
  pub tiles : Tiles writei at total w.chunks
  pub moved : w.file.off ≡ at + total

-- The last chunk was refused: the caller is told -1, and the offset stands at the start of that chunk.
pub record Broken (writei : ℕ → ℕ → ℤ) (at total : ℕ) (w : Written) : Type 0 where
  pub result : w.result ≡ negsuc 0
  pub stops : Stops writei w.file.off at total w.chunks
  pub before : at ≤ w.file.off
  pub short : w.file.off < at + total

pub data Ends (writei : ℕ → ℕ → ℤ) (at n total : ℕ) : Result Written → Type 0 where
  complete : {w : Written} → Complete writei at n total w → Ends writei at n total (ok w)
  broken : {w : Written} → Broken writei at total w → Ends writei at n total (ok w)

Ends-cons :
    (writei : ℕ → ℕ → ℤ) (at at' n total total' size : ℕ) (r : Result Written)
    → 0 < size
    → size ≤ max_chunk
    → size ≤ total
    → writei at size ≡ pos size
    → at' ≡ at + size
    → total' ≡ total - size
    → Ends writei at' n total' r
    → Ends writei at n total
        (r >>= λ w. ok (record w { chunks = record { at = at; size = size } ∷ w.chunks }))
Ends-cons writei at at' n total total' size r p q le took e e' (complete {w} c) = complete (record {
  result = c.result;
  tiles = (refl, p, q, le, took, subst₂ (λ a t. Tiles writei a t w.chunks) e e' c.tiles);
  moved = omega (arith, c.moved);
})
Ends-cons writei at at' n total total' size r p q le took e e' (broken {w} b) = broken (record {
  result = b.result;
  stops = (
    refl,
    p,
    q,
    le,
    inr (took, subst₂ (λ a t. Stops writei w.file.off a t w.chunks) e e' b.stops),
  );
  before = omega (arith, b.before);
  short = omega (arith, b.short);
})

-- What `filewrite` relies on of `writei`: all of the bytes or -1.
abbrev pub WritesAll : (ℕ → ℕ → ℤ) → Type 0
WritesAll writei = (off n : ℕ) → (writei off n ≡ pos n) ⊎ (writei off n ≡ negsuc 0)

write_loop-Ends :
    (fuel : ℕ) (writei : ℕ → ℕ → ℤ) (f : File) (n i : ℕ)
    → WritesAll writei
    → n - i < fuel
    → i ≤ n
    → f.off + (n - i) < 2 ^ 32
    → Ends writei f.off n (n - i) (write_loop fuel writei f n i)
unfolding write_loop
write_loop-Ends zero writei f n i law lt le fits = absurd (omega arith)
write_loop-Ends (suc fuel) writei f n i law lt le fits = elim (Bool-cases (ltb i n)) [
  | inl more ↦ elim (law f.off (if ltb max_chunk (n - i) then max_chunk else n - i)) [
    | inl all ↦
        let size = if ltb max_chunk (n - i) then max_chunk else n - i in
        let whole : (size == size) ≡ true = ground arith in
        let here : (0 < size) × (size ≤ max_chunk) × (size ≤ n - i) = ground arith in
        let wrap : (f.off + size) % 2 ^ 32 ≡ f.off + size = omega arith in
        let left : n - (i + size) ≡ n - i - size = omega arith in
        rw (more, all)
          (rw whole (
            Ends-cons writei f.off ((f.off + size) % 2 ^ 32) n (n - i) (n - (i + size)) size _
              here.0 here.1 here.2 all wrap left
              (write_loop-Ends fuel writei (record f { off = (f.off + size) % 2 ^ 32 }) n (i + size)
                law (omega arith) (omega arith) (rw wrap (omega arith)))))
    | inr fail ↦
        rw (more, fail)
          (broken (record {
            result = refl;
            stops = (refl, ground arith, ground arith, ground arith, inl (refl, refl, fail));
            before = omega arith;
            short = ground arith;
          }))
  ]
  | inr stop ↦
      let end : (i == n) ≡ true = ground arith in
      rw (stop, end)
        (complete (record { result = refl; tiles = ground arith; moved = ground arith }))
]

-- A `filewrite` on a writable inode ends, without a panic, where `writei` writes all that it is
-- given or fails and the last offset is below 2^32, in one of two ways: it returns `n`, with chunks
-- of at most the limit, each written by `writei`, that tile the `n` bytes from the old offset on, and
-- the offset behind them; or `writei` has written such chunks and refused the next one, the result is
-- -1, and the offset stands at the start of that chunk, inside the range.
pub filewrite-Ends :
    (writei : ℕ → ℕ → ℤ) (f : File) (n : ℕ)
    → WritesAll writei
    → f.writable ≡ true
    → f.type ≡ fd_inode
    → f.off + n < 2 ^ 32
    → (r : Result Written) × Ends writei f.off n n r
      × (filewrite writei f n ≡ (do w ← r; ok (some w)))
unfolding filewrite
filewrite-Ends writei f n law wr ty fits =
    let none_done : n - 0 ≡ n = omega arith in
    (
      write_loop (n + 1) writei f n 0,
      subst (λ t. Ends writei f.off n t (write_loop (n + 1) writei f n 0)) none_done
          (write_loop-Ends (n + 1) writei f n 0 law (omega arith) (omega arith) (omega arith)),
      simp (wr, ty),
    )
