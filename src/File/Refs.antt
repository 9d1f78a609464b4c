-- ===== src/File/Refs.antt =====
-- The reference counts of open files: each counts the pointers to its file.
use mathlib.Core.Path.{subst}
use cs461_final_project_grub.Base.{
  ℕ, zero, suc, ◌+◌, ◌-◌, ◌≡◌, ◌<◌, inl, inr, refl, ap, ltb, ◌==◌, if◌then◌else◌, Option, none,
  some, List, [], ◌∷◌, get_elem?, set, Result, ok, panic, ℤ, pos, negsuc, arith, Bool-cases,
  Option-cases,
}
use cs461_final_project_grub.File.{
  fd_none, File, Ftable, file_at, filedup, Drop, nothing, drop_of, fileclose, fdalloc_from, fdalloc,
  argfd, sys_dup, sys_close,
}

-- The reference count of file `f`; 0 outside the table.
abbrev pub ref_of : Ftable → ℕ → ℕ
ref_of [] f = 0
ref_of (x ∷ t) zero = x.ref
ref_of (x ∷ t) (suc f) = ref_of t f

-- 1 at `f`, and 0 elsewhere.
abbrev pub one_at : ℕ → ℕ → ℕ
one_at f g = if g == f then 1 else 0

-- How many descriptors hold `g`.
abbrev pub count : ℕ → List (Option ℕ) → ℕ
count g [] = 0
count g (none ∷ fs) = count g fs
count g (some f ∷ fs) = one_at f g + count g fs

ref_of-get : (t : Ftable) (f : ℕ) (x : File) → get_elem? t f ≡ some x → ref_of t f ≡ x.ref
ref_of-get [] f x h = cc
ref_of-get (y ∷ t) zero x h = ground (arith, h)
ref_of-get (y ∷ t) (suc f) x h = ref_of-get t f x h

ref_of-set :
    (t : Ftable) (f g : ℕ) (x y : File)
    → get_elem? t f ≡ some x
    → ref_of (set t f y) g ≡ (if g == f then y.ref else ref_of t g)
ref_of-set [] f g x y h = cc
ref_of-set (z ∷ t) zero zero x y h = refl
ref_of-set (z ∷ t) zero (suc g) x y h = ground arith
ref_of-set (z ∷ t) (suc f) zero x y h = ground arith
ref_of-set (z ∷ t) (suc f) (suc g) x y h = ground (arith, ref_of-set t f g x y h)

ref-get : (t : Ftable) (f : ℕ) → 0 < ref_of t f → (x : File) × (get_elem? t f ≡ some x)
ref-get [] f h = absurd (omega arith)
ref-get (x ∷ t) zero h = (x, refl)
ref-get (x ∷ t) (suc f) h = ref-get t f h

-- `filedup` of a file in use adds one to its count, and to no other.
filedup-ref :
    (t : Ftable) (f : ℕ)
    → 0 < ref_of t f
    → (t' : Ftable) × (filedup t f ≡ ok t') × ((g : ℕ) → ref_of t' g ≡ ref_of t g + one_at f g)
unfolding filedup file_at
filedup-ref t f h =
    let (x, e) = ref-get t f h in
    let r = ref_of-get t f x e in
    (
      set t f (record x { ref = x.ref + 1 }),
      ground (arith, e, r),
      λ g. ground (arith, r, ref_of-set t f g x (record x { ref = x.ref + 1 }) e),
    )

-- `fileclose` of a file in use takes one from its count, and from no other.
fileclose-ref :
    (t : Ftable) (f : ℕ)
    → 0 < ref_of t f
    → (t' : Ftable) × (drop : Drop) × (fileclose t f ≡ ok (t', drop))
      × ((g : ℕ) → ref_of t' g + one_at f g ≡ ref_of t g)
unfolding fileclose file_at
fileclose-ref t f h =
    let (x, e) = ref-get t f h in
    let r = ref_of-get t f x e in
    elim (Bool-cases (ltb 0 (x.ref - 1))) [
      | inl more ↦ (
        set t f (record x { ref = x.ref - 1 }),
        nothing,
        ground (arith, e, r),
        λ g. ground (arith, r, ref_of-set t f g x (record x { ref = x.ref - 1 }) e),
      )
      | inr last ↦ (
        set t f (record x { ref = 0; type = fd_none }),
        drop_of x,
        ground (arith, e, r),
        λ g. ground (arith, r, ref_of-set t f g x (record x { ref = 0; type = fd_none }) e),
      )
    ]

some-tail :
    {a b : ℕ} {l m : List (Option ℕ)}
    → ◌≡◌ {A = Option (ℕ × List (Option ℕ))} (some (a, l)) (some (b, m))
    → l ≡ m
some-tail h = ap (λ o. elim o [ none ↦ [] | some (_, l) ↦ l ]) h

fdalloc_from-count :
    (i f : ℕ) (o : List (Option ℕ)) {fd : ℕ} {o' : List (Option ℕ)}
    → fdalloc_from i f o ≡ some (fd, o')
    → (g : ℕ) → count g o' ≡ count g o + one_at f g
unfolding fdalloc_from
fdalloc_from-count i f [] h g = cc
fdalloc_from-count i f (none ∷ o) {fd} {o'} h g =
    subst (λ l. count g l ≡ count g o + one_at f g) (some-tail h) (omega arith)
fdalloc_from-count i f (some k ∷ o) {fd} {o'} h g = elim (Option-cases (fdalloc_from (i + 1) f o)) [
  | inl full ↦ ground (arith, full)
  | inr ((j, l), e) ↦
      let ih = fdalloc_from-count (i + 1) f o e g in
      let same : some k ∷ l ≡ o' = ground (arith, e) in
      subst (λ r. count g r ≡ one_at k g + count g o + one_at f g) same (omega (arith, ih))
]

count-set-none :
    (o : List (Option ℕ)) (n f g : ℕ)
    → get_elem? o n ≡ some (some f)
    → count g (set o n none) + one_at f g ≡ count g o
count-set-none [] n f g h = cc
count-set-none (none ∷ o) zero f g h = cc
count-set-none (some k ∷ o) zero f g h = ground (arith, h)
count-set-none (none ∷ o) (suc n) f g h = count-set-none o n f g h
count-set-none (some k ∷ o) (suc n) f g h = ground (arith, count-set-none o n f g h)

count_pos : (o : List (Option ℕ)) (n f : ℕ) → get_elem? o n ≡ some (some f) → 0 < count f o
count_pos [] n f h = cc
count_pos (none ∷ o) zero f h = cc
count_pos (some k ∷ o) zero f h = ground (arith, h)
count_pos (none ∷ o) (suc n) f h = count_pos o n f h
count_pos (some k ∷ o) (suc n) f h = ground (arith, count_pos o n f h)

fdalloc-count :
    (f : ℕ) (o : List (Option ℕ)) {fd : ℕ} {o' : List (Option ℕ)}
    → fdalloc f o ≡ some (fd, o')
    → (g : ℕ) → count g o' ≡ count g o + one_at f g
unfolding fdalloc
fdalloc-count f o h g = fdalloc_from-count 0 f o h g

-- Each count is the number of descriptors of this process on the file and of the other pointers to
-- it, `held`.
pub record IsCounted (held : ℕ → ℕ) (t : Ftable) (ofile : List (Option ℕ)) : Type 0 where
  pub counts : (g : ℕ) → ref_of t g ≡ held g + count g ofile

-- The result of a call of this process, with what it leaves.
pub data Keeps (held : ℕ → ℕ) : Result (ℤ × Ftable × List (Option ℕ)) → Type 0 where
  keeps :
      {r : ℤ} {t : Ftable} {o : List (Option ℕ)} → IsCounted held t o → Keeps held (ok (r, t, o))

argfd-get :
    (fd : ℤ) (o : List (Option ℕ)) {n f : ℕ}
    → argfd fd o ≡ some (n, f)
    → get_elem? o n ≡ some (some f)
unfolding argfd
argfd-get (negsuc n) o h = cc
argfd-get (pos n) o h = ground arith

-- `dup` of any argument, from a state in which each reference count is right, returns, and leaves
-- each count right: a descriptor that it adds is counted.
pub sys_dup-IsCounted :
    (held : ℕ → ℕ) (fd : ℤ) (t : Ftable) (ofile : List (Option ℕ))
    → IsCounted held t ofile
    → Keeps held (sys_dup fd t ofile)
unfolding sys_dup
sys_dup-IsCounted held fd t ofile c = elim (Option-cases (argfd fd ofile)) [
  | inl bad ↦ rw (bad, sys_dup) (keeps c)
  | inr ((n, f), good) ↦ elim (Option-cases (fdalloc f ofile)) [
    | inl full ↦ rw (good, sys_dup) (rw full (keeps c))
    | inr ((new, ofile'), room) ↦
        let open_file = count_pos ofile n f (argfd-get fd ofile good) in
        let (t', done, counts) = filedup-ref t f (omega (arith, c.counts f)) in
        rw (good, sys_dup)
          (rw room (
            rw done (
              keeps (record {
                counts = λ g. omega (arith, c.counts g, counts g, fdalloc-count f ofile room g);
              }))))
  ]
]

-- The same for `close`.
pub data KeepsClose (held : ℕ → ℕ) : Result (ℤ × Ftable × List (Option ℕ) × Drop) → Type 0 where
  keeps_close :
      {r : ℤ} {t : Ftable} {o : List (Option ℕ)} {d : Drop}
      → IsCounted held t o
      → KeepsClose held (ok (r, t, o, d))

-- `close` of any argument, from a state in which each reference count is right, returns, and leaves
-- each count right: the descriptor that it takes away is counted no more.
pub sys_close-IsCounted :
    (held : ℕ → ℕ) (fd : ℤ) (t : Ftable) (ofile : List (Option ℕ))
    → IsCounted held t ofile
    → KeepsClose held (sys_close fd t ofile)
unfolding sys_close
sys_close-IsCounted held fd t ofile c = elim (Option-cases (argfd fd ofile)) [
  | inl bad ↦ rw (bad, sys_close) (keeps_close c)
  | inr ((n, f), good) ↦
      let at = argfd-get fd ofile good in
      let (t', drop, done, counts) =
        fileclose-ref t f (omega (arith, c.counts f, count_pos ofile n f at)) in
      rw (good, sys_close)
        (rw done (
          keeps_close (record {
            counts = λ g. omega (arith, c.counts g, counts g, count-set-none ofile n f g at);
          })))
]

-- For a file of the table: the last close frees its slot and hands on the pipe's end or the inode
-- that it held; an earlier close hands on nothing; a close of a free slot stops the machine.
pub fileclose_lem :
    (t : Ftable) (f : ℕ) (x : File)
    → get_elem? t f ≡ some x
    → fileclose t f ≡ (
        if x.ref == 0
        then panic
        else if x.ref == 1
        then ok (set t f (record x { ref = 0; type = fd_none }), drop_of x)
        else ok (set t f (record x { ref = x.ref - 1 }), nothing))
unfolding fileclose file_at
fileclose_lem t f x e = ground (arith, e)
