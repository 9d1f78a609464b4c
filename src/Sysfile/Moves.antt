-- ===== src/Sysfile/Moves.antt =====
-- sysfile.c: how many operations a part of a call begins and ends.

use cs461_final_project_grub.Base.{
  ℕ, suc, ◌+◌, ◌≡◌, Bool, true, false, if◌then◌else◌, Option, none, some, Result, ok, panic, ℤ, pos,
  negsuc, get_elem?, arith,
}
use cs461_final_project_grub.Fs.Disk.{Disk}
use cs461_final_project_grub.Fs.Inodes.{Inode, Icache}
use cs461_final_project_grub.Fs.Dirs.{Walk, reached, absent}
use cs461_final_project_grub.Sysfile.{
  Fsys, Run, done, stops, asleep, Op, ◌>>=◌, ◌>>◌, return, fail, run_begin_op, run_end_op, on_disk,
  inode, set_inode, arrive,
}

-- From `k + a` operations under way, there are `k + b` when the call comes back.
abbrev pub Ends : {A : Type 0} → ℕ → Run A → Type 0
Ends n (done x s) = s.ops ≡ n
Ends n stops = Unit
Ends n asleep = Unit

abbrev pub Moves : {A : Type 0} → ℕ → ℕ → Op A → Type 0
Moves a b m = (s : Fsys) (k : ℕ) → s.ops ≡ k + a → Ends (k + b) (m s)

pub Moves-bind :
    {A B : Type 0} (a b c : ℕ) (m : Op A) (f : A → Op B)
    → Moves a b m
    → ((x : A) → Moves b c (f x))
    → Moves a c (m >>= f)
Moves-bind {A = A} {B = B} a b c m f h g s k e = told (m s) (h s k e)
  where
    told :
        (r : Run A)
        → Ends (k + b) r
        → Ends (k + c) (elim r [ done x s' ↦ f x s' | stops ↦ stops | asleep ↦ asleep ])
    told (done x s') h' = g x s' k h'
    told stops h' = tt
    told asleep h' = tt

pub Moves-return : {A : Type 0} (a : ℕ) (x : A) → Moves a a (return x)
Moves-return a x s k e = e

pub Moves-disk :
    {A : Type 0} (a : ℕ) (f : Icache → Disk → Result (A × Icache × Disk)) → Moves a a (on_disk f)
Moves-disk {A = A} a f s k e = told (f s.cache s.disk)
  where
    told :
        (r : Result (A × Icache × Disk))
        → Ends
            (k + a)
            (elim r [ ok (x, c, d) ↦ done x (record s { cache = c; disk = d }) | panic ↦ stops ])
    told (ok r) = e
    told panic = tt

pub Moves-inode : (a i : ℕ) → Moves a a (inode i)
Moves-inode a i s k e = told (get_elem? s.cache i)
  where
    told : (o : Option Inode) → Ends (k + a) (elim o [ some ip ↦ done ip s | none ↦ stops ])
    told (some ip) = e
    told none = tt

pub Moves-if :
    {A : Type 0} (a b : ℕ) (t : Bool) (m m' : Op A)
    → Moves a b m
    → Moves a b m'
    → Moves a b (if t then m else m')
Moves-if a b true m m' h h' = h
Moves-if a b false m m' h h' = h'

-- No operation is begun or ended.
abbrev pub Keeps : {A : Type 0} → Op A → Type 0
Keeps m = (a : ℕ) → Moves a a m

pub Keeps-bind :
    {A B : Type 0} (m : Op A) (f : A → Op B) → Keeps m → ((x : A) → Keeps (f x)) → Keeps (m >>= f)
Keeps-bind m f h g a = Moves-bind a a a m f (h a) (λ x. g x a)

pub Keeps-then : {A B : Type 0} (m : Op A) (n : Op B) → Keeps m → Keeps n → Keeps (m >> n)
Keeps-then m n h g a = Moves-bind a a a m (λ x. n) (h a) (λ x. g a)

pub Keeps-if :
    {A : Type 0} (t : Bool) (m m' : Op A) → Keeps m → Keeps m' → Keeps (if t then m else m')
Keeps-if t m m' h h' a = Moves-if a a t m m' (h a) (h' a)

pub Keeps-fail : (A : Type 0) → Keeps (fail {A = A})
Keeps-fail A a s k e = tt

pub Keeps-set : (i : ℕ) (ip : Inode) → Keeps (set_inode i ip)
Keeps-set i ip a s k e = e

pub Keeps-return : {A : Type 0} (x : A) → Keeps (return x)
Keeps-return x a s k e = e

pub Keeps-arrive : (w : Walk) → Keeps (arrive w)
Keeps-arrive Walk.asleep a s k e = tt
Keeps-arrive absent a s k e = e
Keeps-arrive (reached i name) a s k e = e

pub keep_bind :
    {A B : Type 0} (a b : ℕ) (m : Op A) (f : A → Op B)
    → Keeps m
    → ((x : A) → Moves a b (f x))
    → Moves a b (m >>= f)
keep_bind a b m f h g = Moves-bind a a b m f (h a) g

pub keep_then :
    {A B : Type 0} (a b : ℕ) (m : Op A) (n : Op B) → Keeps m → Moves a b n → Moves a b (m >> n)
keep_then a b m n h g = Moves-bind a a b m (λ x. n) (h a) (λ x. g)

-- By cases on an option, and on a result of `int`.
pub Moves-option :
    {A B : Type 0} (a b : ℕ) (o : Option A) (n : Op B) (f : A → Op B)
    → Moves a b n
    → ((x : A) → Moves a b (f x))
    → Moves a b (elim o [ none ↦ n | some x ↦ f x ])
Moves-option a b none n f h g = h
Moves-option a b (some x) n f h g = g x

pub Moves-int :
    {B : Type 0} (a b : ℕ) (r : ℤ) (m n : Op B)
    → Moves a b m
    → Moves a b n
    → Moves a b (elim r [ negsuc _ ↦ m | pos _ ↦ n ])
Moves-int a b (negsuc x) m n h g = h
Moves-int a b (pos x) m n h g = g

pub begin-Moves : (a : ℕ) → Moves a (suc a) run_begin_op
unfolding run_begin_op
begin-Moves a s k e = omega (arith, e)

pub end-Moves : (a : ℕ) → Moves (suc a) a run_end_op
unfolding run_end_op
end-Moves a s k e = omega (arith, e)
