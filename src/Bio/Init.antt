-- ===== src/Bio/Init.antt =====
-- bio.c: the cache that `binit` leaves.
use cs461_final_project_grub.Base.{
  ℕ, zero, suc, ◌≡◌, inl, inr, refl, ap, ◌∙◌, true, false, ◌==◌, length, Bool-cases, arith,
}
use cs461_final_project_grub.Bio.{
  Buf, Bcache, Disk, nbuf, initsleeplock, link_front, link_all, binit,
}
use cs461_final_project_grub.Bio.Ring.{count_down, binit-IsRing}
use cs461_final_project_grub.Bio.Cache.{IsCached}

-- Linking the buffers changes what `f` says of none of them, where it says nothing of the lock.
link_all_same :
    {A : Type 0} (f : Buf → A)
    → ((v : Buf) → f (record v { lock = initsleeplock }) ≡ f v)
    → (n : ℕ) (c : Bcache) (i : ℕ) → f ((link_all n c).buf i) ≡ f (c.buf i)
unfolding link_all link_front
link_all_same f h zero c i = refl
link_all_same f h (suc n) c i = elim (Bool-cases (i == n)) [
  | inl same ↦ rw same (h ((link_all n c).buf n) ∙ at i n same ∙ link_all_same f h n c i)
  | inr other ↦ rw other (link_all_same f h n c i)
]
  where
    at : (i n : ℕ) → i == n ≡ true → f ((link_all n c).buf n) ≡ f ((link_all n c).buf i)
    at i n e = ap (λ k. f ((link_all n c).buf k)) (ground (arith, e))

length-count_down : (n : ℕ) → length (count_down n) ≡ n
length-count_down zero = refl
length-count_down (suc n) = ap suc (length-count_down n)

pub binit_unused :
    (c : Bcache) → ((i : ℕ) → (c.buf i).dev ≡ 0) → (i : ℕ) → ((binit c).buf i).dev ≡ 0
unfolding binit
binit_unused c unused i = link_all_same (λ v. v.dev) (λ v. refl) nbuf _ i ∙ unused i

-- `binit` puts the zeroed memory that the kernel starts with in order.
pub binit-IsCached :
    (d : Disk) (c : Bcache)
    → ((i : ℕ) → (c.buf i).dev ≡ 0)
    → ((i : ℕ) → (c.buf i).valid ≡ false)
    → IsCached d (binit c) (count_down nbuf)
unfolding binit
binit-IsCached d c unused invalid = record {
  ring = binit-IsRing c;
  few = let size = length-count_down nbuf in omega (arith, size);
  alone = λ i j hi hj ne e e'. binit_unused c unused i;
  settled = λ i hi.
      let no : ((binit c).buf i).valid ≡ false =
        link_all_same (λ v. v.valid) (λ v. refl) nbuf _ i ∙ invalid i in
      record {
        device = λ val. absurd (ground (arith, no, val));
        coherent = λ val clean free. absurd (ground (arith, no, val));
      };
}
