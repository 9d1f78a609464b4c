-- ===== src/Fs/Refs.antt =====
-- The inode cache: the entry that `iget` gives.
use mathlib.Core.Path.{subst}
use mathlib.Core.Option
use cs461_final_project_grub.Base.{
  ℕ, zero, suc, ◌+◌, ◌≡◌, ◌<◌, inl, inr, refl, ap, sym, ◌∙◌, false, ◌==◌, if◌then◌else◌, Option,
  none, some, [], ◌∷◌, get_elem?, set, Result, ok, panic, arith, Bool-cases,
}
use cs461_final_project_grub.Fs.Inodes.{
  Inode, Icache, Found, cached, vacant, find_from, fresh, iget,
}
use cs461_final_project_grub.Fs.Search.{IsFor, Search, hit, miss, find_from-Search}

get-set :
    (c : Icache) (i : ℕ) (v : Inode) (j : ℕ)
    → get_elem? (set c i v) j
      ≡ (if j == i then Option.map (λ u. v) (get_elem? c j) else get_elem? c j)
get-set [] i v j = ground arith
get-set (p ∷ ps) zero v zero = refl
get-set (p ∷ ps) zero v (suc j) = ground arith
get-set (p ∷ ps) (suc i) v zero = ground arith
get-set (p ∷ ps) (suc i) v (suc j) = ground (arith, get-set ps i v j)

-- No inode has two entries.
abbrev pub IsUnique : Icache → Type 0
IsUnique c =
    (i j : ℕ) (p q : Inode)
    → get_elem? c i ≡ some p
    → get_elem? c j ≡ some q
    → 0 < q.ref
    → IsFor q.dev q.inum p
    → i ≡ j

-- What `iget` may come to.
pub data Got (dev inum : ℕ) (c : Icache) : Result (ℕ × Icache) → Type 0 where
  again :
      (i : ℕ) (ip : Inode)
      → get_elem? c i ≡ some ip
      → IsFor dev inum ip
      → IsUnique (set c i (record ip { ref = ip.ref + 1 }))
      → Got dev inum c (ok (i, set c i (record ip { ref = ip.ref + 1 })))
  recycled :
      (i : ℕ) (ip : Inode)
      → get_elem? c i ≡ some ip
      → ip.ref ≡ 0
      → ((j : ℕ) (q : Inode) → get_elem? c j ≡ some q → IsFor dev inum q → ⊥)
      → (new : Inode) → new.ref ≡ 1
      → new.valid ≡ false
      → IsFor dev inum new
      → IsUnique (set c i new)
      → Got dev inum c (ok (i, set c i new))
  full :
      ((j : ℕ) (q : Inode) → get_elem? c j ≡ some q → 0 < q.ref)
      → ((j : ℕ) (q : Inode) → get_elem? c j ≡ some q → IsFor dev inum q → ⊥)
      → Got dev inum c panic

some_eq : {a b : Inode} → ◌≡◌ {A = Option Inode} (some a) (some b) → a ≡ b
some_eq {a} e = ap (λ o. elim o [ none ↦ a | some x ↦ x ]) e

-- A new entry at `i` for an inode that no other entry in use is for.
IsUnique-set :
    (c : Icache) (i : ℕ) (ip new : Inode)
    → IsUnique c
    → get_elem? c i ≡ some ip
    → ((b : ℕ) (q : Inode) → get_elem? c b ≡ some q → IsFor new.dev new.inum q → b ≡ i)
    → IsUnique (set c i new)
IsUnique-set c i ip new v at only a b p q ha hb qu for = elim (Bool-cases (a == i)) [
  | inl x ↦
      let here : new ≡ p = some_eq (ground (arith, ha, get-set c i new a, x, at)) in
      elim (Bool-cases (b == i)) [
        | inl y ↦ ground (arith, x, y)
        | inr y ↦
            let there : get_elem? c b ≡ some q = ground (arith, hb, get-set c i new b, y) in
            let back : b ≡ i = only b q there (record {
              used = qu;
              of_dev = sym for.of_dev ∙ sym (ap (λ u. u.dev) here);
              of_inum = sym for.of_inum ∙ sym (ap (λ u. u.inum) here);
            }) in
            ground (arith, x, back)
      ]
  | inr x ↦
      let here : get_elem? c a ≡ some p = ground (arith, ha, get-set c i new a, x) in
      elim (Bool-cases (b == i)) [
        | inl y ↦
            let there : new ≡ q = some_eq (ground (arith, hb, get-set c i new b, y, at)) in
            let back : a ≡ i = only a p here (record {
              used = for.used;
              of_dev = for.of_dev ∙ sym (ap (λ u. u.dev) there);
              of_inum = for.of_inum ∙ sym (ap (λ u. u.inum) there);
            }) in
            ground (arith, y, back)
        | inr y ↦ v a b p q here (ground (arith, hb, get-set c i new b, y)) qu for
      ]
]

-- From a cache in which no inode has two entries, `iget` counts one more reference on the entry in use
-- for the inode, or else gives the inode a free entry, with one reference and nothing read from the
-- disk yet, and leaves the other entries; no inode has two entries afterwards. It panics just
-- where all entries are in use, and none of them for the inode.
pub iget-Got : (dev inum : ℕ) (c : Icache) → IsUnique c → Got dev inum c (iget dev inum c)
unfolding iget fresh
iget-Got dev inum c v = got (find_from 0 dev inum none c) (find_from-Search 0 dev inum none c)
  where
    start : (j : ℕ) → j ≡ 0 + j
    start j = omega arith

    first :
        (i : ℕ) (ip : Inode)
        → get_elem? c i ≡ some ip
        → ip.ref ≡ 0
        → ((j : ℕ) (q : Inode) → get_elem? c j ≡ some q → IsFor dev inum q → ⊥)
        → Got dev inum c
            (elim (get_elem? c i) [ none ↦ panic | some ip ↦ ok (i, set c i (fresh dev inum ip)) ])
    first i ip at free absent = rw at (
        recycled i ip at free absent (fresh dev inum ip) refl refl
          (record { used = omega arith; of_dev = refl; of_inum = refl })
          (IsUnique-set c i ip (fresh dev inum ip) v at (λ b q hb for. absurd (absent b q hb for))))

    got :
        (r : Found)
        → Search 0 dev inum none c r
        → Got dev inum c (elim r [
          | cached i ip ↦ ok (i, set c i (record ip { ref = ip.ref + 1 }))
          | vacant none ↦ panic
          | vacant (some i) ↦ elim (get_elem? c i) [
            | none ↦ panic
            | some ip ↦ ok (i, set c i (fresh dev inum ip))
          ]
        ])
    got _ (hit j ip at for) =
        subst (λ i. Got dev inum c (ok (i, set c i (record ip { ref = ip.ref + 1 })))) (start j)
          (again j ip at for (
            IsUnique-set c j ip (record ip { ref = ip.ref + 1 }) v at
              (λ b q hb other. v b j q ip hb at for.used other)))
    got _ (miss none absent origin busy) = full (busy refl).1 absent
    got _ (miss (some i) absent origin busy) = elim (origin i refl) [
      | inl e ↦ absurd (ground (arith, e))
      | inr (j, q, e, at, free) ↦
          first i q (subst (λ k. get_elem? c k ≡ some q) (start j ∙ sym e) at) free absent
    ]
