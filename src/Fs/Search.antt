-- ===== src/Fs/Search.antt =====
-- The search of the inode cache for an inode and for a free entry.
use mathlib.Core.Path.{subst}
use cs461_final_project_grub.Base.{
  ℕ, zero, suc, ◌+◌, ◌≡◌, ◌<◌, ◌⊎◌, inl, inr, refl, sym, ◌∙◌, true, false, ◌&&◌, ltb, ◌==◌, Option,
  none, some, [], ◌∷◌, get_elem?, arith, Bool-cases,
}
use cs461_final_project_grub.Fs.Inodes.{Inode, Icache, Found, cached, vacant, find_from}

-- The entry is in use for the inode.
pub record IsFor (dev inum : ℕ) (ip : Inode) : Type 0 where
  pub used : 0 < ip.ref
  pub of_dev : ip.dev ≡ dev
  pub of_inum : ip.inum ≡ inum

-- What a search of the cache comes to.
pub data Search (o dev inum : ℕ) (empty : Option ℕ) (c : Icache) : Found → Type 0 where
  hit :
      (j : ℕ) (ip : Inode)
      → get_elem? c j ≡ some ip
      → IsFor dev inum ip
      → Search o dev inum empty c (cached (o + j) ip)
  miss :
      (e : Option ℕ)
      → ((j : ℕ) (q : Inode) → get_elem? c j ≡ some q → IsFor dev inum q → ⊥)
      → ((k : ℕ)
          → e ≡ some k
          → (empty ≡ some k)
            ⊎ ((j : ℕ) × (q : Inode) × (k ≡ o + j) × (get_elem? c j ≡ some q) × (q.ref ≡ 0)))
      → (e ≡ none → (empty ≡ none) × ((j : ℕ) (q : Inode) → get_elem? c j ≡ some q → 0 < q.ref))
      → Search o dev inum empty c (vacant e)

-- The entry `empty` behind the one with index `o`.
data Passed (o : ℕ) (empty passed : Option ℕ) (ip : Inode) : Type 0 where
  kept : passed ≡ empty → (passed ≡ none → 0 < ip.ref) → Passed o empty passed ip
  taken : passed ≡ some o → ip.ref ≡ 0 → Passed o empty passed ip

-- Behind an entry that is not the inode's.
Search-next :
    (o dev inum : ℕ) (empty passed : Option ℕ) (ip : Inode) (ips : Icache) (r : Found)
    → (IsFor dev inum ip → ⊥)
    → Passed o empty passed ip
    → Search (o + 1) dev inum passed ips r
    → Search o dev inum empty (ip ∷ ips) r
Search-next o dev inum empty passed ip ips _ other from (hit j q at for) =
    subst (λ k. Search o dev inum empty (ip ∷ ips) (cached k q)) (omega arith)
      (hit (suc j) q at for)
Search-next o dev inum empty passed ip ips _ other from (miss e absent origin busy) =
    miss e none_here (λ k eq. place k from (origin k eq))
      (λ eq. (no_empty from (busy eq).0, all_busy from (busy eq)))
  where
    none_here : (j : ℕ) (q : Inode) → get_elem? (ip ∷ ips) j ≡ some q → IsFor dev inum q → ⊥
    none_here zero q at for = other (subst (IsFor dev inum) (ground (arith, at)) for)
    none_here (suc j) q at for = absent j q at for

    place :
        (k : ℕ)
        → Passed o empty passed ip
        → (passed ≡ some k)
          ⊎ ((j : ℕ) × (q : Inode) × (k ≡ o + 1 + j) × (get_elem? ips j ≡ some q) × (q.ref ≡ 0))
        → (empty ≡ some k)
          ⊎ ((j : ℕ) × (q : Inode) × (k ≡ o + j) × (get_elem? (ip ∷ ips) j ≡ some q) × (q.ref ≡ 0))
    place k (kept same used) (inl at) = inl (sym same ∙ at)
    place k (taken here free) (inl at) = inr (0, ip, ground (arith, here, at), refl, free)
    place k from (inr (j, q, e, at, free)) = inr (suc j, q, omega (arith, e), at, free)

    no_empty : Passed o empty passed ip → passed ≡ none → empty ≡ none
    no_empty (kept same used) n = sym same ∙ n
    no_empty (taken here free) n = absurd (ground (arith, here, n))

    all_busy :
        Passed o empty passed ip
        → (passed ≡ none) × ((j : ℕ) (q : Inode) → get_elem? ips j ≡ some q → 0 < q.ref)
        → (j : ℕ) (q : Inode) → get_elem? (ip ∷ ips) j ≡ some q
        → 0 < q.ref
    all_busy (taken here free) b j q at = absurd (ground (arith, here, b.0))
    all_busy (kept same used) b zero q at = ground (arith, used b.0, at)
    all_busy (kept same used) b (suc j) q at = b.1 j q at

not_for :
    (dev inum : ℕ) (ip : Inode)
    → (ltb 0 ip.ref && ip.dev == dev && ip.inum == inum) ≡ false
    → IsFor dev inum ip
    → ⊥
not_for dev inum ip h for = ground (arith, h, for.used, for.of_dev, for.of_inum)

is_for :
    (dev inum : ℕ) (ip : Inode)
    → (ltb 0 ip.ref && ip.dev == dev && ip.inum == inum) ≡ true
    → IsFor dev inum ip
is_for dev inum ip h = record {
  used = ground (arith, h);
  of_dev = ground (arith, h);
  of_inum = ground (arith, h);
}

hit_first :
    (o dev inum : ℕ) (empty : Option ℕ) (ip : Inode) (ips : Icache)
    → IsFor dev inum ip
    → Search o dev inum empty (ip ∷ ips) (cached o ip)
hit_first o dev inum empty ip ips for =
    subst (λ k. Search o dev inum empty (ip ∷ ips) (cached k ip)) (omega arith) (hit 0 ip refl for)

pub find_from-Search :
    (o dev inum : ℕ) (empty : Option ℕ) (c : Icache)
    → Search o dev inum empty c (find_from o dev inum empty c)
unfolding find_from
find_from-Search o dev inum empty [] =
    miss empty (λ j q at for. ground (arith, at)) (λ k e. inl e)
      (λ e. (e, λ j q at. absurd (ground (arith, at))))
find_from-Search o dev inum (some e) (ip ∷ ips) =
    elim (Bool-cases (ltb 0 ip.ref && ip.dev == dev && ip.inum == inum)) [
      | inl here ↦ rw here (hit_first o dev inum (some e) ip ips (is_for dev inum ip here))
      | inr other ↦ rw other (
          Search-next o dev inum (some e) (some e) ip ips _ (not_for dev inum ip other)
            (kept refl (λ n. absurd (ground (arith, n))))
            (find_from-Search (o + 1) dev inum (some e) ips))
    ]
find_from-Search o dev inum none (ip ∷ ips) =
    elim (Bool-cases (ltb 0 ip.ref && ip.dev == dev && ip.inum == inum)) [
      | inl here ↦ rw here (hit_first o dev inum none ip ips (is_for dev inum ip here))
      | inr other ↦ elim (Bool-cases (ip.ref == 0)) [
        | inl free ↦
            rw (other, free)
              (Search-next o dev inum none (some o) ip ips _ (not_for dev inum ip other)
                (taken refl (ground (arith, free)))
                (find_from-Search (o + 1) dev inum (some o) ips))
        | inr busy ↦
            rw (other, busy)
              (Search-next o dev inum none none ip ips _ (not_for dev inum ip other)
                (kept refl (λ n. ground (arith, busy)))
                (find_from-Search (o + 1) dev inum none ips))
      ]
    ]
