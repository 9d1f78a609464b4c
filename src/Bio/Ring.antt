-- ===== src/Bio/Ring.antt =====
-- bio.c: the list of buffers that `prev` and `next` make, most recently used first.
use mathlib.Core.Path.{subst}
use cs461_final_project_grub.Base.{
  ℕ, zero, suc, ◌+◌, ◌≡◌, ◌≢◌, ◌≤◌, inl, inr, refl, ap, sym, ◌∙◌, true, false, ◌==◌, if◌then◌else◌,
  List, [], ◌∷◌, ◌++◌, update, update_ne, update_self, ◌^◌, ◌-◌, ◌%◌, All, Bool-cases, ok, arith,
}
use cs461_final_project_grub.Bio.{
  Bcache, list_head, nbuf, link_front, link_all, set_buf, binit, unlink, brelse, holdingsleep,
  releasesleep,
}
use cs461_final_project_grub.Bio.Links.{
  Links, Once, Apart, IsRing, Links-frame, first, Links-last, Links-first, Links-split,
  Links-without, Apart-without, Once-without, Apart-out, Apart-mid, Apart-behind, first_out,
}

-- `unlink` takes a buffer out of the list.
unlink-IsRing :
    (c : Bcache) (l1 : List ℕ) (b : ℕ) (l2 : List ℕ)
    → IsRing c (l1 ++ (b ∷ l2))
    → IsRing (unlink b c) (l1 ++ l2)
unfolding unlink
unlink-IsRing c l1 b l2 h =
    let parts = Links-split c.next c.prev list_head l1 b l2 list_head h.linked in
    let before = Links-last c.next c.prev list_head l1 b parts.0 in
    let after = Links-first c.next c.prev b l2 list_head parts.1 in
    record {
      linked =
          rw
            (
              after,
              update_ne c.prev (first l2 list_head) b (c.prev b) (λ e.
                  first_out b list_head l2 (λ e. Apart-mid list_head l1 b l2 h.apart (sym e))
                    (Apart-behind b l1 l2 (Apart-out l1 b l2 h.once)) (sym e)),
              before,
            )
            (Links-without c.next c.prev list_head l1 b l2 list_head h.linked h.apart h.apart
              h.once);
      once = Once-without l1 b l2 h.once;
      apart = Apart-without list_head l1 b l2 h.apart;
    }

All_update2 :
    (f : ℕ → ℕ) (i v j w : ℕ) (l : List ℕ)
    → Apart i l
    → Apart j l
    → All (λ y. update (update f i v) j w y ≡ f y) l
All_update2 f i v j w [] h k = tt
All_update2 f i v j w (x ∷ l) h k = (ground (arith, h.0, k.0), All_update2 f i v j w l h.1 k.1)

front-Links :
    (n p : ℕ → ℕ) (b z : ℕ) (l : List ℕ)
    → Links n p z l z
    → Apart b l
    → Apart z l
    → Once l
    → b ≢ z
    → Links (update (update n b (first l z)) z b) (update (update p b z) (first l z) b) z (b ∷ l) z
front-Links n p b z [] h hb hz once ne =
    (ground (arith, ne), ground (arith, ne), (ground (arith, ne), ground (arith, ne)))
front-Links n p b z (d ∷ l) h hb hz once ne = (
  ground (arith, ne),
  ground (arith, ne, hb.0),
  (
    ground (arith, ne),
    ground arith,
    Links-frame n p (update (update n b d) z b) (update (update p b z) d b) d l z
        (ground (arith, hb.0, hz.0)) (All_update2 n b d z b l hb.1 hz.1)
        (All_update2 p b z d b l hb.1 once.0) (ground (arith, ne, hz.0)) h.2,
  ),
)

-- `link_front` puts one in front.
link_front-IsRing :
    (c : Bcache) (b : ℕ) (l : List ℕ)
    → IsRing c l
    → Apart b l
    → b ≢ list_head
    → IsRing (link_front b c) (b ∷ l)
unfolding link_front
link_front-IsRing c b l h out ne =
    let after = Links-first c.next c.prev list_head l list_head h.linked in
    let after' = update_ne c.next b list_head (c.next list_head) (λ e. ne (sym e)) ∙ after in
    let linked = front-Links c.next c.prev b list_head l h.linked out h.apart h.once ne in
    record {
      linked =
          subst
            (λ x.
              Links (update (update c.next b (c.next list_head)) list_head b)
                (update (update c.prev b list_head) x b) list_head (b ∷ l) list_head)
            (sym after')
            (subst
              (λ x.
                Links (update (update c.next b x) list_head b)
                  (update (update c.prev b list_head) (first l list_head) b) list_head (b ∷ l)
                  list_head)
              (sym after) linked);
      once = (out, h.once);
      apart = (ne, h.apart);
    }

-- `nbuf - 1`, ..., 0.
abbrev pub count_down : ℕ → List ℕ
count_down zero = []
count_down (suc n) = n ∷ count_down n

Apart-count : (x n : ℕ) → n ≤ x → Apart x (count_down n)
Apart-count x zero le = tt
Apart-count x (suc n) le = (omega arith, Apart-count x n (omega arith))

link_all-IsRing :
    (n : ℕ) (c : Bcache) → n ≤ nbuf → IsRing c [] → IsRing (link_all n c) (count_down n)
unfolding link_all
link_all-IsRing zero c le h = h
link_all-IsRing (suc n) c le h =
    let ih = link_all-IsRing n c (omega arith) h in
    link_front-IsRing _ n (count_down n)
      (record { linked = ih.linked; once = ih.once; apart = ih.apart })
      (Apart-count n n (omega arith)) (omega arith)

-- `binit` links all buffers, the last one in front.
pub binit-IsRing : (c : Bcache) → IsRing (binit c) (count_down nbuf)
unfolding binit
binit-IsRing c = link_all-IsRing nbuf _ (omega arith) (record {
  linked = (update_self c.next list_head list_head, update_self c.prev list_head list_head);
  once = tt;
  apart = tt;
})

-- The count of a buffer after a `brelse`.
abbrev pub fewer : ℕ → Bcache → ℕ
fewer b c = ((c.buf b).refcnt + 2 ^ 32 - 1) % 2 ^ 32

abbrev unlocked : ℕ → Bcache → Bcache
unlocked b c =
    set_buf c b (record (c.buf b) { lock = releasesleep (c.buf b).lock; refcnt = fewer b c })

brelse_at :
    (b : ℕ) (c : Bcache)
    → holdingsleep (c.buf b).lock ≡ true
    → brelse b c
      ≡ (if fewer b c == 0 then ok (link_front b (unlink b (unlocked b c))) else ok (unlocked b c))
unfolding brelse
brelse_at b c held =
    rw
      (
        held,
        update_self c.buf b
            (record (c.buf b) { lock = releasesleep (c.buf b).lock; refcnt = fewer b c }),
      )
      refl

free_lem :
    (b : ℕ) (c : Bcache)
    → holdingsleep ((link_front b (unlink b (unlocked b c))).buf b).lock ≡ false
unfolding link_front unlink holdingsleep releasesleep
free_lem b c = ap (λ v. v.lock.locked) (update_self c.buf b _)

used_lem : (b : ℕ) (c : Bcache) → holdingsleep ((unlocked b c).buf b).lock ≡ false
unfolding holdingsleep releasesleep
used_lem b c = ap (λ v. v.lock.locked) (update_self c.buf b _)

-- The list after a `brelse`.
abbrev pub released : ℕ → (c : Bcache) → (l1 l2 : List ℕ) → List ℕ
released b c l1 l2 = if fewer b c == 0 then b ∷ (l1 ++ l2) else l1 ++ (b ∷ l2)

-- `brelse` of a locked buffer of the list does not panic, unlocks it, and moves it to the front of the
-- list where its count falls to 0; otherwise it leaves the list as it is.
pub brelse-IsRing :
    (b : ℕ) (c : Bcache) (l1 l2 : List ℕ)
    → IsRing c (l1 ++ (b ∷ l2))
    → holdingsleep (c.buf b).lock ≡ true
    → (c' : Bcache) × (brelse b c ≡ ok c')
      × IsRing c' (released b c l1 l2)
      × (holdingsleep (c'.buf b).lock ≡ false)
brelse-IsRing b c l1 l2 h held =
    let c' = unlocked b c in
    let same : IsRing c' (l1 ++ (b ∷ l2)) = record {
      linked = h.linked;
      once = h.once;
      apart = h.apart;
    } in
    elim (Bool-cases (fewer b c == 0)) [
      | inl free ↦ (
        link_front b (unlink b c'),
        brelse_at b c held ∙ ap (λ t. if t then ok (link_front b (unlink b c')) else ok c') free,
        rw free (
            link_front-IsRing (unlink b c') b (l1 ++ l2) (unlink-IsRing c' l1 b l2 same)
              (Apart-out l1 b l2 h.once) (Apart-mid list_head l1 b l2 h.apart)),
        free_lem b c,
      )
      | inr used ↦ (
        c',
        brelse_at b c held ∙ ap (λ t. if t then ok (link_front b (unlink b c')) else ok c') used,
        rw used same,
        used_lem b c,
      )
    ]
