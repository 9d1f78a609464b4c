-- ===== src/Proc/Wakeup.antt =====
-- `sleep` and `wakeup`, `wait` and `kill`.
use cs461_final_project_grub.Base.{
  ℕ, zero, suc, ◌+◌, ◌≡◌, ◌≢◌, ◌⊎◌, inl, inr, refl, Bool, true, false, not, ◌&&◌, ◌||◌,
  if◌then◌else◌, none, some, List, [], ◌∷◌, set, get_elem?, Bool-cases, arith, negsuc,
}
use cs461_final_project_grub.Proc.{
  unused, sleeping, runnable, is_zombie, is_sleeping, Proc, Table, modify, Chan, no_chan, of_proc,
  of_address, same_chan, wake, wakeup1,
}
use cs461_final_project_grub.Proc.Ending.{
  is_parent, sleep_on, Scan, reap, havekids, scan_from, Waited, returned, freed, sleeps, wait,
  reaped,
}
use cs461_final_project_grub.Proc.Slots.{get-modify, get-map}

same_chan_refl : (c : Chan) → same_chan c c ≡ true
same_chan_refl no_chan = refl
same_chan_refl (of_proc a) = ground arith
same_chan_refl (of_address a) = ground arith

-- A process that has gone to sleep on a channel is runnable after a wakeup of that channel, a
-- process of another channel sleeps on, and one that does not sleep is left as it was.
pub wakeup1_lem :
    (cur : ℕ) (c d : Chan) (t : Table) (p : Proc)
    → get_elem? t cur ≡ some p
    → (get_elem? (wakeup1 c (modify cur (sleep_on c) t)) cur
        ≡ some (record p { chan = c; state = runnable }))
      × (same_chan c d ≡ false
          → get_elem? (wakeup1 d (modify cur (sleep_on c) t)) cur
            ≡ some (record p { chan = c; state = sleeping }))
      × ((j : ℕ) (q : Proc)
          → get_elem? t j ≡ some q
          → is_sleeping q.state ≡ false
          → j ≢ cur
          → get_elem? (wakeup1 d (modify cur (sleep_on c) t)) j ≡ some q)
unfolding wakeup1 wake sleep_on
wakeup1_lem cur c d t p e = (
  ground (
    arith,
    e,
    same_chan_refl c,
    get-map (wake c) (modify cur (sleep_on c) t) cur,
    get-modify cur (sleep_on c) t cur,
  ),
  λ ne. ground (
    arith,
    e,
    ne,
    get-map (wake d) (modify cur (sleep_on c) t) cur,
    get-modify cur (sleep_on c) t cur,
  ),
  λ j q at awake other. ground (
    arith,
    at,
    awake,
    other,
    get-map (wake d) (modify cur (sleep_on c) t) j,
    get-modify cur (sleep_on c) t j,
  ),
)

-- What a scan for zombie children of `cur` has seen: a zombie child, or no zombie child, with the
-- flag that says whether there is a child.
pub data Scanned (cur : ℕ) (t : Table) : Scan → Type 0 where
  found :
      {i : ℕ} {p : Proc}
      → get_elem? t i ≡ some p
      → is_parent cur p.parent ≡ true
      → is_zombie p.state ≡ true
      → Scanned cur t (reap i p)
  none_dead :
      {kids : Bool}
      → ((j : ℕ) (q : Proc)
          → get_elem? t j ≡ some q
          → is_parent cur q.parent ≡ true
          → (is_zombie q.state ≡ false) × (kids ≡ true))
      → (kids ≡ true
          → (j : ℕ) × (q : Proc) × (get_elem? t j ≡ some q) × (is_parent cur q.parent ≡ true))
      → Scanned cur t (havekids kids)

-- The same for the slots from `o` on, the earlier ones having set the flag `kids0`.
data ScannedFrom (o cur : ℕ) (kids0 : Bool) (t : Table) : Scan → Type 0 where
  found_from :
      (k : ℕ) {i : ℕ} {p : Proc}
      → i ≡ o + k
      → get_elem? t k ≡ some p
      → is_parent cur p.parent ≡ true
      → is_zombie p.state ≡ true
      → ScannedFrom o cur kids0 t (reap i p)
  none_from :
      {kids : Bool}
      → (kids0 ≡ true → kids ≡ true)
      → ((j : ℕ) (q : Proc)
          → get_elem? t j ≡ some q
          → is_parent cur q.parent ≡ true
          → (is_zombie q.state ≡ false) × (kids ≡ true))
      → (kids ≡ true
          → (kids0 ≡ true)
            ⊎ ((j : ℕ) × (q : Proc) × (get_elem? t j ≡ some q) × (is_parent cur q.parent ≡ true)))
      → ScannedFrom o cur kids0 t (havekids kids)

scan_next :
    (o cur : ℕ) (kids0 : Bool) (p : Proc) (ps : Table) (r : Scan)
    → (is_parent cur p.parent && is_zombie p.state) ≡ false
    → ScannedFrom (o + 1) cur (kids0 || is_parent cur p.parent) ps r
    → ScannedFrom o cur kids0 (p ∷ ps) r
scan_next o cur kids0 p ps r miss (found_from k e at par dead) =
    found_from (suc k) (omega arith) at par dead
scan_next o cur kids0 p ps r miss (none_from {kids} keep all any) =
    none_from (λ h. keep (ground arith)) cases back
  where
    cases :
        (j : ℕ) (q : Proc)
        → get_elem? (p ∷ ps) j ≡ some q
        → is_parent cur q.parent ≡ true
        → (is_zombie q.state ≡ false) × (kids ≡ true)
    cases zero q at par =
        let same : p ≡ q = ground (arith, at) in ground (arith, same, par, miss, keep)
    cases (suc j) q at par = all j q at par

    back :
        kids ≡ true
        → (kids0 ≡ true)
          ⊎ ((j : ℕ) × (q : Proc) × (get_elem? (p ∷ ps) j ≡ some q)
              × (is_parent cur q.parent ≡ true))
    back h = elim (any h) [
      | inr (j, q, at, par) ↦ inr (suc j, q, at, par)
      | inl old ↦ elim (Bool-cases kids0) [
        | inl yes0 ↦ inl yes0
        | inr no0 ↦ inr (zero, p, refl, ground (arith, old, no0))
      ]
    ]

scan_from-ScannedFrom :
    (o cur : ℕ) (kids0 : Bool) (t : Table) → ScannedFrom o cur kids0 t (scan_from o cur kids0 t)
unfolding scan_from
scan_from-ScannedFrom o cur kids0 [] = none_from (λ h. h) (λ j q at. cc) (λ h. inl h)
scan_from-ScannedFrom o cur kids0 (p ∷ ps) =
    elim (Bool-cases (is_parent cur p.parent && is_zombie p.state)) [
      | inl hit ↦
          rw hit (found_from zero (omega arith) refl (ground (arith, hit)) (ground (arith, hit)))
      | inr miss ↦ rw miss (
          scan_next o cur kids0 p ps (scan_from (o + 1) cur (kids0 || is_parent cur p.parent) ps)
            miss (scan_from-ScannedFrom (o + 1) cur (kids0 || is_parent cur p.parent) ps))
    ]

-- A collected zombie's slot: free for `allocproc`, with nothing of the zombie that another process could
-- find it by, and no `kill` pending.
pub record IsFreed (q : Proc) : Type 0 where
  pub free : q.state ≡ unused
  pub numberless : q.pid ≡ 0
  pub orphan : q.parent ≡ none
  pub stackless : q.kstack ≡ 0
  pub alive : q.killed ≡ false
  pub nameless : q.name ≡ [] ⊎ ((l : List ℕ) × (q.name ≡ 0 ∷ l))

-- What a turn of `wait` by `cur` comes to.
pub data Outcome (cur : ℕ) (was_killed : Bool) (t : Table) : Waited → Type 0 where
  collects :
      (i : ℕ) (p q : Proc) {t' : Table}
      → get_elem? t i ≡ some p
      → is_parent cur p.parent ≡ true
      → is_zombie p.state ≡ true
      → get_elem? t' i ≡ some q
      → IsFreed q
      → ((j : ℕ) → j ≢ i → get_elem? t' j ≡ get_elem? t j)
      → Outcome cur was_killed t (freed p.pid p.kstack p.pgdir t')
  gives_up :
      (was_killed ≡ true)
        ⊎ ((j : ℕ) (q : Proc) → get_elem? t j ≡ some q → is_parent cur q.parent ≡ false)
      → ((j : ℕ) (q : Proc)
          → get_elem? t j ≡ some q
          → is_parent cur q.parent ≡ true
          → is_zombie q.state ≡ false)
      → Outcome cur was_killed t (returned (negsuc 0) t)
  waits :
      {t' : Table}
      → was_killed ≡ false
      → (j : ℕ) (q : Proc) → get_elem? t j ≡ some q
      → is_parent cur q.parent ≡ true
      → ((j : ℕ) (q : Proc)
          → get_elem? t j ≡ some q
          → is_parent cur q.parent ≡ true
          → is_zombie q.state ≡ false)
      → ((p : Proc)
          → get_elem? t cur ≡ some p
          → get_elem? t' cur ≡ some (record p { chan = of_proc cur; state = sleeping }))
      → ((j : ℕ) → j ≢ cur → get_elem? t' j ≡ get_elem? t j)
      → Outcome cur was_killed t (sleeps t')

reaped-IsFreed : (p : Proc) → IsFreed (reaped p)
unfolding reaped
reaped-IsFreed p = record {
  free = refl;
  numberless = refl;
  orphan = refl;
  stackless = refl;
  alive = refl;
  nameless = cut p.name;
}
  where
    cut : (l : List ℕ) → (set l 0 0 ≡ []) ⊎ ((k : List ℕ) × (set l 0 0 ≡ 0 ∷ k))
    cut [] = inl refl
    cut (c ∷ l) = inr (l, refl)

wait_after :
    (cur : ℕ) (was_killed : Bool) (t : Table) (s : Scan)
    → ScannedFrom 0 cur false t s
    → Outcome cur was_killed t (elim s [
      | reap i p ↦ freed p.pid p.kstack p.pgdir (modify i reaped t)
      | havekids kids ↦
          if not kids || was_killed
          then returned (negsuc 0) t
          else sleeps (modify cur (sleep_on (of_proc cur)) t)
    ])
unfolding sleep_on
wait_after cur k t s (found_from j {i} {p} e at par dead) =
    let here : get_elem? t i ≡ some p = (let same : i ≡ j = omega arith in rw same at) in
    collects i p (reaped p) here par dead (ground (arith, here, get-modify i reaped t i))
      (reaped-IsFreed p) (λ x ne. ground (arith, ne, get-modify i reaped t x))
wait_after cur k t s (none_from {kids} keep all any) = elim (Bool-cases kids) [
  | inr lone ↦ rw lone (
      gives_up (inr (λ j q at. ground (arith, all j q at, lone)))
        (λ j q at par. (all j q at par).0))
  | inl kid ↦ elim (Bool-cases k) [
    | inl dead ↦ rw (kid, dead) (gives_up (inl refl) (λ j q at par. (all j q at par).0))
    | inr alive ↦ elim (any kid) [
      | inl bad ↦ cc
      | inr (j, q, at, par) ↦
          rw (kid, alive)
            (waits refl j q at par (λ j q at par. (all j q at par).0)
              (λ p here. ground (arith, here, get-modify cur (sleep_on (of_proc cur)) t cur))
              (λ x ne. ground (arith, ne, get-modify cur (sleep_on (of_proc cur)) t x)))
    ]
  ]
]

-- `wait` collects a zombie child exactly if there is one: that child's slot becomes unused, with no pid,
-- parent, kernel stack, name or pending kill, the other slots are as before, and the result is its
-- pid. With none it returns -1 if the caller has no child or is killed, and otherwise puts the caller,
-- and no other process, to sleep on the caller's own channel.
pub wait-Outcome :
    (cur : ℕ) (was_killed : Bool) (t : Table) → Outcome cur was_killed t (wait cur was_killed t)
unfolding wait
wait-Outcome cur was_killed t =
    wait_after cur was_killed t (scan_from 0 cur false t) (scan_from-ScannedFrom 0 cur false t)
