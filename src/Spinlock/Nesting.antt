-- ===== src/Spinlock/Nesting.antt =====
-- Processors that take one lock in any order, and the interrupt flag of one of them.
use cs461_final_project_grub.Base.{
  ℕ, zero, suc, ◌-◌, ◌≡◌, ◌≢◌, inl, inr, refl, sym, ◌∙◌, Bool, true, false, ◌&&◌, ◌==◌, update,
  none, some, List, [], ◌∷◌, Result, ok, ◌>>=◌, arith, Bool-cases, Option-cases,
}
use cs461_final_project_grub.Spinlock.{
  Cpu, Spinlock, holding, pushcli, popcli, acquire, spin, set_owner, release, clear_owner, unlock,
  Phase, outside, spinning, taken, inside, leaving, disowned, unlocked, Machine, go, turn_at, turn,
  run,
}

-- Where the processor has the lock, and where it is named in it.
abbrev pub has_lock : Phase → Bool
has_lock outside = false
has_lock spinning = false
has_lock taken = true
has_lock inside = true
has_lock leaving = true
has_lock disowned = true
has_lock unlocked = false

abbrev pub is_named : Phase → Bool
is_named outside = false
is_named spinning = false
is_named taken = false
is_named inside = true
is_named leaving = true
is_named disowned = false
is_named unlocked = false

-- No two processors have the lock, and it is set while one has it; the owner in it is the processor
-- that is in the critical section or about to leave it, and no other; a processor has its interrupts
-- off from the start of `acquire` to the end of `release`.
pub record IsSafe (m : Machine) : Type 0 where
  pub alone : (c d : ℕ) → has_lock (m.phase c) ≡ true → has_lock (m.phase d) ≡ true → c ≡ d
  pub set : (c : ℕ) → has_lock (m.phase c) ≡ true → m.lock.locked ≡ true
  pub owner : (c : ℕ) → is_named (m.phase c) ≡ true → m.lock.cpu ≡ some c
  pub held : (c : ℕ) → m.lock.cpu ≡ some c → is_named (m.phase c) ≡ true
  pub quiet : (c : ℕ) → m.phase c ≢ outside → ((m.cpus c).flag ≡ false) × ((m.cpus c).ncli ≢ 0)

holder : (c : ℕ) (lk : Spinlock) → holding c lk ≡ true → lk.cpu ≡ some c
unfolding holding
holder c lk h = elim (Option-cases lk.cpu) [
  | inl nobody ↦ absurd (ground (arith, h, nobody))
  | inr (d, e) ↦ ground (arith, h, e)
]

not_holder : (c : ℕ) (m : Machine) → IsSafe m → m.phase c ≡ outside → holding c m.lock ≡ false
not_holder c m v e = elim (Bool-cases (holding c m.lock)) [
  | inl h ↦ absurd (ground (arith, e, v.held c (holder c m.lock h)))
  | inr h ↦ h
]

is_holder : (c : ℕ) (m : Machine) → IsSafe m → m.phase c ≡ inside → holding c m.lock ≡ true
unfolding holding
is_holder c m v e = ground (arith, v.set c (ground (arith, e)), v.owner c (ground (arith, e)))

-- A step of `c` that does not take the lock takes it for nobody.
back :
    (c : ℕ) (q : Phase) (m : Machine)
    → (has_lock q ≡ true → has_lock (m.phase c) ≡ true)
    → (b : ℕ) → has_lock (update m.phase c q b) ≡ true
    → has_lock (m.phase b) ≡ true
back c q m keep b h = elim (Bool-cases (b == c)) [
  | inl same ↦ let e : b ≡ c = ground (arith, same) in ground (arith, same, h, keep)
  | inr other ↦ ground (arith, other, h)
]

-- The owner after a step of `c` that leaves the owner alone.
module _ (c : ℕ) (q : Phase) (m : Machine) (v : IsSafe m)
    (same_name : is_named q ≡ is_named (m.phase c)) where
  name-update : (b : ℕ) → is_named (update m.phase c q b) ≡ is_named (m.phase b)
  name-update b = elim (Bool-cases (b == c)) [
    | inl same ↦ let e : b ≡ c = ground (arith, same) in ground (arith, same, same_name, e)
    | inr other ↦ ground (arith, other)
  ]

  owner-update : (b : ℕ) → is_named (update m.phase c q b) ≡ true → m.lock.cpu ≡ some b
  owner-update b h = v.owner b (sym (name-update b) ∙ h)

  held-update : (b : ℕ) → m.lock.cpu ≡ some b → is_named (update m.phase c q b) ≡ true
  held-update b o = name-update b ∙ v.held b o

-- The interrupts after a step of `c` that does not touch them.
quiet-update :
    (c : ℕ) (q : Phase) (m : Machine)
    → IsSafe m
    → m.phase c ≢ outside
    → (b : ℕ) → update m.phase c q b ≢ outside
    → ((m.cpus b).flag ≡ false) × ((m.cpus b).ncli ≢ 0)
quiet-update c q m v out b h = elim (Bool-cases (b == c)) [
  | inl same ↦ let e : b ≡ c = ground (arith, same) in v.quiet b (rw e out)
  | inr other ↦ v.quiet b (λ k. h (ground (arith, other, k)))
]

abbrev Safely : Phase → ℕ → Machine → Type 0
Safely p c m = (m' : Machine) × (turn_at p c m ≡ ok m') × IsSafe m'

enter : (c : ℕ) (m : Machine) → IsSafe m → m.phase c ≡ outside → Safely outside c m
unfolding turn_at acquire pushcli
enter c m v e = (
  record m { cpus = update m.cpus c (pushcli (m.cpus c)); phase = update m.phase c spinning },
  ground (arith, not_holder c m v e),
  record {
    alone = λ b d hb hd.
        v.alone b d (back c spinning m (λ k. absurd (ground (arith, k))) b hb)
          (back c spinning m (λ k. absurd (ground (arith, k))) d hd);
    set = λ b h. v.set b (back c spinning m (λ k. absurd (ground (arith, k))) b h);
    owner = owner-update c spinning m v (ground (arith, e));
    held = held-update c spinning m v (ground (arith, e));
    quiet = λ b h. elim (Bool-cases (b == c)) [
      | inl same ↦ ground (arith, same, h)
      | inr other ↦ ground (arith, other, h, v.quiet b)
    ];
  },
)

take_lock : (c : ℕ) (m : Machine) → IsSafe m → m.phase c ≡ spinning → Safely spinning c m
unfolding turn_at spin
take_lock c m v e = elim (Bool-cases m.lock.locked) [
  | inl busy ↦ (m, ground (arith, busy), v)
  | inr idle ↦ (
    go c taken (record m.lock { locked = true }) m,
    ground (arith, idle),
    record {
      alone = λ b d hb hd. only idle b hb ∙ sym (only idle d hd);
      set = λ b h. refl;
      owner = owner-update c taken m v (ground (arith, e));
      held = held-update c taken m v (ground (arith, e));
      quiet = quiet-update c taken m v (λ k. absurd (ground (arith, e, k)));
    },
  )
]
  where
    only : m.lock.locked ≡ false → (b : ℕ) → has_lock (update m.phase c taken b) ≡ true → b ≡ c
    only idle b h = elim (Bool-cases (b == c)) [
      | inl same ↦ ground (arith, same)
      | inr other ↦ absurd (ground (arith, idle, other, h, v.set b))
    ]

own_lock : (c : ℕ) (m : Machine) → IsSafe m → m.phase c ≡ taken → Safely taken c m
unfolding turn_at set_owner
own_lock c m v e =
    let mine : has_lock (m.phase c) ≡ true = ground (arith, e) in
    (
      go c inside (record m.lock { cpu = some c }) m,
      refl,
      record {
        alone = λ b d hb hd.
            v.alone b d (back c inside m (λ k. mine) b hb) (back c inside m (λ k. mine) d hd);
        set = λ b h. v.set c mine;
        owner = λ b h. elim (Bool-cases (b == c)) [
          | inl same ↦ ground (arith, same)
          | inr other ↦
              let named : is_named (m.phase b) ≡ true = ground (arith, other, h) in
              absurd (ground (arith, other, v.alone b c (named-has (m.phase b) named) mine))
        ];
        held = λ b o. ground (arith, o);
        quiet = quiet-update c inside m v (λ k. absurd (ground (arith, e, k)));
      },
    )
  where
    named-has : (p : Phase) → is_named p ≡ true → has_lock p ≡ true
    named-has outside h = h
    named-has spinning h = h
    named-has taken h = refl
    named-has inside h = h
    named-has leaving h = h
    named-has disowned h = refl
    named-has unlocked h = h

test_owner : (c : ℕ) (m : Machine) → IsSafe m → m.phase c ≡ inside → Safely inside c m
unfolding turn_at release
test_owner c m v e =
    let mine : has_lock (m.phase c) ≡ true = ground (arith, e) in
    (
      go c leaving m.lock m,
      ground (arith, is_holder c m v e),
      record {
        alone = λ b d hb hd.
            v.alone b d (back c leaving m (λ k. mine) b hb) (back c leaving m (λ k. mine) d hd);
        set = λ b h. v.set c mine;
        owner = owner-update c leaving m v (ground (arith, e));
        held = held-update c leaving m v (ground (arith, e));
        quiet = quiet-update c leaving m v (λ k. absurd (ground (arith, e, k)));
      },
    )

drop_owner : (c : ℕ) (m : Machine) → IsSafe m → m.phase c ≡ leaving → Safely leaving c m
unfolding turn_at clear_owner
drop_owner c m v e =
    let mine : has_lock (m.phase c) ≡ true = ground (arith, e) in
    let named : is_named (m.phase c) ≡ true = ground (arith, e) in
    (
      go c disowned (record m.lock { cpu = none }) m,
      refl,
      record {
        alone = λ b d hb hd.
            v.alone b d (back c disowned m (λ k. mine) b hb) (back c disowned m (λ k. mine) d hd);
        set = λ b h. v.set c mine;
        owner = λ b h. elim (Bool-cases (b == c)) [
          | inl same ↦ absurd (ground (arith, same, h))
          | inr other ↦ absurd (ground (arith, other, h, v.owner b, v.owner c named))
        ];
        held = λ b o. absurd (ground (arith, o));
        quiet = quiet-update c disowned m v (λ k. absurd (ground (arith, e, k)));
      },
    )

drop_lock : (c : ℕ) (m : Machine) → IsSafe m → m.phase c ≡ disowned → Safely disowned c m
unfolding turn_at unlock
drop_lock c m v e =
    let mine : has_lock (m.phase c) ≡ true = ground (arith, e) in
    (
      go c unlocked (record m.lock { locked = false }) m,
      refl,
      record {
        alone = λ b d hb hd. absurd (nobody mine b hb);
        set = λ b h. absurd (nobody mine b h);
        owner = owner-update c unlocked m v (ground (arith, e));
        held = held-update c unlocked m v (ground (arith, e));
        quiet = quiet-update c unlocked m v (λ k. absurd (ground (arith, e, k)));
      },
    )
  where
    nobody :
        has_lock (m.phase c) ≡ true → (b : ℕ) → has_lock (update m.phase c unlocked b) ≡ true → ⊥
    nobody mine b h = elim (Bool-cases (b == c)) [
      | inl same ↦ ground (arith, same, h)
      | inr other ↦
          let also : has_lock (m.phase b) ≡ true = ground (arith, other, h) in
          ground (arith, other, v.alone b c also mine)
    ]

leave : (c : ℕ) (m : Machine) → IsSafe m → m.phase c ≡ unlocked → Safely unlocked c m
unfolding turn_at popcli
leave c m v e =
    let q : ((m.cpus c).flag ≡ false) × ((m.cpus c).ncli ≢ 0) = ground (arith, e, v.quiet c) in
    let s : Cpu = record {
      ncli = (m.cpus c).ncli - 1;
      intena = (m.cpus c).intena;
      flag = ((m.cpus c).ncli - 1 == 0) && (m.cpus c).intena;
    } in
    (
      record m { cpus = update m.cpus c s; phase = update m.phase c outside },
      ground (arith, q),
      record {
        alone = λ b d hb hd.
            v.alone b d (back c outside m (λ k. absurd (ground (arith, k))) b hb)
              (back c outside m (λ k. absurd (ground (arith, k))) d hd);
        set = λ b h. v.set b (back c outside m (λ k. absurd (ground (arith, k))) b h);
        owner = owner-update c outside m v (ground (arith, e));
        held = held-update c outside m v (ground (arith, e));
        quiet = λ b h. elim (Bool-cases (b == c)) [
          | inl same ↦ absurd (ground (arith, same, h))
          | inr other ↦ ground (arith, other, h, v.quiet b)
        ];
      },
    )

turn-IsSafe : (c : ℕ) (m : Machine) → IsSafe m → (m' : Machine) × (turn c m ≡ ok m') × IsSafe m'
unfolding turn
turn-IsSafe c m v = by_phase (m.phase c) refl
  where
    by_phase :
        (p : Phase) → m.phase c ≡ p → (m' : Machine) × (turn_at (m.phase c) c m ≡ ok m') × IsSafe m'
    by_phase outside e = rw e (enter c m v e)
    by_phase spinning e = rw e (take_lock c m v e)
    by_phase taken e = rw e (own_lock c m v e)
    by_phase inside e = rw e (test_owner c m v e)
    by_phase leaving e = rw e (drop_owner c m v e)
    by_phase disowned e = rw e (drop_lock c m v e)
    by_phase unlocked e = rw e (leave c m v e)

-- From a safe state, under every schedule of the processors' steps, where the exchange of `acquire`, each
-- store of `acquire` and `release`, and `popcli` are steps of their own: nothing panics, and the state
-- reached is safe. No two processors have the lock at once, one in the critical section is the owner in
-- the lock, and each has its interrupts off from the start of `acquire` to the end of `release`.
pub run-IsSafe :
    (cs : List ℕ) (m : Machine) → IsSafe m → (m' : Machine) × (run cs m ≡ ok m') × IsSafe m'
unfolding run
run-IsSafe [] m v = (m, refl, v)
run-IsSafe (c ∷ cs) m v =
    let (m1, e1, v1) = turn-IsSafe c m v in
    let (m2, e2, v2) = run-IsSafe cs m1 v1 in (m2, rw e1 e2, v2)

-- A number of calls of `popcli`, up to one that panics.
abbrev pub pop : ℕ → Cpu → Result Cpu
pop zero s = ok s
pop (suc n) s = popcli s >>= pop n

abbrev pub push : ℕ → Cpu → Cpu
push zero s = s
push (suc n) s = pushcli (push n s)

-- As many calls of `popcli` as of `pushcli`, at least one, from a processor that has counted no call
-- yet: they succeed, no call is counted, and the interrupt flag is what it was.
pub pop-push :
    (n : ℕ) (s : Cpu)
    → s.ncli ≡ 0
    → (t : Cpu) × (pop (suc n) (push (suc n) s) ≡ ok t) × (t.ncli ≡ 0) × (t.flag ≡ s.flag)
unfolding pushcli popcli
pop-push n s z = nested n (push (suc n) s) s.flag (pushed n)
  where
    pushed :
        (k : ℕ)
        → ((push (suc k) s).ncli ≡ suc k)
          × ((push (suc k) s).intena ≡ s.flag)
          × ((push (suc k) s).flag ≡ false)
    pushed zero = ground (arith, z)
    pushed (suc k) = ground (arith, pushed k)

    nested :
        (k : ℕ) (r : Cpu) (f : Bool)
        → (r.ncli ≡ suc k) × (r.intena ≡ f) × (r.flag ≡ false)
        → (t : Cpu) × (pop (suc k) r ≡ ok t) × (t.ncli ≡ 0) × (t.flag ≡ f)
    nested zero r f h = (
      record { ncli = r.ncli - 1; intena = r.intena; flag = (r.ncli - 1 == 0) && r.intena },
      ground (arith, h),
      omega (arith, h),
      ground (arith, h),
    )
    nested (suc k) r f h =
        let r' : Cpu = record {
          ncli = r.ncli - 1;
          intena = r.intena;
          flag = (r.ncli - 1 == 0) && r.intena;
        } in
        let (t, e, count, flag) = nested k r' f (ground (arith, h)) in
        let one : popcli r ≡ ok r' = ground (arith, h) in (t, rw one e, count, flag)
