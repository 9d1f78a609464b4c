-- ===== src/Log/Ops.antt =====
-- File-system operations that run side by side: the space that `begin_op` reserves.
use cs461_final_project_grub.Base.{
  ℕ, suc, ◌+◌, ◌*◌, ◌≡◌, ◌∙◌, ap, sym, ◌≤◌, Bool, true, false, pos, arith, if◌then◌else◌, List, [],
  ◌∷◌, ◌++◌, length, All, ok, length-append, some,
}
use cs461_final_project_grub.Log.{
  Log, Device, log_size, max_op_blocks, begin_op, end_op, end_commit, commit, log_write,
}
use cs461_final_project_grub.Log.Loops.{logged}
use cs461_final_project_grub.Log.Writes.{log_write_lem}

-- The operations in progress, each with the number of blocks that it may still add to the log.
pub record Busy : Type 0 where
  pub log : Log
  pub budgets : List ℕ

abbrev pub sum : List ℕ → ℕ
sum [] = 0
sum (x ∷ xs) = x + sum xs

-- Steps of operations in any interleaving. A block that the log has already costs nothing; one that it
-- has not costs an operation one of the `MAXOPBLOCKS` that it may add.
pub data Step : Busy → Busy → Type 0 where
  begin :
      {log log' : Log} {budgets : List ℕ}
      → begin_op log ≡ some log'
      → Step
          (record { log = log; budgets = budgets })
          (record { log = log'; budgets = max_op_blocks ∷ budgets })
  absorb :
      {log log' : Log} {budgets : List ℕ} (b : ℕ)
      → logged log.lh.block log.lh.n 0 b ≡ true
      → log_write b log ≡ ok log'
      → Step (record { log = log; budgets = budgets }) (record { log = log'; budgets = budgets })
  write :
      {log log' : Log} (before after : List ℕ) (left b : ℕ)
      → logged log.lh.block log.lh.n 0 b ≡ false
      → log_write b log ≡ ok log'
      → Step
          (record { log = log; budgets = before ++ (suc left ∷ after) })
          (record { log = log'; budgets = before ++ (left ∷ after) })
  end :
      {log log' : Log} (before after : List ℕ) (left : ℕ) {last : Bool}
      → end_op log ≡ ok (log', last)
      → Step
          (record { log = log; budgets = before ++ (left ∷ after) })
          (record { log = log'; budgets = before ++ after })
  finish :
      {log : Log} {budgets : List ℕ} (d : Device)
      → log.committing ≡ true
      → Step
          (record { log = log; budgets = budgets })
          (record { log = (end_commit log d).0; budgets = budgets })

pub data Reach (s : Busy) : Busy → Type 0 where
  here : Reach s s
  next : {t u : Busy} → Reach s t → Step t u → Reach s u

-- Each operation in progress has the room that it may still need.
pub record IsReserved (s : Busy) : Type 0 where
  pub counted : s.log.outstanding ≡ pos (length s.budgets)
  pub small : All (λ m. m ≤ max_op_blocks) s.budgets
  pub room : s.log.lh.n + sum s.budgets ≤ log_size
  pub alone : s.log.committing ≡ true → length s.budgets ≡ 0

sum-le : (xs : List ℕ) → All (λ m. m ≤ max_op_blocks) xs → sum xs ≤ length xs * max_op_blocks
sum-le [] h = omega arith
sum-le (x ∷ xs) h = omega (arith, sum-le xs h.1)

sum-append : (xs ys : List ℕ) → sum (xs ++ ys) ≡ sum xs + sum ys
sum-append [] ys = omega arith
sum-append (x ∷ xs) ys = omega (arith, sum-append xs ys)

module _ {ℓ κ} {A : Type ℓ} (P : A → Type κ) where
  All-append_left : (xs ys : List A) → All P (xs ++ ys) → All P xs
  All-append_left [] ys h = tt
  All-append_left (x ∷ xs) ys h = (h.0, All-append_left xs ys h.1)

  All-append_right : (xs ys : List A) → All P (xs ++ ys) → All P ys
  All-append_right [] ys h = h
  All-append_right (x ∷ xs) ys h = All-append_right xs ys h.1

  All-append : (xs ys : List A) → All P xs → All P ys → All P (xs ++ ys)
  All-append [] ys h k = k
  All-append (x ∷ xs) ys h k = (h.0, All-append xs ys h.1 k)

begin-IsReserved :
    (log : Log) (budgets : List ℕ) {log' : Log}
    → begin_op log ≡ some log'
    → IsReserved (record { log = log; budgets = budgets })
    → IsReserved (record { log = log'; budgets = max_op_blocks ∷ budgets })
unfolding begin_op
begin-IsReserved log budgets h r = record {
  counted = ground arith;
  small = (omega arith, r.small);
  room = ground (arith, sum-le budgets r.small);
  alone = ground arith;
}

write-IsReserved :
    (log : Log) (before after : List ℕ) (left b : ℕ) {log' : Log}
    → log_write b log ≡ ok log'
    → IsReserved (record { log = log; budgets = before ++ (suc left ∷ after) })
    → IsReserved (record { log = log'; budgets = before ++ (left ∷ after) })
write-IsReserved log before after left b {log'} h r = record {
  counted = out ∙ counted ∙ ap pos (l1 ∙ sym l2);
  small =
      All-append (λ m. m ≤ max_op_blocks) before (left ∷ after)
        (All-append_left (λ m. m ≤ max_op_blocks) before (suc left ∷ after) small)
        (omega (arith, tail.0), tail.1);
  room = ground (arith, s1, s2, n);
  alone = λ e. omega (arith, l1, l2, alone (sym same ∙ e));
}
  where
    open r use {counted, small, room, alone}

    wrote :
        (log'.lh.n ≡ (if logged log.lh.block log.lh.n 0 b then log.lh.n else log.lh.n + 1))
        × (log'.outstanding ≡ log.outstanding)
        × (log'.committing ≡ log.committing)
    wrote = let (_, n, out, same, _, _) = log_write_lem b log h in (n, out, same)

    n : log'.lh.n ≡ (if logged log.lh.block log.lh.n 0 b then log.lh.n else log.lh.n + 1)
    n = wrote.0

    out : log'.outstanding ≡ log.outstanding
    out = wrote.1

    same : log'.committing ≡ log.committing
    same = wrote.2

    l1 : length (before ++ (suc left ∷ after)) ≡ length before + suc (length after)
    l1 = length-append before (suc left ∷ after)

    l2 : length (before ++ (left ∷ after)) ≡ length before + suc (length after)
    l2 = length-append before (left ∷ after)

    s1 : sum (before ++ (suc left ∷ after)) ≡ sum before + (suc left + sum after)
    s1 = sum-append before (suc left ∷ after)

    s2 : sum (before ++ (left ∷ after)) ≡ sum before + (left + sum after)
    s2 = sum-append before (left ∷ after)

    tail : All (λ m. m ≤ max_op_blocks) (suc left ∷ after)
    tail = All-append_right (λ m. m ≤ max_op_blocks) before (suc left ∷ after) small

absorb-IsReserved :
    (log : Log) (budgets : List ℕ) (b : ℕ) {log' : Log}
    → logged log.lh.block log.lh.n 0 b ≡ true
    → log_write b log ≡ ok log'
    → IsReserved (record { log = log; budgets = budgets })
    → IsReserved (record { log = log'; budgets = budgets })
absorb-IsReserved log budgets b {log'} old h r =
    let (_, n, out, same, _, _) = log_write_lem b log h in
    let full : log'.lh.n ≡ log.lh.n = n ∙ ap (λ t. if t then log.lh.n else log.lh.n + 1) old in
    record {
      counted = out ∙ r.counted;
      small = r.small;
      room = (let room = r.room in omega (arith, full, room));
      alone = λ e. r.alone (sym same ∙ e);
    }

end-IsReserved :
    (log : Log) (before after : List ℕ) (left : ℕ) {log' : Log} {last : Bool}
    → end_op log ≡ ok (log', last)
    → IsReserved (record { log = log; budgets = before ++ (left ∷ after) })
    → IsReserved (record { log = log'; budgets = before ++ after })
unfolding end_op
end-IsReserved log before after left {log'} h r = record {
  counted = ground (arith, counted, l1, l2);
  small =
      All-append (λ m. m ≤ max_op_blocks) before after
        (All-append_left (λ m. m ≤ max_op_blocks) before (left ∷ after) small)
        (All-append_right (λ m. m ≤ max_op_blocks) before (left ∷ after) small).1;
  room = ground (arith, s1, s2);
  alone = λ e. ground (arith, l1, l2, counted, alone);
}
  where
    open r use {counted, small, room, alone}

    l1 : length (before ++ (left ∷ after)) ≡ length before + suc (length after)
    l1 = length-append before (left ∷ after)

    l2 : length (before ++ after) ≡ length before + length after
    l2 = length-append before after

    s1 : sum (before ++ (left ∷ after)) ≡ sum before + (left + sum after)
    s1 = sum-append before (left ∷ after)

    s2 : sum (before ++ after) ≡ sum before + sum after
    s2 = sum-append before after

finish-IsReserved :
    (log : Log) (budgets : List ℕ) (d : Device)
    → log.committing ≡ true
    → IsReserved (record { log = log; budgets = budgets })
    → IsReserved (record { log = (end_commit log d).0; budgets = budgets })
unfolding end_commit commit
finish-IsReserved log budgets d h r = record {
  counted = ground arith;
  small = r.small;
  room = ground arith;
  alone = ground arith;
}

pub Step-IsReserved : {s t : Busy} → Step s t → IsReserved s → IsReserved t
Step-IsReserved (begin {log} {budgets} h) r = begin-IsReserved log budgets h r
Step-IsReserved (absorb {log} {budgets} b old h) r = absorb-IsReserved log budgets b old h r
Step-IsReserved (write {log} before after left b new h) r =
    write-IsReserved log before after left b h r
Step-IsReserved (end {log} before after left h) r = end-IsReserved log before after left h r
Step-IsReserved (finish {log} {budgets} d h) r = finish-IsReserved log budgets d h r
