-- ===== src/Console/Reads.antt =====
-- console.c: what `consoleread` takes of the lines that are ready.
use cs461_final_project_grub.Base.{
  ℕ, zero, suc, ◌≡◌, inl, inr, refl, ap, Bool, true, false, ◌==◌, if◌then◌else◌, List, [], ◌∷◌,
  Bool-cases, arith,
}
use cs461_final_project_grub.Console.{
  Console, uint_pred, uint_plus, Reply, done, asleep, killed_reader, cons_reply, read_line,
  consoleread,
}
use cs461_final_project_grub.Console.Ring.{IsLine}

-- A read on the lists: the bytes that it gives and what stays ready, or the bytes so far and how many
-- more are wanted.
pub data Answer : Type 0 where
  gives : (bytes rest : List ℕ) → Answer
  wants : (bytes : List ℕ) → ℕ → Answer

abbrev pub cons_answer : ℕ → Answer → Answer
cons_answer c (gives bytes rest) = gives (c ∷ bytes) rest
cons_answer c (wants bytes n) = wants (c ∷ bytes) n

abbrev pub answer : (begun : Bool) → ℕ → List ℕ → Answer
answer begun zero ready = gives [] ready
answer begun (suc n) [] = wants [] (suc n)
answer begun (suc n) (c ∷ ready) =
    if c == 4
    then gives [] (if begun then c ∷ ready else ready)
    else if c == 10
    then gives (c ∷ []) ready
    else cons_answer c (answer true n ready)

-- A reply gives the answer's bytes, and leaves the rest ready.
abbrev pub Answers : List ℕ → Answer → Reply → Type 0
Answers typed (gives bytes rest) (done bytes' s) = (bytes ≡ bytes') × IsLine s rest typed
Answers typed (gives bytes rest) (asleep bytes' n s) = ⊥
Answers typed (gives bytes rest) (killed_reader s) = ⊥
Answers typed (wants bytes n) (asleep bytes' n' s) = (bytes ≡ bytes') × (n ≡ n') × IsLine s [] typed
Answers typed (wants bytes n) (done bytes' s) = ⊥
Answers typed (wants bytes n) (killed_reader s) = ⊥

Answers-cons :
    (typed : List ℕ) (c : ℕ) (a : Answer) (r : Reply)
    → Answers typed a r
    → Answers typed (cons_answer c a) (cons_reply c r)
unfolding cons_reply
Answers-cons typed c (gives bytes rest) (done bytes' s) h = (ap (λ l. c ∷ l) h.0, h.1)
Answers-cons typed c (wants bytes n) (asleep bytes' n' s) h = (ap (λ l. c ∷ l) h.0, h.1, h.2)
Answers-cons typed c (gives bytes rest) (asleep bytes' n s) h = absurd h
Answers-cons typed c (gives bytes rest) (killed_reader s) h = absurd h
Answers-cons typed c (wants bytes n) (done bytes' s) h = absurd h
Answers-cons typed c (wants bytes n) (killed_reader s) h = absurd h

-- The state behind the first byte.
taken :
    (s : Console) (c : ℕ) (ready typed : List ℕ)
    → IsLine s (c ∷ ready) typed
    → IsLine (record s { r = uint_plus s.r 1 }) ready typed
taken s c ready typed h =
    let b = h.bound in
    let at = h.write in
    let few = h.few in
    record {
      bound = (omega arith, b.1, b.2);
      write = omega (arith, at);
      edit = h.edit;
      few = omega (arith, few);
      ahead = h.ahead.1;
      behind = h.behind;
      one_line = h.one_line;
    }

-- One step forward and one back.
returned :
    (s : Console) (ready typed : List ℕ)
    → IsLine s ready typed
    → IsLine (record s { r = uint_pred (uint_plus s.r 1) }) ready typed
returned s ready typed h =
    let b = h.bound in let same : uint_pred (uint_plus s.r 1) ≡ s.r = omega (arith, b) in rw same h

end_of_file :
    (begun : Bool) (s : Console) (c : ℕ) (ready typed : List ℕ)
    → IsLine s (c ∷ ready) typed
    → IsLine
        (if begun
          then record s { r = uint_pred (uint_plus s.r 1) }
          else record s { r = uint_plus s.r 1 })
        (if begun then c ∷ ready else ready)
        typed
end_of_file true s c ready typed h = returned s (c ∷ ready) typed h
end_of_file false s c ready typed h = taken s c ready typed h

read_line-Answers :
    (begun : Bool) (n : ℕ) (s : Console) (ready typed : List ℕ)
    → IsLine s ready typed
    → Answers typed (answer begun n ready) (read_line false begun n s)
unfolding read_line
read_line-Answers begun zero s ready typed h = (refl, h)
read_line-Answers begun (suc n) s [] typed h =
    let b = h.bound in
    let at = h.write in
    let end : s.r == s.w ≡ true = ground (arith, at, b) in rw end (refl, refl, h)
read_line-Answers begun (suc n) s (c ∷ ready) typed h =
    let b = h.bound in
    let at = h.write in
    let few = h.few in
    let more : s.r == s.w ≡ false = ground (arith, at, b, few) in
    rw (more, h.ahead.0)
      (elim (Bool-cases (c == 4)) [
        | inl end ↦ rw end (refl, end_of_file begun s c ready typed h)
        | inr char ↦ elim (Bool-cases (c == 10)) [
          | inl newline ↦ rw (char, newline) (refl, taken s c ready typed h)
          | inr other ↦
              rw (char, other)
                (Answers-cons typed c (answer true n ready)
                  (read_line false true n (record s { r = uint_plus s.r 1 }))
                  (read_line-Answers true n (record s { r = uint_plus s.r 1 }) ready typed
                    (taken s c ready typed h)))
        ]
      ])

-- `consoleread` of `n` bytes, where the reader has not been killed, gives what is ready up to and with the
-- first newline, at most `n` bytes, or up to the first `C('D')`, which it takes only where it is
-- the first byte; the rest stays ready and the typed line as it is. Where that runs out of bytes, it sleeps.
pub consoleread-Answers :
    (n : ℕ) (s : Console) (ready typed : List ℕ)
    → IsLine s ready typed
    → Answers typed (answer false n ready) (consoleread false n s)
unfolding consoleread
consoleread-Answers n s ready typed h = read_line-Answers false n s ready typed h
