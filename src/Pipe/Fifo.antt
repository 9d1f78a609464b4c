-- ===== src/Pipe/Fifo.antt =====
-- A pipe is a bounded queue: what is in it, and how reads and writes change that.
use mathlib.Core.List.{append-nil, append_assoc}
use native.Mathlib.Numerals.{add-one}
use cs461_final_project_grub.Base.{
  ℕ, zero, suc, ◌+◌, ◌-◌, ◌%◌, ◌^◌, ◌≤◌, ◌<◌, ◌≡◌, ◌∙◌, refl, ap, inl, inr, Bool, true, false, not,
  ◌&&◌, ◌||◌, List, [], ◌∷◌, ◌++◌, leb, if◌then◌else◌, update, length, take, drop, arith,
  Bool-cases,
}
use cs461_final_project_grub.Pipe.{
  Pipe, failed, returned, asleep, Reply, is_full, is_empty, pipe_size, put, head, advance,
  write_from, pipewrite, read_from, piperead,
}

-- The number of bytes in the pipe.
abbrev pub count : Pipe → ℕ
count p = (p.nwrite + 2 ^ 32 - p.nread) % 2 ^ 32

-- Both counters are 32-bit words, and the writer is at most a buffer ahead.
pub record IsValid (p : Pipe) : Type 0 where
  pub read_word : p.nread < 2 ^ 32
  pub write_word : p.nwrite < 2 ^ 32
  pub bounded : count p ≤ pipe_size

-- The `n` bytes from counter `i` on.
unfoldable pub bytes : (ℕ → ℕ) → ℕ → ℕ → List ℕ
bytes buf i zero = []
bytes buf i (suc n) = buf (i % pipe_size) ∷ bytes buf ((i + 1) % 2 ^ 32) n

abbrev pub contents : Pipe → List ℕ
contents p = bytes p.buf p.nread (count p)

pub length-bytes : (buf : ℕ → ℕ) (i n : ℕ) → length (bytes buf i n) ≡ n
unfolding bytes
length-bytes buf i zero = refl
length-bytes buf i (suc n) = ap suc (length-bytes buf ((i + 1) % 2 ^ 32) n)

bytes-update :
    (buf : ℕ → ℕ) (c i n w : ℕ)
    → i < 2 ^ 32
    → n < pipe_size
    → w ≡ (i + n) % 2 ^ 32
    → bytes (update buf (w % pipe_size) c) i (suc n) ≡ bytes buf i n ++ (c ∷ [])
unfolding bytes
bytes-update buf c i zero w hi hn e = ground arith
bytes-update buf c i (suc n) w hi hn e =
    ground
      (arith, bytes-update buf c ((i + 1) % 2 ^ 32) n w (omega arith) (omega arith) (omega arith))

put-IsValid :
    (p : Pipe) (c : ℕ)
    → IsValid p
    → is_full p ≡ false
    → IsValid (put p c) × (count (put p c) ≡ count p + 1)
unfolding put
put-IsValid p c v h = ground arith

put-contents :
    (p : Pipe) (c : ℕ) → IsValid p → is_full p ≡ false → contents (put p c) ≡ contents p ++ (c ∷ [])
put-contents p c v h = rw (put-IsValid p c v h).1 (
    rw add-one (
      unfold put in
      bytes-update p.buf c p.nread (count p) p.nwrite v.read_word (ground arith) (ground arith)))

full_count : (p : Pipe) → IsValid p → is_full p ≡ true → count p ≡ pipe_size
full_count p v h = ground arith

room_left : (p : Pipe) → IsValid p → is_full p ≡ false → count p < pipe_size
room_left p v h = ground arith

-- What a write of `cs` leaves and reports; `n` is what it returns when all is written.
pub record Wrote (killed : Bool) (n : ℕ) (p : Pipe) (cs : List ℕ) (r : Reply) : Type 0 where
  pub valid : IsValid r.pipe
  pub queued : contents r.pipe ≡ contents p ++ take (pipe_size - count p) cs
  pub outcome : r.outcome ≡ (
      if leb (length cs) (pipe_size - count p)
      then returned n
      else if not p.readopen || killed
      then failed
      else asleep (drop (pipe_size - count p) cs))
  pub same_reader : r.pipe.readopen ≡ p.readopen
  pub same_writer : r.pipe.writeopen ≡ p.writeopen
  pub same_nread : r.pipe.nread ≡ p.nread

take-nil : (k : ℕ) → take {A = ℕ} k [] ≡ []
take-nil zero = refl
take-nil (suc k) = refl

put_flags :
    (p : Pipe) (c : ℕ)
    → ((put p c).readopen ≡ p.readopen)
      × ((put p c).writeopen ≡ p.writeopen)
      × ((put p c).nread ≡ p.nread)
unfolding put
put_flags p c = (refl, refl, refl)

write_from-Wrote :
    (killed : Bool) (n : ℕ) (p : Pipe) (cs : List ℕ)
    → IsValid p
    → Wrote killed n p cs (write_from killed n p cs)
unfolding write_from
write_from-Wrote killed n p [] v = record {
  valid = v;
  queued = rw (take-nil (pipe_size - count p), append-nil);
  outcome = ground arith;
  same_reader = refl;
  same_writer = refl;
  same_nread = refl;
}
write_from-Wrote killed n p (c ∷ cs) v = elim (Bool-cases (is_full p)) [
  | inl full ↦
      let e : pipe_size - count p ≡ 0 = omega (arith, full_count p v full) in
      record {
        valid = ground arith;
        queued = rw e (ground (arith, append-nil (contents p)));
        outcome = rw e (ground arith);
        same_reader = ground arith;
        same_writer = ground arith;
        same_nread = ground arith;
      }
  | inr space ↦
      let ih = write_from-Wrote killed n (put p c) cs (put-IsValid p c v space).0 in
      let e : pipe_size - count p ≡ suc (pipe_size - count (put p c)) =
        omega (arith, (put-IsValid p c v space).1, room_left p v space) in
      let kept = put_flags p c in
      record {
        valid = rw space ih.valid;
        queued =
            rw (e, space)
              (ih.queued
                ∙ (ap (λ l. l ++ take (pipe_size - count (put p c)) cs) (put-contents p c v space)
                    ∙ append_assoc (contents p) (c ∷ []) (take (pipe_size - count (put p c)) cs)));
        outcome = rw (e, space) (ground (arith, ih.outcome, kept));
        same_reader = rw space (ih.same_reader ∙ kept.0);
        same_writer = rw space (ih.same_writer ∙ kept.1);
        same_nread = rw space (ih.same_nread ∙ kept.2);
      }
]

-- `pipewrite` on a valid pipe appends, in order and with none lost, as many of its bytes as there
-- is room for, and only those; it returns the length of the write if all of them fit, fails if not
-- and the reader is gone or the caller is killed, and otherwise sleeps with exactly the bytes that
-- did not fit. The pipe stays valid, and its two ends stay open or closed as they were.
pub pipewrite-Wrote :
    (killed : Bool) (p : Pipe) (cs : List ℕ)
    → IsValid p
    → Wrote killed (length cs) p cs (pipewrite killed p cs)
unfolding pipewrite
pipewrite-Wrote killed p cs v = write_from-Wrote killed (length cs) p cs v

-- Taking one byte.
advance-IsValid :
    (p : Pipe)
    → IsValid p
    → is_empty p ≡ false
    → IsValid (advance p) × (count p ≡ suc (count (advance p)))
unfolding advance
advance-IsValid p v h = ground arith

advance-contents :
    (p : Pipe) → IsValid p → is_empty p ≡ false → contents p ≡ head p ∷ contents (advance p)
advance-contents p v h = rw (advance-IsValid p v h).1 (unfold head advance bytes in refl)

empty_count : (p : Pipe) → IsValid p → is_empty p ≡ true → count p ≡ 0
empty_count p v h = ground arith

-- What a read loop of `k` rounds stores and leaves.
pub record Took (k : ℕ) (p : Pipe) (r : List ℕ × Pipe) : Type 0 where
  pub valid : IsValid r.1
  pub stored : r.0 ≡ take k (contents p)
  pub left : contents r.1 ≡ drop k (contents p)
  pub same_nwrite : r.1.nwrite ≡ p.nwrite

read_from-Took : (k : ℕ) (p : Pipe) → IsValid p → Took k p (read_from k p)
unfolding read_from
read_from-Took zero p v = record { valid = v; stored = refl; left = refl; same_nwrite = refl }
read_from-Took (suc k) p v = elim (Bool-cases (is_empty p)) [
  | inl none_left ↦
      let e = empty_count p v none_left in
      record {
        valid = rw none_left v;
        stored = rw (none_left, e) (unfold bytes in refl);
        left = rw none_left (rw e (unfold bytes in refl));
        same_nwrite = rw none_left;
      }
  | inr some_left ↦
      let ih = read_from-Took k (advance p) (advance-IsValid p v some_left).0 in
      let e = advance-contents p v some_left in
      record {
        valid = rw some_left ih.valid;
        stored = rw some_left (rw e (ap (λ l. head p ∷ l) ih.stored));
        left = rw some_left (rw e ih.left);
        same_nwrite = rw some_left (ih.same_nwrite ∙ unfold advance in refl);
      }
]

empty_contents : (p : Pipe) → IsValid p → is_empty p ≡ true → contents p ≡ []
empty_contents p v h = let e = empty_count p v h in rw e (unfold bytes in refl)

drop-nil : (k : ℕ) → drop {A = ℕ} k [] ≡ []
drop-nil zero = refl
drop-nil (suc k) = refl

-- `piperead` of `n` bytes takes the oldest bytes of the pipe, as many as it holds up to `n`, and
-- returns their number, unless the pipe is empty with its write end open: then it takes nothing,
-- and fails if the caller is killed and sleeps if not. The pipe stays valid and keeps the rest.
pub piperead_lem :
    (killed : Bool) (p : Pipe) (n : ℕ)
    → IsValid p
    → let (stored, r) = piperead killed p n in
      IsValid r.pipe
      × (stored ≡ take n (contents p))
      × (contents r.pipe ≡ drop n (contents p))
      × (r.outcome ≡ (
          if is_empty p && p.writeopen
          then if killed then failed else asleep []
          else returned (length stored)))
unfolding piperead
piperead_lem killed p n v = elim (Bool-cases (is_empty p && p.writeopen)) [
  | inl wait ↦ ground (arith, empty_contents p v (ground arith), take-nil n, drop-nil n)
  | inr go ↦ let t = read_from-Took n p v in rw go (t.valid, t.stored, t.left, refl)
]
