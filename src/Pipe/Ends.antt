-- ===== src/Pipe/Ends.antt =====
-- A pipe over its life: the stream that its two ends exchange, and when its page is freed.
use mathlib.Core.List.{append_assoc}
use cs461_final_project_grub.Base.{
  ℕ, zero, suc, ◌-◌, ◌≡◌, ◌∙◌, sym, refl, ap, Bool, true, false, List, [], ◌∷◌, ◌++◌, take, drop,
  arith,
}
use cs461_final_project_grub.Pipe.{Pipe, pipe_size, pipewrite, piperead, pipeclose}
use cs461_final_project_grub.Pipe.Fifo.{IsValid, count, contents, pipewrite-Wrote, piperead_lem}

-- One call at an end of the pipe, with the caller's `killed` flag.
pub data Call : Type 0 where
  write : Bool → List ℕ → Call
  read : Bool → ℕ → Call
  close : Bool → Call

pub record Traffic : Type 0 where
  pub accepted : List ℕ
  pub delivered : List ℕ
  pub pipe : Pipe

-- One call, and what it adds to the bytes that were accepted and delivered. A write that fails or
-- sleeps has put as many bytes into the pipe as there was room for.
unfoldable pub call : Traffic → Call → Traffic
call t (write killed cs) = record {
  accepted = t.accepted ++ take (pipe_size - count t.pipe) cs;
  delivered = t.delivered;
  pipe = (pipewrite killed t.pipe cs).pipe;
}
call t (read killed n) = record {
  accepted = t.accepted;
  delivered = t.delivered ++ (piperead killed t.pipe n).0;
  pipe = (piperead killed t.pipe n).1.pipe;
}
call t (close writable) = record t { pipe = (pipeclose t.pipe writable).0 }

unfoldable pub run : Traffic → List Call → Traffic
run t [] = t
run t (c ∷ cs) = run (call t c) cs

-- Nothing is lost, doubled or reordered.
abbrev pub IsFaithful : Traffic → Type 0
IsFaithful t = IsValid t.pipe × (t.delivered ++ contents t.pipe ≡ t.accepted)

take-append-drop : (n : ℕ) (xs : List ℕ) → take n xs ++ drop n xs ≡ xs
take-append-drop zero xs = refl
take-append-drop (suc n) [] = refl
take-append-drop (suc n) (x ∷ xs) = rw (take-append-drop n xs)

pipeclose-IsValid :
    (p : Pipe) (w : Bool)
    → IsValid p
    → IsValid (pipeclose p w).0 × (contents (pipeclose p w).0 ≡ contents p)
unfolding pipeclose
pipeclose-IsValid p true v = (ground arith, refl)
pipeclose-IsValid p false v = (ground arith, refl)

call-IsFaithful : (t : Traffic) (c : Call) → IsFaithful t → IsFaithful (call t c)
unfolding call
call-IsFaithful t (write killed cs) (v, e) =
    let w = pipewrite-Wrote killed t.pipe cs v in
    (
      w.valid,
      rw w.queued (
          sym (append_assoc t.delivered (contents t.pipe) (take (pipe_size - count t.pipe) cs))
          ∙ ap (λ l. l ++ take (pipe_size - count t.pipe) cs) e),
    )
call-IsFaithful t (read killed n) (v, e) =
    let (valid, stored, left, _) = piperead_lem killed t.pipe n v in
    (
      valid,
      rw (stored, left)
          (append_assoc t.delivered (take n (contents t.pipe)) (drop n (contents t.pipe))
            ∙ (ap (λ l. t.delivered ++ l) (take-append-drop n (contents t.pipe)) ∙ e)),
    )
call-IsFaithful t (close w) (v, e) =
    let (valid, same) = pipeclose-IsValid t.pipe w v in (valid, rw same e)

-- Over any sequence of writes, reads and closes on a valid pipe, the bytes that readers got,
-- followed by those still in the pipe, are the bytes that the writes put in, in order, and the pipe
-- stays valid.
pub run-IsFaithful : (t : Traffic) (cs : List Call) → IsFaithful t → IsFaithful (run t cs)
unfolding run
run-IsFaithful t [] h = h
run-IsFaithful t (c ∷ cs) h = run-IsFaithful (call t c) cs (call-IsFaithful t c h)
