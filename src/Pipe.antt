-- ===== src/Pipe.antt =====
-- pipe.c: the ring buffer of a pipe, its two ends, and what the callers are told.
--
-- `nread` and `nwrite` are `uint`, so they wrap at 2^32. A call runs up to its return or to its
-- first `sleep`; a sleeping call hands back what it still has to do, and runs again when it is
-- woken. The `wakes` flag of a reply says that the call woke those who sleep at the other end.
pub mod Fifo
pub mod Ends
mod Tests
use cs461_final_project_grub.Base.{
  ℕ, zero, suc, ◌+◌, ◌-◌, ◌%◌, ◌^◌, Bool, true, false, not, ◌&&◌, ◌||◌, List, [], ◌∷◌, ◌==◌,
  if◌then◌else◌, update, length,
}

abbrev pub pipe_size : ℕ
pipe_size = 512

-- `struct pipe`, without its spin lock.
pub record Pipe : Type 0 where
  pub buf : ℕ → ℕ
  pub nread : ℕ
  pub nwrite : ℕ
  pub readopen : Bool
  pub writeopen : Bool

-- The part of `pipealloc` that sets up the new pipe, over whatever its page held.
unfoldable pub pipe_init : (ℕ → ℕ) → Pipe
pipe_init page = record { buf = page; nread = 0; nwrite = 0; readopen = true; writeopen = true }

pub data Outcome : Type 0 where
  failed : Outcome
  returned : ℕ → Outcome
  asleep : List ℕ → Outcome

pub record Reply : Type 0 where
  pub outcome : Outcome
  pub wakes : Bool
  pub pipe : Pipe

abbrev pub is_full : Pipe → Bool
is_full p = p.nwrite == (p.nread + pipe_size) % 2 ^ 32

abbrev pub is_empty : Pipe → Bool
is_empty p = p.nread == p.nwrite

-- `p->data[p->nwrite++ % PIPESIZE] = c`
unfoldable pub put : Pipe → ℕ → Pipe
put p c = record p { buf = update p.buf (p.nwrite % pipe_size) c; nwrite = (p.nwrite + 1) % 2 ^ 32 }

-- The loop of `pipewrite`, over the bytes that are left; `n` is the length of the whole write.
unfoldable pub write_from : Bool → ℕ → Pipe → List ℕ → Reply
write_from killed n p [] = record { outcome = returned n; wakes = true; pipe = p }
write_from killed n p (c ∷ cs) =
    let rest = write_from killed n (put p c) cs in
    if is_full p
    then (if not p.readopen || killed
        then record { outcome = failed; wakes = false; pipe = p }
        else record { outcome = asleep (c ∷ cs); wakes = true; pipe = p })
    else rest

unfoldable pub pipewrite : Bool → Pipe → List ℕ → Reply
pipewrite killed p addr = write_from killed (length addr) p addr

-- `p->nread++`, and the byte before it.
unfoldable pub head : Pipe → ℕ
head p = p.buf (p.nread % pipe_size)

unfoldable pub advance : Pipe → Pipe
advance p = record p { nread = (p.nread + 1) % 2 ^ 32 }

-- The copy loop of `piperead`, with `k` rounds left: the bytes, and the pipe after it.
unfoldable pub read_from : ℕ → Pipe → List ℕ × Pipe
read_from zero p = ([], p)
read_from (suc k) p =
    let rest = read_from k (advance p) in if is_empty p then ([], p) else (head p ∷ rest.0, rest.1)

-- `piperead`: the bytes that it stores at `addr`, and the reply.
unfoldable pub piperead : Bool → Pipe → ℕ → List ℕ × Reply
piperead killed p n =
    if is_empty p && p.writeopen
    then (if killed
        then ([], record { outcome = failed; wakes = false; pipe = p })
        else ([], record { outcome = asleep []; wakes = false; pipe = p }))
    else (let (bytes, p') = read_from n p in
        (bytes, record { outcome = returned (length bytes); wakes = true; pipe = p' }))

-- `pipeclose`: the pipe afterwards, and whether its page was freed.
unfoldable pub pipeclose : Pipe → Bool → Pipe × Bool
pipeclose p writable =
    let p' = if writable then record p { writeopen = false } else record p { readopen = false } in
    (p', not p'.readopen && not p'.writeopen)
