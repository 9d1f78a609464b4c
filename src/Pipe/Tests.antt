-- ===== src/Pipe/Tests.antt =====
-- Runs of pipe.c and the theorems at concrete inputs.
use cs461_final_project_grub.Base.{
  ◌≡◌, refl, true, false, ◌&&◌, arith, [], ◌∷◌, length, if◌then◌else◌,
}
use cs461_final_project_grub.Pipe.{Pipe, returned, asleep, is_empty, pipewrite, piperead, pipe_init}
use cs461_final_project_grub.Pipe.Fifo.{
  IsValid, contents, bytes, Wrote, pipewrite-Wrote, piperead_lem,
}
use cs461_final_project_grub.Pipe.Ends.{write, read, close, run, IsFaithful, run-IsFaithful}

-- Both counters are about to wrap.
abbrev wrapping : Pipe
wrapping = record {
  buf = λ i. i;
  nread = 0xffff_ffff;
  nwrite = 0;
  readopen = true;
  writeopen = true;
}

wrapping-IsValid : IsValid wrapping
wrapping-IsValid = omega arith

contents-wrapping : contents wrapping ≡ 511 ∷ []
unfolding bytes
contents-wrapping = refl

pipewrite-Wrote_example :
    Wrote false 2 wrapping (7 ∷ 8 ∷ []) (pipewrite false wrapping (7 ∷ 8 ∷ []))
pipewrite-Wrote_example = pipewrite-Wrote false wrapping (7 ∷ 8 ∷ []) wrapping-IsValid

piperead_lem_example :
    let (stored, r) = piperead false wrapping 4 in
    IsValid r.pipe
    × (stored ≡ 511 ∷ [])
    × (contents r.pipe ≡ [])
    × (r.outcome ≡ (if is_empty wrapping && true then asleep [] else returned (length stored)))
unfolding bytes
piperead_lem_example = piperead_lem false wrapping 4 wrapping-IsValid

run-IsFaithful_example : IsFaithful (
    run
      (record { accepted = []; delivered = []; pipe = pipe_init (λ i. 0) })
      (write false (1 ∷ 2 ∷ []) ∷ read false 1 ∷ close true ∷ []))
unfolding pipe_init bytes
run-IsFaithful_example =
    run-IsFaithful (record { accepted = []; delivered = []; pipe = pipe_init (λ i. 0) })
      (write false (1 ∷ 2 ∷ []) ∷ read false 1 ∷ close true ∷ []) (omega arith, refl)
