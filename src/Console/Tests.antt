-- ===== src/Console/Tests.antt =====
-- Runs of console.c and the theorems at concrete inputs.
use cs461_final_project_grub.Base.{ℕ, ◌≡◌, refl, false, List, [], ◌∷◌, arith, negsuc}
use cs461_final_project_grub.Console.{
  Console, int_arg, word_arg, key, consoleintr, kill_line, rub_out, finish, store_key, done,
  read_line, consoleread, cons_reply, cprintf, convert, print_d, print_x32, print_hex, digits_of,
  put_all,
}
use cs461_final_project_grub.Console.Lines.{key-IsLine}
use cs461_final_project_grub.Console.Ring.{IsLine, press}
use cs461_final_project_grub.Console.Reads.{Answers, answer, consoleread-Answers}

-- The indices are about to wrap around.
abbrev empty : Console
empty = record {
  buf = λ i. 0;
  r = 0xFFFF_FFFF;
  w = 0xFFFF_FFFF;
  e = 0xFFFF_FFFF;
  out = [];
  wakeups = 0;
}

empty-IsLine : IsLine empty [] []
empty-IsLine = record {
  bound = omega arith;
  write = refl;
  edit = refl;
  few = omega arith;
  ahead = tt;
  behind = tt;
  one_line = tt;
}

key-IsLine_example : IsLine (key b'a' empty) (press b'a' [] []).ready (press b'a' [] []).typed
key-IsLine_example = key-IsLine b'a' empty [] [] empty-IsLine

-- `a`, a backspace, `b` and a carriage return.
abbrev keys : List ℕ
keys = b'a' ∷ 8 ∷ b'b' ∷ 13 ∷ []

typed_line : IsLine (key 13 (key b'b' empty)) (b'b' ∷ 10 ∷ []) []
typed_line =
    key-IsLine 13 (key b'b' empty) [] (b'b' ∷ []) (key-IsLine b'b' empty [] [] empty-IsLine)

consoleread-Answers_example :
    Answers [] (answer false 5 (b'b' ∷ 10 ∷ [])) (consoleread false 5 (key 13 (key b'b' empty)))
consoleread-Answers_example =
    consoleread-Answers 5 (key 13 (key b'b' empty)) (b'b' ∷ 10 ∷ []) [] typed_line

read_run :
    (elim (consoleread false 5 (consoleintr keys empty)) [ done bytes s ↦ bytes | _ ↦ [] ])
    ≡ b'b' ∷ 10 ∷ []
unfolding consoleread read_line consoleintr key kill_line rub_out store_key finish cons_reply
read_run = refl

-- `%d!` and `%x`
cprintf_run :
    (cprintf
      (b'%' ∷ b'd' ∷ b'!' ∷ b'%' ∷ b'x' ∷ [])
      (int_arg (negsuc 41) ∷ word_arg 255 ∷ [])
      empty).out
    ≡ b'-' ∷ b'4' ∷ b'2' ∷ b'!' ∷ b'0' ∷ b'0' ∷ b'0' ∷ b'0' ∷ b'0' ∷ b'0' ∷ b'f' ∷ b'f' ∷ []
unfolding cprintf convert print_d print_x32 print_hex digits_of put_all
cprintf_run = refl
