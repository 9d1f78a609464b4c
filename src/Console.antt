-- ===== src/Console.antt =====
-- console.c: the line discipline of the input, and formatted output.
--
-- What `consputc` is given is kept in `out`; `BACKSPACE` is a value of its own. `getc` is a list of the
-- characters that it gives before a negative one. The locks are left out: `consoleintr` is one
-- step, and `consoleread` one up to where it sleeps.
pub mod Ring
pub mod Lines
pub mod Reads
mod Tests
use cs461_final_project_grub.Base.{
  ℕ, zero, suc, ◌+◌, ◌-◌, ◌*◌, ◌/◌, ◌%◌, ◌^◌, Bool, true, false, not, ◌&&◌, ◌||◌, ltb, leb, ◌==◌,
  if◌then◌else◌, Option, none, some, List, [], ◌∷◌, ◌++◌, update, ℤ, pos, negsuc, sub_ℕ,
}

abbrev pub backspace : ℕ
backspace = 0x100

abbrev pub input_buf : ℕ
input_buf = 128

-- `input`, the output, and how often the readers were woken up.
pub record Console : Type 0 where
  pub buf : ℕ → ℕ
  pub r : ℕ
  pub w : ℕ
  pub e : ℕ
  pub out : List ℕ
  pub wakeups : ℕ

abbrev pub consputc : ℕ → Console → Console
consputc c s = record s { out = s.out ++ (c ∷ []) }

-- `x - 1` and `x + n` of a `uint`.
abbrev pub uint_pred : ℕ → ℕ
uint_pred x = (x + 2 ^ 32 - 1) % 2 ^ 32

abbrev pub uint_plus : ℕ → ℕ → ℕ
uint_plus x n = (x + n) % 2 ^ 32

-- The loop of `C('U')`, with `k` rounds left.
unfoldable pub kill_line : ℕ → Console → Console
kill_line zero s = s
kill_line (suc k) s =
    let more = kill_line k (consputc backspace (record s { e = uint_pred s.e })) in
    if not (s.e == s.w) && not (s.buf (uint_pred s.e % input_buf) == 10) then more else s

unfoldable pub rub_out : Console → Console
rub_out s = if s.e == s.w then s else consputc backspace (record s { e = uint_pred s.e })

-- The end of the `default` case.
unfoldable pub finish : ℕ → Console → Console
finish c s =
    if c == 10 || c == 4 || s.e == uint_plus s.r input_buf
    then record s { w = s.e; wakeups = s.wakeups + 1 }
    else s

unfoldable pub store_key : ℕ → Console → Console
store_key c s =
    finish c (consputc c (record s { buf = update s.buf (s.e % input_buf) c; e = uint_plus s.e 1 }))

-- One round of `consoleintr`. `C('Z')` and `C('P')` act outside of the console.
unfoldable pub key : ℕ → Console → Console
key c s =
    if c == 26 || c == 16
    then s
    else if c == 21
    then kill_line ((s.e + 2 ^ 32 - s.w) % 2 ^ 32) s
    else if c == 8 || c == 127
    then rub_out s
    else if not (c == 0) && ltb ((s.e + 2 ^ 32 - s.r) % 2 ^ 32) input_buf
    then store_key (if c == 13 then 10 else c) s
    else s

unfoldable pub consoleintr : List ℕ → Console → Console
consoleintr [] s = s
consoleintr (c ∷ cs) s = consoleintr cs (key c s)

-- What `consoleread` comes to: the bytes it has copied, and the state. `asleep` goes on where it was, with
-- the bytes that are still wanted.
pub data Reply : Type 0 where
  done : List ℕ → Console → Reply
  asleep : List ℕ → (wanted : ℕ) → Console → Reply
  killed_reader : Console → Reply

-- A byte in front of the bytes of a reply.
unfoldable pub cons_reply : ℕ → Reply → Reply
cons_reply c (done bytes s) = done (c ∷ bytes) s
cons_reply c (asleep bytes wanted s) = asleep (c ∷ bytes) wanted s
cons_reply c (killed_reader s) = killed_reader s

-- The loop of `consoleread`, with `n` bytes wanted; `begun` says that some have been copied.
unfoldable pub read_line : Bool → (begun : Bool) → ℕ → Console → Reply
read_line killed begun zero s = done [] s
read_line killed begun (suc n) s =
    let c = s.buf (s.r % input_buf) in
    let s' = record s { r = uint_plus s.r 1 } in
    let more = read_line killed true n s' in
    if s.r == s.w
    then (if killed then killed_reader s else asleep [] (suc n) s)
    else if c == 4
    then done [] (if begun then record s' { r = uint_pred s'.r } else s')
    else if c == 10
    then done (c ∷ []) s'
    else cons_reply c more

unfoldable pub consoleread : Bool → ℕ → Console → Reply
consoleread killed n s = read_line killed false n s

unfoldable pub consolewrite : List ℕ → Console → Console
consolewrite [] s = s
consolewrite (c ∷ bytes) s = consolewrite bytes (consputc (c % 256) s)

-- `digits[d]`
abbrev pub digit : ℕ → ℕ
digit d = if ltb d 10 then b'0' + d else b'a' + (d - 10)

-- The loops of `print_x32` and `print_x64`: `k` digits of a `w`-bit number.
unfoldable pub print_hex : ℕ → ℕ → ℕ → Console → Console
print_hex w zero x s = s
print_hex w (suc k) x s = print_hex w k (x * 16 % 2 ^ w) (consputc (digit (x / 2 ^ (w - 4))) s)

unfoldable pub print_x32 : ℕ → Console → Console
print_x32 x s = print_hex 32 8 x s

unfoldable pub print_x64 : ℕ → Console → Console
print_x64 x s = print_hex 64 16 x s

-- The loop of `print_d` on fuel, a unit for each digit: the digits, the highest first, in front of `buf`.
unfoldable pub digits_of : ℕ → ℕ → List ℕ → List ℕ
digits_of zero x buf = buf
digits_of (suc f) x buf =
    let more = digits_of f (x / 10) (digit (x % 10) ∷ buf) in
    if x / 10 == 0 then digit (x % 10) ∷ buf else more

unfoldable pub put_all : List ℕ → Console → Console
put_all [] s = s
put_all (c ∷ cs) s = put_all cs (consputc c s)

unfoldable pub print_d : ℤ → Console → Console
print_d (pos n) s = put_all (digits_of (n + 1) n []) s
print_d (negsuc n) s = put_all (b'-' ∷ digits_of (n + 2) (n + 1) []) s

-- An argument of `cprintf`, as its conversion takes it.
pub data Argument : Type 0 where
  int_arg : ℤ → Argument
  word_arg : ℕ → Argument
  string_arg : Option (List ℕ) → Argument

-- A conversion with the next argument; one that does not fit it is not defined in C, and prints nothing here.
unfoldable pub convert : ℕ → Option Argument → Console → Console
convert c none s = s
convert c (some (int_arg v)) s = if c == b'd' then print_d v s else s
convert c (some (word_arg x)) s =
    if c == b'x' then print_x32 (x % 2 ^ 32) s else if c == b'p' then print_x64 x s else s
convert c (some (string_arg t)) s =
    if c == b's'
    then put_all
        (elim t [ none ↦ b'(' ∷ b'n' ∷ b'u' ∷ b'l' ∷ b'l' ∷ b')' ∷ [] | some bytes ↦ bytes ]) s
    else s

abbrev pub head? : List Argument → Option Argument
head? [] = none
head? (a ∷ args) = some a

abbrev pub tail : List Argument → List Argument
tail [] = []
tail (a ∷ args) = args

-- The format is its bytes up to the terminating 0.
unfoldable pub cprintf : List ℕ → List Argument → Console → Console
cprintf [] args s = s
cprintf (c ∷ []) args s = if c == b'%' then s else consputc c s
cprintf (c ∷ d ∷ fmt) args s =
    let plain = cprintf (d ∷ fmt) args (consputc c s) in
    let converted = cprintf fmt (tail args) (convert d (head? args) s) in
    let percent = cprintf fmt args (consputc b'%' s) in
    let unknown = cprintf fmt args (consputc d (consputc b'%' s)) in
    if not (c == b'%')
    then plain
    else if d == b'd' || d == b'x' || d == b'p' || d == b's'
    then converted
    else if d == b'%'
    then percent
    else unknown
