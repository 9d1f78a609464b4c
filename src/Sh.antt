-- ===== src/Sh.antt =====
-- sh.c: tokens and the command parser.
--
-- The line is its bytes up to the terminating 0; `*ps` is what is left of it. The string between two
-- pointers `q` and `eq` is its bytes, which is what `nulterminate` makes of it in the end. A
-- `panic` prints a message and exits.
pub mod Tokens
pub mod Settles
pub mod Fuel
pub mod Grammar
pub mod Reading
pub mod Arguments
pub mod RoundTrip
mod Tests
use cs461_final_project_grub.Base.{
  ℕ, zero, suc, ◌+◌, ◌-◌, ◌*◌, Bool, true, false, not, ◌&&◌, ◌||◌, ltb, leb, ◌==◌, if◌then◌else◌,
  List, [], ◌∷◌, length,
}

-- `struct cmd` and its five kinds.
pub data Cmd : Type 0 where
  exec : (argv : List (List ℕ)) → Cmd
  redir : Cmd → (file : List ℕ) → (mode fd : ℕ) → Cmd
  pipe list : (left right : Cmd) → Cmd
  back : Cmd → Cmd

-- What a parsing function comes to.
pub data Result {ℓ} (A : Type ℓ) : Type ℓ where
  ok : A → Result A
  panic : Result A
  out_of_fuel : Result A

infixl 5 ◌>>=◌
abbrev pub ◌>>=◌ {ℓ κ} : {A : Type ℓ} {B : Type κ} → Result A → (A → Result B) → Result B
ok a >>= f = f a
panic >>= f = panic
out_of_fuel >>= f = out_of_fuel

-- `strchr`, for a character that is not 0.
abbrev pub strchr : ℕ → List ℕ → Bool
strchr c [] = false
strchr c (d ∷ ds) = d == c || strchr c ds

abbrev pub whitespace : List ℕ
whitespace = 32 ∷ 9 ∷ 13 ∷ 10 ∷ 11 ∷ []

abbrev pub symbols : List ℕ
symbols = b'<' ∷ b'|' ∷ b'>' ∷ b'&' ∷ b';' ∷ b'(' ∷ b')' ∷ []

-- `while(s < es && strchr(whitespace, *s)) s++`
unfoldable pub skip : List ℕ → List ℕ
skip [] = []
skip (c ∷ s) = if strchr c whitespace then skip s else c ∷ s

-- The loop over the bytes of a word: the word, and what follows it.
unfoldable pub word : List ℕ → List ℕ × List ℕ
word [] = ([], [])
word (c ∷ s) =
    let (w, rest) = word s in
    if strchr c whitespace || strchr c symbols then ([], c ∷ s) else (c ∷ w, rest)

-- What `gettoken` leaves: its value, the token, and the line behind it.
pub record Token : Type 0 where
  pub value : ℕ
  pub text : List ℕ
  pub rest : List ℕ

-- The part behind the `case '>'`.
unfoldable pub greater : List ℕ → Token
greater [] = record { value = b'>'; text = b'>' ∷ []; rest = [] }
greater (c ∷ s) =
    if c == b'>'
    then record { value = b'+'; text = b'>' ∷ b'>' ∷ []; rest = skip s }
    else record { value = b'>'; text = b'>' ∷ []; rest = skip (c ∷ s) }

-- `gettoken` behind the leading white space.
unfoldable pub token : List ℕ → Token
token [] = record { value = 0; text = []; rest = [] }
token (c ∷ s) =
    if c == 0
    then record { value = 0; text = []; rest = skip (c ∷ s) }
    else if strchr c (b'|' ∷ b'(' ∷ b')' ∷ b';' ∷ b'&' ∷ b'<' ∷ [])
    then record { value = c; text = c ∷ []; rest = skip s }
    else if c == b'>'
    then greater s
    else record { value = b'a'; text = (word (c ∷ s)).0; rest = skip (word (c ∷ s)).1 }

unfoldable pub gettoken : List ℕ → Token
gettoken s = token (skip s)

-- `peek`, whose caller goes on at `skip s`.
abbrev pub starts : List ℕ → List ℕ → Bool
starts [] toks = false
starts (c ∷ s) toks = not (c == 0) && strchr c toks

unfoldable pub peek : List ℕ → List ℕ → Bool
peek s toks = starts (skip s) toks

-- The redirections of a command, outermost first.
pub record Redir : Type 0 where
  pub file : List ℕ
  pub mode : ℕ
  pub fd : ℕ

unfoldable pub wrap : List Redir → Cmd → Cmd
wrap [] cmd = cmd
wrap (r ∷ rs) cmd = redir (wrap rs cmd) r.file r.mode r.fd

-- `O_RDONLY`, or `O_WRONLY|O_CREATE` for `>` and for `>>`.
unfoldable pub redir_of : ℕ → List ℕ → Redir
redir_of tok file =
    if tok == b'<'
    then record { file = file; mode = 0; fd = 0 }
    else record { file = file; mode = 0x201; fd = 1 }

-- The loop of `parseredirs`, with `k` rounds left.
unfoldable pub parseredirs : ℕ → List Redir → List ℕ → Result (List Redir × List ℕ)
parseredirs zero rs s = if peek s (b'<' ∷ b'>' ∷ []) then out_of_fuel else ok (rs, skip s)
parseredirs (suc k) rs s =
    let more =
      parseredirs k (redir_of (gettoken s).value (gettoken (gettoken s).rest).text ∷ rs)
        (gettoken (gettoken s).rest).rest in
    if peek s (b'<' ∷ b'>' ∷ [])
    then (if (gettoken (gettoken s).rest).value == b'a' then more else panic)
    else ok (rs, skip s)

abbrev pub maxargs : ℕ
maxargs = 10

-- The loop of `parseexec`, with `k` rounds left; `argc` words have been read. The `execcmd` that the
-- words go to stands inside the redirections read so far.
unfoldable pub parseargs :
    ℕ → ℕ → List Redir → List ℕ → Result (List (List ℕ) × List Redir × List ℕ)
parseargs zero argc rs s =
    if peek s (b'|' ∷ b')' ∷ b'&' ∷ b';' ∷ [])
    then ok ([], rs, skip s)
    else if (gettoken s).value == 0
    then ok ([], rs, (gettoken s).rest)
    else out_of_fuel
parseargs (suc k) argc rs s =
    let more = (do
      (rs', s') ← parseredirs (length s) rs (gettoken s).rest
      (argv, rs'', s'') ← parseargs k (argc + 1) rs' s'
      ok ((gettoken s).text ∷ argv, rs'', s'')) in
    if peek s (b'|' ∷ b')' ∷ b'&' ∷ b';' ∷ [])
    then ok ([], rs, skip s)
    else if (gettoken s).value == 0
    then ok ([], rs, (gettoken s).rest)
    else if not ((gettoken s).value == b'a')
    then panic
    else if leb maxargs (argc + 1)
    then panic
    else more

-- The first loop of `parseline`, with `k` rounds left.
unfoldable pub parsebacks : ℕ → Cmd → List ℕ → Result (Cmd × List ℕ)
parsebacks zero cmd s = if peek s (b'&' ∷ []) then out_of_fuel else ok (cmd, skip s)
parsebacks (suc k) cmd s =
    let more = parsebacks k (back cmd) (gettoken s).rest in
    if peek s (b'&' ∷ []) then more else ok (cmd, skip s)

-- The `if` at the end of `parseline` and of `parsepipe`: is there a separator, and the rest of the line.
abbrev pub follow :
    Bool → (Cmd → Cmd) → Cmd × List ℕ → Result (Cmd × List ℕ) → Result (Cmd × List ℕ)
follow false join alone rest = ok alone
follow true join alone rest = do (right, s) ← rest; ok (join right, s)

-- A call of another of these functions costs a unit of fuel.
unfoldable mutual
  pub parseline : ℕ → List ℕ → Result (Cmd × List ℕ)
  parseline zero s = out_of_fuel
  parseline (suc f) s = do
    (cmd, s1) ← parsepipe f s
    (cmd', s2) ← parsebacks (length s1) cmd s1
    follow (peek s2 (b';' ∷ [])) (list cmd') (cmd', skip s2) (parseline f (gettoken s2).rest)

  pub parsepipe : ℕ → List ℕ → Result (Cmd × List ℕ)
  parsepipe zero s = out_of_fuel
  parsepipe (suc f) s = do
    (cmd, s1) ← parseexec f s
    follow (peek s1 (b'|' ∷ [])) (pipe cmd) (cmd, skip s1) (parsepipe f (gettoken s1).rest)

  pub parseexec : ℕ → List ℕ → Result (Cmd × List ℕ)
  parseexec zero s = out_of_fuel
  parseexec (suc f) s =
      let block = parseblock f (skip s) in
      let simple = (do
        (rs, s1) ← parseredirs (length s) [] s
        (argv, rs', s2) ← parseargs (length s) 0 rs s1
        ok (wrap rs' (exec argv), s2)) in
      if peek s (b'(' ∷ []) then block else simple

  pub parseblock : ℕ → List ℕ → Result (Cmd × List ℕ)
  parseblock zero s = out_of_fuel
  parseblock (suc f) s =
      let inner = (do
        (cmd, s1) ← parseline f (gettoken s).rest
        (if not (peek s1 (b')' ∷ [])) then panic else (do
          (rs, s2) ← parseredirs (length s) [] (gettoken s1).rest
          ok (wrap rs cmd, s2)))) in
      if peek s (b'(' ∷ []) then inner else panic

-- `parsecmd`, up to `nulterminate`.
unfoldable pub parsecmd : List ℕ → Result Cmd
parsecmd s = do
  (cmd, s') ← parseline (4 * length s + 4) s
  (if leb 1 (length (skip s')) then panic else ok cmd)
