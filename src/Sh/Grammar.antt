-- ===== src/Sh/Grammar.antt =====
-- sh.c: the command lines that the parser reads, and what they mean.
use cs461_final_project_grub.Base.{
  ℕ, zero, suc, ◌≡◌, ◌≢◌, ◌<◌, Bool, true, false, ◌||◌, ◌==◌, List, [], ◌∷◌, ◌++◌, length, map, All,
}
use cs461_final_project_grub.Sh.{
  Cmd, exec, pipe, list, back, strchr, whitespace, symbols, Redir, wrap,
}

-- A byte of a word.
pub record Plain (c : ℕ) : Type 0 where
  pub bare : strchr c whitespace || strchr c symbols ≡ false
  pub char : c == 0 ≡ false

pub record Word : Type 0 where
  pub first : ℕ
  pub others : List ℕ
  pub plain : All Plain (first ∷ others)

abbrev pub chars : Word → List ℕ
chars w = w.first ∷ w.others

-- `<`, `>` or `>>` and the name of the file.
pub data Redirection : Type 0 where
  from to append : Word → Redirection

-- A word and the redirections behind it.
pub record Arg : Type 0 where
  pub name : Word
  pub redirs : List Redirection

mutual
  pub data Line : Type 0 where
    last : Pipeline → (amps : ℕ) → Line
    seq : Pipeline → (amps : ℕ) → Line → Line

  pub data Pipeline : Type 0 where
    only : Simple → Pipeline
    bar : Simple → Pipeline → Pipeline

  pub data Simple : Type 0 where
    words : List Redirection → List Arg → Simple
    block : Line → List Redirection → Simple

-- The tokens.
pub data Tok : Type 0 where
  less more twice bar_tok amp semi open_tok close_tok : Tok
  name : Word → Tok

abbrev pub text : Tok → List ℕ
text less = b'<' ∷ []
text more = b'>' ∷ []
text twice = b'>' ∷ b'>' ∷ []
text bar_tok = b'|' ∷ []
text amp = b'&' ∷ []
text semi = b';' ∷ []
text open_tok = b'(' ∷ []
text close_tok = b')' ∷ []
text (name w) = chars w

abbrev pub value : Tok → ℕ
value less = b'<'
value more = b'>'
value twice = b'+'
value bar_tok = b'|'
value amp = b'&'
value semi = b';'
value open_tok = b'('
value close_tok = b')'
value (name w) = b'a'

-- Two tokens that would be read as others if nothing stood between them.
abbrev pub touches : Tok → List Tok → Bool
touches (name v) (name w ∷ ts) = true
touches more (more ∷ ts) = true
touches more (twice ∷ ts) = true
touches t ts = false

-- The white space behind each token, by the token and those that follow it; a word needs some in front
-- of another word.
pub record Gaps : Type 0 where
  pub gap : Tok → List Tok → List ℕ
  pub white : (t : Tok) (ts : List Tok) → All (λ c. strchr c whitespace ≡ true) (gap t ts)
  pub kept : (t : Tok) (ts : List Tok) → touches t ts ≡ true → gap t ts ≢ []

abbrev pub print : ⦃g : Gaps⦄ → List Tok → List ℕ
print [] = []
print ⦃g⦄ (t ∷ ts) = text t ++ (g.gap t ts ++ print ts)

-- The tokens of a line, in front of `k`.
abbrev pub redir_toks : List Redirection → List Tok → List Tok
redir_toks [] k = k
redir_toks (from w ∷ rs) k = less ∷ name w ∷ redir_toks rs k
redir_toks (to w ∷ rs) k = more ∷ name w ∷ redir_toks rs k
redir_toks (append w ∷ rs) k = twice ∷ name w ∷ redir_toks rs k

abbrev pub arg_toks : List Arg → List Tok → List Tok
arg_toks [] k = k
arg_toks (a ∷ args) k = name a.name ∷ redir_toks a.redirs (arg_toks args k)

abbrev pub amp_toks : ℕ → List Tok → List Tok
amp_toks zero k = k
amp_toks (suc n) k = amp ∷ amp_toks n k

unfoldable mutual
  pub line_toks : Line → List Tok → List Tok
  line_toks (last p n) k = pipe_toks p (amp_toks n k)
  line_toks (seq p n l) k = pipe_toks p (amp_toks n (semi ∷ line_toks l k))

  pub pipe_toks : Pipeline → List Tok → List Tok
  pipe_toks (only s) k = simple_toks s k
  pipe_toks (bar s p) k = simple_toks s (bar_tok ∷ pipe_toks p k)

  pub simple_toks : Simple → List Tok → List Tok
  simple_toks (words rs args) k = redir_toks rs (arg_toks args k)
  simple_toks (block l rs) k = open_tok ∷ line_toks l (close_tok ∷ redir_toks rs k)

-- What a line means. A later redirection stands outside an earlier one, wherever they stand among the words.
abbrev pub meant : Redirection → Redir
meant (from w) = record { file = chars w; mode = 0; fd = 0 }
meant (to w) = record { file = chars w; mode = 0x201; fd = 1 }
meant (append w) = record { file = chars w; mode = 0x201; fd = 1 }

abbrev pub redirs_of : List Redirection → List Redir → List Redir
redirs_of [] rs = rs
redirs_of (r ∷ l) rs = redirs_of l (meant r ∷ rs)

abbrev pub arg_redirs : List Arg → List Redir → List Redir
arg_redirs [] rs = rs
arg_redirs (a ∷ args) rs = arg_redirs args (redirs_of a.redirs rs)

abbrev pub backs : ℕ → Cmd → Cmd
backs zero cmd = cmd
backs (suc n) cmd = backs n (back cmd)

unfoldable mutual
  pub line_cmd : Line → Cmd
  line_cmd (last p n) = backs n (pipe_cmd p)
  line_cmd (seq p n l) = list (backs n (pipe_cmd p)) (line_cmd l)

  pub pipe_cmd : Pipeline → Cmd
  pipe_cmd (only s) = simple_cmd s
  pipe_cmd (bar s p) = pipe (simple_cmd s) (pipe_cmd p)

  pub simple_cmd : Simple → Cmd
  simple_cmd (words rs args) =
      wrap (arg_redirs args (redirs_of rs [])) (exec (map (λ a. chars a.name) args))
  simple_cmd (block l rs) = wrap (redirs_of rs []) (line_cmd l)

-- No simple command has `MAXARGS` words.
unfoldable mutual
  pub LineFits : Line → Type 0
  LineFits (last p n) = PipeFits p
  LineFits (seq p n l) = PipeFits p × LineFits l

  pub PipeFits : Pipeline → Type 0
  PipeFits (only s) = SimpleFits s
  PipeFits (bar s p) = SimpleFits s × PipeFits p

  pub SimpleFits : Simple → Type 0
  SimpleFits (words rs args) = length args < 10
  SimpleFits (block l rs) = LineFits l
