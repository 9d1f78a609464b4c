-- ===== src/Sh/RoundTrip.antt =====
-- sh.c: the parser reads the lines of the grammar.

use cs461_final_project_grub.Base.{
  ℕ, zero, suc, ◌+◌, ◌*◌, ◌≡◌, ◌≤◌, ◌<◌, refl, ◌∙◌, true, List, [], ◌∷◌, ◌++◌, length,
  length-append, All, arith,
}
use cs461_final_project_grub.Sh.{
  strchr, whitespace, Cmd, pipe, list, ok, parseline, parsepipe, parseexec, parseblock, parsecmd,
}
use cs461_final_project_grub.Sh.Grammar.{
  Redirection, Arg, Line, last, seq, Pipeline, only, bar, Simple, words, block, Tok, bar_tok, semi,
  open_tok, close_tok, Gaps, print, redir_toks, arg_toks, amp_toks, line_toks, pipe_toks,
  simple_toks, redirs_of, backs, line_cmd, pipe_cmd, simple_cmd, LineFits, PipeFits, SimpleFits,
}
use cs461_final_project_grub.Sh.Reading.{
  skip_white, peek_white, skip_none, skip-print, gettoken-print, peek-print, no_one,
}
use cs461_final_project_grub.Sh.Arguments.{
  length-print, redirs_white, redirs_read, after_simple, after_pipe, after_line, simple-angle,
  line-amp, line-semi, pipe-bar, pipe-simple, line-pipe, args_angle, redirs_open, redir_toks_le,
  args_read, backs_read, amp_toks_le, arg_toks_le,
}

-- The fuel that a line takes is there: four units for each byte.
mutual
  line_need : Line → ℕ
  line_need (last p n) = 1 + pipe_need p
  line_need (seq p n l) = 1 + pipe_need p + line_need l

  pipe_need : Pipeline → ℕ
  pipe_need (only s) = 1 + simple_need s
  pipe_need (bar s p) = 1 + simple_need s + pipe_need p

  simple_need : Simple → ℕ
  simple_need (words rs args) = 1
  simple_need (block l rs) = 2 + line_need l

mutual
  unfolding line_need pipe_need simple_need line_toks pipe_toks simple_toks

  line_need_le :
      ⦃g : Gaps⦄ (l : Line) (ts : List Tok)
      → line_need l + 4 * length (print ts) ≤ 4 * length (print (line_toks l ts)) + 4
  line_need_le (last p n) ts =
      let le = pipe_need_le p (amp_toks n ts) in
      let amps = amp_toks_le n ts in omega (arith, le, amps)
  line_need_le (seq p n l) ts =
      let le = pipe_need_le p (amp_toks n (semi ∷ line_toks l ts)) in
      let amps = amp_toks_le n (semi ∷ line_toks l ts) in
      let sep = length-print semi (line_toks l ts) in
      let ih = line_need_le l ts in omega (arith, le, amps, ih, sep)

  pipe_need_le :
      ⦃g : Gaps⦄ (p : Pipeline) (ts : List Tok)
      → pipe_need p + 4 * length (print ts) ≤ 4 * length (print (pipe_toks p ts)) + 3
  pipe_need_le (only s) ts = let le = simple_need_le s ts in omega (arith, le)
  pipe_need_le (bar s p) ts =
      let le = simple_need_le s (bar_tok ∷ pipe_toks p ts) in
      let sep = length-print bar_tok (pipe_toks p ts) in
      let ih = pipe_need_le p ts in omega (arith, le, ih, sep)

  simple_need_le :
      ⦃g : Gaps⦄ (s : Simple) (ts : List Tok)
      → simple_need s + 4 * length (print ts) ≤ 4 * length (print (simple_toks s ts)) + 2
  simple_need_le (words rs args) ts =
      let le = redir_toks_le rs (arg_toks args ts) in
      let le' = arg_toks_le args ts in omega (arith, le, le')
  simple_need_le (block l rs) ts =
      let le = line_need_le l (close_tok ∷ redir_toks rs ts) in
      let opened = length-print open_tok (line_toks l (close_tok ∷ redir_toks rs ts)) in
      let closed = length-print close_tok (redir_toks rs ts) in
      let le' = redir_toks_le rs ts in omega (arith, le, le', opened, closed)

amps_after : (n : ℕ) (ts : List Tok) → after_pipe ts ≡ true → after_pipe (amp_toks n ts) ≡ true
amps_after zero ts h = h
amps_after (suc n) ts h = refl

module _ ⦃g : Gaps⦄ (f : ℕ) (s : List ℕ) (cmd : Cmd) (ts : List Tok) where
  line_last :
      (n : ℕ)
      → parsepipe f s ≡ ok (cmd, print (amp_toks n ts))
      → after_line ts ≡ true
      → parseline (suc f) s ≡ ok (backs n cmd, print ts)
  unfolding parseline
  line_last n e h =
      rw
        (
          e,
          backs_read (length (print (amp_toks n ts))) n cmd ts (omega arith) (line-amp ts h),
          peek-print ts (b';' ∷ []) (λ c. no_one c b';' refl) ∙ line-semi ts h,
          skip-print ts,
        )
        refl

  line_seq :
      (n : ℕ) (us : List Tok) (right : Cmd)
      → parsepipe f s ≡ ok (cmd, print (amp_toks n (semi ∷ us)))
      → parseline f (print us) ≡ ok (right, print ts)
      → parseline (suc f) s ≡ ok (list (backs n cmd) right, print ts)
  unfolding parseline
  line_seq n us right e e' =
      rw
        (
          e,
          backs_read (length (print (amp_toks n (semi ∷ us)))) n cmd (semi ∷ us) (omega arith) refl,
          peek-print (semi ∷ us) (b';' ∷ []) (λ c. no_one c b';' refl),
          gettoken-print semi us,
          e',
        )
        refl

  pipe_only :
      parseexec f s ≡ ok (cmd, print ts)
      → after_pipe ts ≡ true
      → parsepipe (suc f) s ≡ ok (cmd, print ts)
  unfolding parsepipe
  pipe_only e h =
      rw (e, peek-print ts (b'|' ∷ []) (λ c. no_one c b'|' refl) ∙ pipe-bar ts h, skip-print ts)
        refl

  pipe_more :
      (us : List Tok) (right : Cmd)
      → parseexec f s ≡ ok (cmd, print (bar_tok ∷ us))
      → parsepipe f (print us) ≡ ok (right, print ts)
      → parsepipe (suc f) s ≡ ok (pipe cmd right, print ts)
  unfolding parsepipe
  pipe_more us right e e' =
      rw
        (
          e,
          peek-print (bar_tok ∷ us) (b'|' ∷ []) (λ c. no_one c b'|' refl),
          gettoken-print bar_tok us,
          e',
        )
        refl

-- A simple command with white space in front of it.
module _ ⦃g : Gaps⦄ (f : ℕ) (l : List ℕ) (blank : All (λ c. strchr c whitespace ≡ true) l)
    (ts : List Tok) (h : after_simple ts ≡ true) where
  words_read :
      (rs : List Redirection) (args : List Arg)
      → length args < 10
      → parseexec (suc f) (l ++ print (simple_toks (words rs args) ts))
        ≡ ok (simple_cmd (words rs args), print ts)
  unfolding parseexec simple_toks simple_cmd
  words_read rs args few =
      let behind : List Tok = arg_toks args ts in
      let all : List Tok = redir_toks rs behind in
      let le = redir_toks_le rs behind in
      let size = length-append l (print all) in
      rw
        (
          peek_white l (print all) (b'(' ∷ []) blank
              ∙ peek-print all (b'(' ∷ []) (λ c. no_one c b'(' refl)
              ∙ redirs_open rs args ts h,
          redirs_white (length (l ++ print all)) [] l (print all) blank,
          redirs_read (length (l ++ print all)) rs [] behind (omega (arith, size))
              (args_angle args ts h),
          args_read (length (l ++ print all)) 0 args (redirs_of rs []) ts (omega (arith, le, size))
              (omega (arith, few)) h,
        )
        refl

  block_read :
      (inner : Line) (rs : List Redirection)
      → parseline f (print (line_toks inner (close_tok ∷ redir_toks rs ts)))
        ≡ ok (line_cmd inner, print (close_tok ∷ redir_toks rs ts))
      → parseexec (suc (suc f)) (l ++ print (simple_toks (block inner rs) ts))
        ≡ ok (simple_cmd (block inner rs), print ts)
  unfolding parseexec parseblock simple_toks simple_cmd
  block_read inner rs e =
      let behind : List Tok = redir_toks rs ts in
      let inside : List Tok = line_toks inner (close_tok ∷ behind) in
      let le = line_need_le inner (close_tok ∷ behind) in
      let opened = length-print open_tok inside in
      let closed = length-print close_tok behind in
      rw
        (
          peek_white l (print (open_tok ∷ inside)) (b'(' ∷ []) blank
              ∙ peek-print (open_tok ∷ inside) (b'(' ∷ []) (λ c. no_one c b'(' refl),
          skip_white l (print (open_tok ∷ inside)) blank ∙ skip-print (open_tok ∷ inside),
          peek-print (open_tok ∷ inside) (b'(' ∷ []) (λ c. no_one c b'(' refl),
          gettoken-print open_tok inside,
          e,
          peek-print (close_tok ∷ behind) (b')' ∷ []) (λ c. no_one c b')' refl),
          gettoken-print close_tok behind,
          redirs_read (length (print (open_tok ∷ inside))) rs [] ts
              (omega (arith, le, opened, closed)) (simple-angle ts h),
        )
        refl

line_positive : (l : Line) → ¬ (line_need l ≤ 0)
unfolding line_need
line_positive (last p n) le = omega (arith, le)
line_positive (seq p n l) le = omega (arith, le)

pipe_positive : (p : Pipeline) → ¬ (pipe_need p ≤ 0)
unfolding pipe_need
pipe_positive (only s) le = omega (arith, le)
pipe_positive (bar s p) le = omega (arith, le)

mutual
  unfolding line_need pipe_need simple_need line_toks pipe_toks simple_toks line_cmd pipe_cmd
      simple_cmd LineFits PipeFits SimpleFits parseline parsepipe parseexec parseblock

  line_read :
      ⦃g : Gaps⦄ (l : List ℕ) (r : Line) (f : ℕ) (ts : List Tok)
      → All (λ c. strchr c whitespace ≡ true) l
      → line_need r ≤ f
      → LineFits r
      → after_line ts ≡ true
      → parseline f (l ++ print (line_toks r ts)) ≡ ok (line_cmd r, print ts)
  line_read l r zero ts b le fits h = absurd (line_positive r le)
  line_read l (last p n) (suc f) ts b le fits h =
      line_last f (l ++ print (pipe_toks p (amp_toks n ts))) (pipe_cmd p) ts n
        (pipe_read l p f (amp_toks n ts) b (omega (arith, le)) fits
          (amps_after n ts (line-pipe ts h)))
        h
  line_read l (seq p n r) (suc f) ts b le fits h =
      let us : List Tok = line_toks r ts in
      line_seq f (l ++ print (pipe_toks p (amp_toks n (semi ∷ us)))) (pipe_cmd p) ts n us
        (line_cmd r)
        (pipe_read l p f (amp_toks n (semi ∷ us)) b (omega (arith, le)) fits.0
          (amps_after n (semi ∷ us) refl))
        (line_read [] r f ts tt (omega (arith, le)) fits.1 h)

  pipe_read :
      ⦃g : Gaps⦄ (l : List ℕ) (p : Pipeline) (f : ℕ) (ts : List Tok)
      → All (λ c. strchr c whitespace ≡ true) l
      → pipe_need p ≤ f
      → PipeFits p
      → after_pipe ts ≡ true
      → parsepipe f (l ++ print (pipe_toks p ts)) ≡ ok (pipe_cmd p, print ts)
  pipe_read l p zero ts b le fits h = absurd (pipe_positive p le)
  pipe_read l (only s) (suc f) ts b le fits h =
      pipe_only f (l ++ print (simple_toks s ts)) (simple_cmd s) ts
        (simple_read l s f ts b (omega (arith, le)) fits (pipe-simple ts h)) h
  pipe_read l (bar s p) (suc f) ts b le fits h =
      let us : List Tok = pipe_toks p ts in
      pipe_more f (l ++ print (simple_toks s (bar_tok ∷ us))) (simple_cmd s) ts us (pipe_cmd p)
        (simple_read l s f (bar_tok ∷ us) b (omega (arith, le)) fits.0 refl)
        (pipe_read [] p f ts tt (omega (arith, le)) fits.1 h)

  simple_read :
      ⦃g : Gaps⦄ (l : List ℕ) (s : Simple) (f : ℕ) (ts : List Tok)
      → All (λ c. strchr c whitespace ≡ true) l
      → simple_need s ≤ f
      → SimpleFits s
      → after_simple ts ≡ true
      → parseexec f (l ++ print (simple_toks s ts)) ≡ ok (simple_cmd s, print ts)
  simple_read l (words rs args) zero ts b le fits h = absurd (omega (arith, le))
  simple_read l (block r rs) zero ts b le fits h = absurd (omega (arith, le))
  simple_read l (words rs args) (suc f) ts b le fits h = words_read f l b ts h rs args fits
  simple_read l (block r rs) (suc zero) ts b le fits h = absurd (omega (arith, le))
  simple_read l (block r rs) (suc (suc f)) ts b le fits h =
      block_read f l b ts h r rs
        (line_read [] r f (close_tok ∷ redir_toks rs ts) tt (omega (arith, le)) fits refl)

-- `parsecmd` reads every line of the grammar, with any white space in front of it and behind each of its
-- tokens, and none needed but between two words, and gives the command that the line means, where no
-- simple command of it has `MAXARGS` words: lists, pipelines and blocks nest to any depth, a
-- redirection may stand in front of, among or behind the words, and any number of `&` behind a
-- pipeline.
pub parsecmd-print :
    ⦃g : Gaps⦄ (l : List ℕ) (r : Line)
    → All (λ c. strchr c whitespace ≡ true) l
    → LineFits r
    → parsecmd (l ++ print (line_toks r [])) ≡ ok (line_cmd r)
unfolding parsecmd
parsecmd-print l r blank fits =
    let s : List ℕ = l ++ print (line_toks r []) in
    let le = line_need_le r [] in
    let size = length-append l (print (line_toks r [])) in
    rw (line_read l r (4 * length s + 4) [] blank (omega (arith, le, size)) fits refl, skip_none)
      refl
