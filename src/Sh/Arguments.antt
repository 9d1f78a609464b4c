-- ===== src/Sh/Arguments.antt =====
-- sh.c: `parseredirs`, `parseexec` and the `&` of `parseline` on the tokens of a line.

use cs461_final_project_grub.Base.{
  ℕ, zero, suc, ◌+◌, ◌≡◌, ◌≤◌, ◌<◌, refl, ap, ◌∙◌, Bool, true, false, Option, some, none, leb, List,
  [], ◌∷◌, ◌++◌, length, length-append, map, All, arith,
}
use cs461_final_project_grub.Sh.{
  Cmd, back, ok, strchr, whitespace, skip, token, gettoken, peek, Redir, redir_of, parseredirs,
  parseargs, maxargs, parsebacks,
}
use cs461_final_project_grub.Sh.Grammar.{
  Word, chars, Redirection, from, to, append, Arg, Tok, less, more, twice, bar_tok, semi, open_tok,
  close_tok, amp, name, text, value, Gaps, print, redir_toks, arg_toks, amp_toks, meant, redirs_of,
  arg_redirs, backs,
}
use cs461_final_project_grub.Sh.Reading.{
  skip_white, peek_white, gettoken_white, skip-print, gettoken-print, separator, found, opens,
  begins, peek-print, no_angle, no_stop, no_one,
}

-- `parseredirs` reads a redirection.
pub redir_step :
    ⦃g : Gaps⦄ (k : ℕ) (rs : List Redir) (t : Tok) (w : Word) (ts : List Tok)
    → begins (t ∷ []) (b'<' ∷ b'>' ∷ []) ≡ true
    → parseredirs (suc k) rs (print (t ∷ name w ∷ ts))
      ≡ parseredirs k (redir_of (value t) (chars w) ∷ rs) (print ts)
unfolding parseredirs
redir_step k rs t w ts h =
    rw
      (
        peek-print (t ∷ name w ∷ ts) (b'<' ∷ b'>' ∷ []) no_angle ∙ h,
        gettoken-print t (name w ∷ ts),
        gettoken-print (name w) ts,
      )
      refl

pub redirs_none :
    ⦃g : Gaps⦄ (k : ℕ) (rs : List Redir) (ts : List Tok)
    → begins ts (b'<' ∷ b'>' ∷ []) ≡ false
    → parseredirs k rs (print ts) ≡ ok (rs, print ts)
unfolding parseredirs
redirs_none zero rs ts h =
    rw (peek-print ts (b'<' ∷ b'>' ∷ []) no_angle ∙ h) (ap (λ s. ok (rs, s)) (skip-print ts))
redirs_none (suc k) rs ts h =
    rw (peek-print ts (b'<' ∷ b'>' ∷ []) no_angle ∙ h) (ap (λ s. ok (rs, s)) (skip-print ts))

text_positive : (t : Tok) → 0 < length (text t)
text_positive less = omega arith
text_positive more = omega arith
text_positive twice = omega arith
text_positive bar_tok = omega arith
text_positive amp = omega arith
text_positive semi = omega arith
text_positive open_tok = omega arith
text_positive close_tok = omega arith
text_positive (name w) = omega arith

pub length-print :
    ⦃g : Gaps⦄ (t : Tok) (ts : List Tok) → length (print ts) < length (print (t ∷ ts))
length-print ⦃g⦄ t ts =
    let one = text_positive t in
    let all = length-append (text t) (g.gap t ts ++ print ts) in
    let behind = length-append (g.gap t ts) (print ts) in omega (arith, one, all, behind)

pub redirs_read :
    ⦃g : Gaps⦄ (k : ℕ) (rl : List Redirection) (rs : List Redir) (ts : List Tok)
    → length (print (redir_toks rl ts)) ≤ k
    → begins ts (b'<' ∷ b'>' ∷ []) ≡ false
    → parseredirs k rs (print (redir_toks rl ts)) ≡ ok (redirs_of rl rs, print ts)
unfolding redir_of
redirs_read k [] rs ts le h = redirs_none k rs ts h
redirs_read zero (from w ∷ rl) rs ts le h = absurd (omega arith)
redirs_read zero (to w ∷ rl) rs ts le h = absurd (omega arith)
redirs_read zero (append w ∷ rl) rs ts le h = absurd (omega arith)
redirs_read (suc k) (from w ∷ rl) rs ts le h =
    let sep = length-print less (name w ∷ redir_toks rl ts) in
    let size = length-print (name w) (redir_toks rl ts) in
    redir_step k rs less w (redir_toks rl ts) refl
    ∙ redirs_read k rl (meant (from w) ∷ rs) ts (omega (arith, size, sep)) h
redirs_read (suc k) (to w ∷ rl) rs ts le h =
    let sep = length-print more (name w ∷ redir_toks rl ts) in
    let size = length-print (name w) (redir_toks rl ts) in
    redir_step k rs more w (redir_toks rl ts) refl
    ∙ redirs_read k rl (meant (to w) ∷ rs) ts (omega (arith, size, sep)) h
redirs_read (suc k) (append w ∷ rl) rs ts le h =
    let sep = length-print twice (name w ∷ redir_toks rl ts) in
    let size = length-print (name w) (redir_toks rl ts) in
    redir_step k rs twice w (redir_toks rl ts) refl
    ∙ redirs_read k rl (meant (append w) ∷ rs) ts (omega (arith, size, sep)) h

pub redirs_white :
    (k : ℕ) (rs : List Redir) (l s : List ℕ)
    → All (λ c. strchr c whitespace ≡ true) l
    → parseredirs k rs (l ++ s) ≡ parseredirs k rs s
unfolding parseredirs
redirs_white zero rs l s h = rw (peek_white l s (b'<' ∷ b'>' ∷ []) h, skip_white l s h) refl
redirs_white (suc k) rs l s h =
    rw (peek_white l s (b'<' ∷ b'>' ∷ []) h, gettoken_white l s h, skip_white l s h) refl

-- What may stand behind a simple command, a pipeline and a line.
abbrev pub after_simple : List Tok → Bool
after_simple [] = true
after_simple (t ∷ ts) = opens t (b'|' ∷ b')' ∷ b'&' ∷ b';' ∷ [])

abbrev pub after_pipe : List Tok → Bool
after_pipe [] = true
after_pipe (t ∷ ts) = opens t (b')' ∷ b'&' ∷ b';' ∷ [])

abbrev pub after_line : List Tok → Bool
after_line [] = true
after_line (t ∷ ts) = opens t (b')' ∷ [])

pub found-false :
    (o : Option ℕ) (toks others : List ℕ)
    → ((c : ℕ) → strchr c toks ≡ true → strchr c others ≡ false)
    → found o toks ≡ true
    → found o others ≡ false
found-false none toks others k h = refl
found-false (some c) toks others k h = k c h

pub found-true :
    (o : Option ℕ) (toks others : List ℕ)
    → ((c : ℕ) → strchr c toks ≡ true → strchr c others ≡ true)
    → found o toks ≡ true
    → found o others ≡ true
found-true none toks others k h = h
found-true (some c) toks others k h = k c h

pub simple-angle : (ts : List Tok) → after_simple ts ≡ true → begins ts (b'<' ∷ b'>' ∷ []) ≡ false
simple-angle [] h = refl
simple-angle (t ∷ ts) h = found-false (separator t) _ _ (λ c m. ground (arith, m)) h

pub simple-open : (ts : List Tok) → after_simple ts ≡ true → begins ts (b'(' ∷ []) ≡ false
simple-open [] h = refl
simple-open (t ∷ ts) h = found-false (separator t) _ _ (λ c m. ground (arith, m)) h

pub line-amp : (ts : List Tok) → after_line ts ≡ true → begins ts (b'&' ∷ []) ≡ false
line-amp [] h = refl
line-amp (t ∷ ts) h = found-false (separator t) _ _ (λ c m. ground (arith, m)) h

pub line-semi : (ts : List Tok) → after_line ts ≡ true → begins ts (b';' ∷ []) ≡ false
line-semi [] h = refl
line-semi (t ∷ ts) h = found-false (separator t) _ _ (λ c m. ground (arith, m)) h

pub pipe-bar : (ts : List Tok) → after_pipe ts ≡ true → begins ts (b'|' ∷ []) ≡ false
pipe-bar [] h = refl
pipe-bar (t ∷ ts) h = found-false (separator t) _ _ (λ c m. ground (arith, m)) h

pub pipe-simple : (ts : List Tok) → after_pipe ts ≡ true → after_simple ts ≡ true
pipe-simple [] h = refl
pipe-simple (t ∷ ts) h = found-true (separator t) _ _ (λ c m. ground (arith, m)) h

pub line-pipe : (ts : List Tok) → after_line ts ≡ true → after_pipe ts ≡ true
line-pipe [] h = refl
line-pipe (t ∷ ts) h = found-true (separator t) _ _ (λ c m. ground (arith, m)) h

-- The end of the words of a command.
pub args_none :
    ⦃g : Gaps⦄ (k argc : ℕ) (rs : List Redir) (ts : List Tok)
    → after_simple ts ≡ true
    → parseargs k argc rs (print ts) ≡ ok ([], rs, print ts)
unfolding parseargs gettoken token skip peek
args_none zero argc rs [] h = refl
args_none (suc k) argc rs [] h = refl
args_none zero argc rs (t ∷ ts) h =
    rw (peek-print (t ∷ ts) (b'|' ∷ b')' ∷ b'&' ∷ b';' ∷ []) no_stop ∙ h)
      (ap (λ s. ok ([], rs, s)) (skip-print (t ∷ ts)))
args_none (suc k) argc rs (t ∷ ts) h =
    rw (peek-print (t ∷ ts) (b'|' ∷ b')' ∷ b'&' ∷ b';' ∷ []) no_stop ∙ h)
      (ap (λ s. ok ([], rs, s)) (skip-print (t ∷ ts)))

-- What stands behind the name of an argument takes no redirection from the next.
pub args_angle :
    (args : List Arg) (ts : List Tok)
    → after_simple ts ≡ true
    → begins (arg_toks args ts) (b'<' ∷ b'>' ∷ []) ≡ false
args_angle [] ts h = simple-angle ts h
args_angle (a ∷ args) ts h = refl

pub redirs_open :
    (rl : List Redirection) (args : List Arg) (ts : List Tok)
    → after_simple ts ≡ true
    → begins (redir_toks rl (arg_toks args ts)) (b'(' ∷ []) ≡ false
redirs_open [] [] ts h = simple-open ts h
redirs_open [] (a ∷ args) ts h = refl
redirs_open (from w ∷ rl) args ts h = refl
redirs_open (to w ∷ rl) args ts h = refl
redirs_open (append w ∷ rl) args ts h = refl

pub redir_toks_le :
    ⦃g : Gaps⦄ (rl : List Redirection) (ts : List Tok)
    → length (print ts) ≤ length (print (redir_toks rl ts))
redir_toks_le [] ts = omega arith
redir_toks_le (from w ∷ rl) ts =
    let ih = redir_toks_le rl ts in
    let sep = length-print less (name w ∷ redir_toks rl ts) in
    let size = length-print (name w) (redir_toks rl ts) in omega (arith, ih, size, sep)
redir_toks_le (to w ∷ rl) ts =
    let ih = redir_toks_le rl ts in
    let sep = length-print more (name w ∷ redir_toks rl ts) in
    let size = length-print (name w) (redir_toks rl ts) in omega (arith, ih, size, sep)
redir_toks_le (append w ∷ rl) ts =
    let ih = redir_toks_le rl ts in
    let sep = length-print twice (name w ∷ redir_toks rl ts) in
    let size = length-print (name w) (redir_toks rl ts) in omega (arith, ih, size, sep)

pub args_read :
    ⦃g : Gaps⦄ (k argc : ℕ) (args : List Arg) (rs : List Redir) (ts : List Tok)
    → length (print (arg_toks args ts)) ≤ k
    → argc + length args < 10
    → after_simple ts ≡ true
    → parseargs k argc rs (print (arg_toks args ts))
      ≡ ok (map (λ a. chars a.name) args, arg_redirs args rs, print ts)
unfolding parseargs
args_read k argc [] rs ts le few h = args_none k argc rs ts h
args_read zero argc (a ∷ args) rs ts le few h = absurd (omega arith)
args_read (suc k) argc (a ∷ args) rs ts le few h =
    let next : List Tok = arg_toks args ts in
    let behind : List Tok = redir_toks a.redirs next in
    let size = length-print (name a.name) behind in
    let fewer = redir_toks_le a.redirs next in
    let full : leb maxargs (argc + 1) ≡ false = ground (arith, few) in
    rw
      (
        peek-print (name a.name ∷ behind) (b'|' ∷ b')' ∷ b'&' ∷ b';' ∷ []) no_stop,
        gettoken-print (name a.name) behind,
        full,
        redirs_read (length (print (name a.name ∷ behind))) a.redirs rs next (omega (arith, size))
            (args_angle args ts h),
        args_read k (argc + 1) args (redirs_of a.redirs rs) ts (omega (arith, size, fewer))
            (omega (arith, few)) h,
      )
      refl

pub backs_read :
    ⦃g : Gaps⦄ (k n : ℕ) (cmd : Cmd) (ts : List Tok)
    → length (print (amp_toks n ts)) ≤ k
    → begins ts (b'&' ∷ []) ≡ false
    → parsebacks k cmd (print (amp_toks n ts)) ≡ ok (backs n cmd, print ts)
unfolding parsebacks
backs_read zero zero cmd ts le h =
    rw (peek-print ts (b'&' ∷ []) (λ c. no_one c b'&' refl) ∙ h)
      (ap (λ s. ok (cmd, s)) (skip-print ts))
backs_read (suc k) zero cmd ts le h =
    rw (peek-print ts (b'&' ∷ []) (λ c. no_one c b'&' refl) ∙ h)
      (ap (λ s. ok (cmd, s)) (skip-print ts))
backs_read zero (suc n) cmd ts le h = absurd (omega arith)
backs_read (suc k) (suc n) cmd ts le h =
    rw
      (
        peek-print (amp ∷ amp_toks n ts) (b'&' ∷ []) (λ c. no_one c b'&' refl),
        gettoken-print amp (amp_toks n ts),
      )
      (let size = length-print amp (amp_toks n ts) in
        backs_read k n (back cmd) ts (omega (arith, size)) h)

pub amp_toks_le :
    ⦃g : Gaps⦄ (n : ℕ) (ts : List Tok) → length (print ts) ≤ length (print (amp_toks n ts))
amp_toks_le zero ts = omega arith
amp_toks_le (suc n) ts =
    let ih = amp_toks_le n ts in
    let size = length-print amp (amp_toks n ts) in omega (arith, ih, size)

pub arg_toks_le :
    ⦃g : Gaps⦄ (args : List Arg) (ts : List Tok)
    → length (print ts) ≤ length (print (arg_toks args ts))
arg_toks_le [] ts = omega arith
arg_toks_le (a ∷ args) ts =
    let ih = arg_toks_le args ts in
    let le = redir_toks_le a.redirs (arg_toks args ts) in
    let size = length-print (name a.name) (redir_toks a.redirs (arg_toks args ts)) in
    omega (arith, ih, le, size)
