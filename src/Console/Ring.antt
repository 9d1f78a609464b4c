-- ===== src/Console/Ring.antt =====
-- console.c: the ring of input under one more byte, and one less.
use mathlib.Core.Path.{subst}
use cs461_final_project_grub.Base.{
  ℕ, zero, suc, ◌+◌, ◌-◌, ◌%◌, ◌^◌, ◌≡◌, ◌≢◌, ◌≤◌, ◌<◌, ◌∙◌, true, false, not, ◌&&◌, ◌||◌, ltb,
  ◌==◌, if◌then◌else◌, List, [], ◌∷◌, ◌++◌, length, All, update, update_ne, arith,
}
use cs461_final_project_grub.Console.{
  Console, backspace, input_buf, consputc, uint_pred, uint_plus, kill_line, rub_out,
}

-- The bytes from place `a` on, and those back from place `a`, the nearest first.
abbrev pub Ahead : (ℕ → ℕ) → ℕ → List ℕ → Type 0
Ahead buf a [] = Unit
Ahead buf a (x ∷ l) = (buf (a % 128) ≡ x) × Ahead buf (uint_plus a 1) l

abbrev pub Behind : (ℕ → ℕ) → ℕ → List ℕ → Type 0
Behind buf a [] = Unit
Behind buf a (x ∷ l) = (buf (uint_pred a % 128) ≡ x) × Behind buf (uint_pred a) l

abbrev pub rev_onto : List ℕ → List ℕ → List ℕ
rev_onto [] l = l
rev_onto (x ∷ xs) l = rev_onto xs (x ∷ l)

-- `ready` stands from `r` to `w`, and `typed`, the last first, from `w` to `e`.
pub record IsLine (s : Console) (ready typed : List ℕ) : Type 0 where
  pub bound : (s.r < 2 ^ 32) × (s.w < 2 ^ 32) × (s.e < 2 ^ 32)
  pub write : s.w ≡ uint_plus s.r (length ready)
  pub edit : s.e ≡ uint_plus s.w (length typed)
  pub few : length ready + length typed ≤ 128
  pub ahead : Ahead s.buf s.r ready
  pub behind : Behind s.buf s.e typed
  pub one_line : All (λ c. c ≢ 10) typed

-- What a key makes of the two.
pub record Text : Type 0 where
  pub ready : List ℕ
  pub typed : List ℕ

abbrev pub type_key : ℕ → List ℕ → List ℕ → Text
type_key c ready typed =
    let line : Text = record { ready = ready ++ rev_onto (c ∷ typed) []; typed = [] } in
    if c == 10 || c == 4 || length ready + length typed == 127
    then line
    else record { ready = ready; typed = c ∷ typed }

abbrev pub erase : List ℕ → List ℕ
erase [] = []
erase (x ∷ l) = l

abbrev pub press : ℕ → List ℕ → List ℕ → Text
press c ready typed =
    if c == 26 || c == 16
    then record { ready = ready; typed = typed }
    else if c == 21
    then record { ready = ready; typed = [] }
    else if c == 8 || c == 127
    then record { ready = ready; typed = erase typed }
    else if not (c == 0) && ltb (length ready + length typed) 128
    then type_key (if c == 13 then 10 else c) ready typed
    else record { ready = ready; typed = typed }

-- The lengths, from the indices.
pub typed_size :
    (w e n : ℕ) → w < 2 ^ 32 → n ≤ 128 → e ≡ uint_plus w n → (e + 2 ^ 32 - w) % 2 ^ 32 ≡ n
typed_size w e n hw hn h = omega (arith, hw, hn, h)

pub all_size :
    (r w e m n : ℕ)
    → r < 2 ^ 32
    → w ≡ uint_plus r m
    → e ≡ uint_plus w n
    → m + n ≤ 128
    → (e + 2 ^ 32 - r) % 2 ^ 32 ≡ m + n
all_size r w e m n hr hw he few = omega (arith, hr, hw, he, few)

-- A step back.
pub step_back :
    (w e n : ℕ) → w < 2 ^ 32 → n < 128 → e ≡ uint_plus w (suc n) → uint_pred e ≡ uint_plus w n
step_back w e n hw hn h = omega (arith, hw, hn, h)

pub kill_line-IsLine :
    (k : ℕ) (s : Console) (ready typed : List ℕ)
    → length typed ≤ k
    → IsLine s ready typed
    → IsLine (kill_line k s) ready []
unfolding kill_line
kill_line-IsLine zero s ready [] le h = h
kill_line-IsLine (suc k) s ready [] le h =
    let at = h.edit in
    let b = h.bound in let end : s.e == s.w ≡ true = ground (arith, at, b) in rw end h
kill_line-IsLine zero s ready (x ∷ typed) le h = absurd (omega arith)
kill_line-IsLine (suc k) s ready (x ∷ typed) le h =
    let b = h.bound in
    let few = h.few in
    let back = step_back s.w s.e (length typed) b.1 (omega (arith, few)) h.edit in
    let at = h.edit in
    let more : s.e == s.w ≡ false = ground (arith, at, b, few) in
    let text : s.buf (uint_pred s.e % input_buf) == 10 ≡ false =
      let ne = h.one_line.0 in let is = h.behind.0 in ground (arith, ne, is) in
    rw (more, text)
      (kill_line-IsLine k (consputc backspace (record s { e = uint_pred s.e })) ready typed
        (omega arith)
        (record {
          bound = (b.0, b.1, omega (arith, back));
          write = h.write;
          edit = back;
          few = omega (arith, few);
          ahead = h.ahead;
          behind = h.behind.1;
          one_line = h.one_line.1;
        }))

pub rub_out-IsLine :
    (s : Console) (ready typed : List ℕ)
    → IsLine s ready typed
    → IsLine (rub_out s) ready (erase typed)
unfolding rub_out
rub_out-IsLine s ready [] h =
    let at = h.edit in
    let b = h.bound in let end : s.e == s.w ≡ true = ground (arith, at, b) in rw end h
rub_out-IsLine s ready (x ∷ typed) h =
    let b = h.bound in
    let few = h.few in
    let at = h.edit in
    let back = step_back s.w s.e (length typed) b.1 (omega (arith, few)) h.edit in
    let more : s.e == s.w ≡ false = ground (arith, at, b, few) in
    rw more (record {
      bound = (b.0, b.1, omega (arith, back));
      write = h.write;
      edit = back;
      few = omega (arith, few);
      ahead = h.ahead;
      behind = h.behind.1;
      one_line = h.one_line.1;
    })

-- A write in front of the typed bytes touches none of the others.
pub Ahead-update :
    (buf : ℕ → ℕ) (c e a n : ℕ) (l : List ℕ)
    → a < 2 ^ 32
    → e ≡ uint_plus a (length l + n)
    → length l + n < 128
    → Ahead buf a l
    → Ahead (update buf (e % 128) c) a l
Ahead-update buf c e a n [] ha he few h = tt
Ahead-update buf c e a n (x ∷ l) ha he few h = (
  update_ne buf (e % 128) (a % 128) c (omega (arith, he, few)) ∙ h.0,
  Ahead-update buf c e (uint_plus a 1) n l (omega arith) (omega (arith, he)) (omega (arith, few))
      h.1,
)

pub Behind-update :
    (buf : ℕ → ℕ) (c e a n : ℕ) (l : List ℕ)
    → a < 2 ^ 32
    → e ≡ uint_plus a n
    → length l + n < 128
    → Behind buf a l
    → Behind (update buf (e % 128) c) a l
Behind-update buf c e a n [] ha he few h = tt
Behind-update buf c e a n (x ∷ l) ha he few h = (
  update_ne buf (e % 128) (uint_pred a % 128) c (omega (arith, he, few, ha)) ∙ h.0,
  Behind-update buf c e (uint_pred a) (suc n) l (omega arith) (omega (arith, he, ha))
      (omega (arith, few)) h.1,
)

pub Behind-Ahead :
    (buf : ℕ → ℕ) (w e : ℕ) (l m : List ℕ)
    → w < 2 ^ 32
    → e < 2 ^ 32
    → length l ≤ 128
    → e ≡ uint_plus w (length l)
    → Behind buf e l
    → Ahead buf e m
    → Ahead buf w (rev_onto l m)
Behind-Ahead buf w e [] m hw he few at h k = subst (λ a. Ahead buf a m) (omega (arith, at, hw)) k
Behind-Ahead buf w e (x ∷ l) m hw he few at h k =
    Behind-Ahead buf w (uint_pred e) l (x ∷ m) hw (omega arith) (omega (arith, few))
      (step_back w e (length l) hw (omega (arith, few)) at) h.1
      (h.0, subst (λ a. Ahead buf a m) (omega (arith, he)) k)

pub Ahead-append :
    (buf : ℕ → ℕ) (a : ℕ) (l m : List ℕ)
    → a < 2 ^ 32
    → Ahead buf a l
    → Ahead buf (uint_plus a (length l)) m
    → Ahead buf a (l ++ m)
Ahead-append buf a [] m ha h k = subst (λ b. Ahead buf b m) (omega (arith, ha)) k
Ahead-append buf a (x ∷ l) m ha h k = (
  h.0,
  Ahead-append buf (uint_plus a 1) l m (omega arith) h.1
      (subst (λ b. Ahead buf b m) (omega arith) k),
)

pub length-rev_onto : (l m : List ℕ) → length (rev_onto l m) ≡ length l + length m
length-rev_onto [] m = omega arith
length-rev_onto (x ∷ l) m = let ih = length-rev_onto l (x ∷ m) in omega (arith, ih)
