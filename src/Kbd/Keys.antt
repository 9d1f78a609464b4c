-- ===== src/Kbd/Keys.antt =====
-- What a key leaves of the keyboard's flags.
use cs461_final_project_grub.Base.{
  ℕ, ◌+◌, ◌-◌, ◌≡◌, ◌≢◌, ◌<◌, refl, ap, ◌∙◌, true, false, not, ◌||◌, ◌==◌, if◌then◌else◌, Option,
  none, some, List, [], ◌∷◌, arith,
}
use cs461_final_project_grub.Kbd.{
  Shift, Modifier, Toggle, shift_key, ctl_key, alt_key, caps_lock, num_lock, scroll_lock, shiftcode,
  togglecode, lookup, press, unpress, toggle, pressed, kbdgetc,
}

released :
    (m : Option Modifier) (t : Option Toggle) (s : Shift)
    → unpress m (toggle t (press m s)) ≡ toggle t (unpress m s)
unfolding press unpress toggle
released none t s = refl
released (some shift_key) none s = refl
released (some shift_key) (some caps_lock) s = refl
released (some shift_key) (some num_lock) s = refl
released (some shift_key) (some scroll_lock) s = refl
released (some ctl_key) none s = refl
released (some ctl_key) (some caps_lock) s = refl
released (some ctl_key) (some num_lock) s = refl
released (some ctl_key) (some scroll_lock) s = refl
released (some alt_key) none s = refl
released (some alt_key) (some caps_lock) s = refl
released (some alt_key) (some num_lock) s = refl
released (some alt_key) (some scroll_lock) s = refl

-- A flag that no key changes.
same_escape :
    (m : Option Modifier) (t : Option Toggle) (s : Shift) → (toggle t (press m s)).e0esc ≡ s.e0esc
unfolding press toggle
same_escape none none s = refl
same_escape none (some caps_lock) s = refl
same_escape none (some num_lock) s = refl
same_escape none (some scroll_lock) s = refl
same_escape (some shift_key) none s = refl
same_escape (some shift_key) (some caps_lock) s = refl
same_escape (some shift_key) (some num_lock) s = refl
same_escape (some shift_key) (some scroll_lock) s = refl
same_escape (some ctl_key) none s = refl
same_escape (some ctl_key) (some caps_lock) s = refl
same_escape (some ctl_key) (some num_lock) s = refl
same_escape (some ctl_key) (some scroll_lock) s = refl
same_escape (some alt_key) none s = refl
same_escape (some alt_key) (some caps_lock) s = refl
same_escape (some alt_key) (some num_lock) s = refl
same_escape (some alt_key) (some scroll_lock) s = refl

-- The flags after some data bytes.
abbrev pub after : List ℕ → Shift → Shift
after [] s = s
after (code ∷ codes) s = after codes (kbdgetc (some code) s).1

-- What a key that goes down and up again leaves of the flags, by its index in the tables: the shift keys
-- are 0x2a and 0x36, control is 0x1d and 0x9d, alt is 0x38 and 0xb8, and caps lock, num lock
-- and scroll lock are 0x3a, 0x45 and 0x46.
abbrev pub struck : ℕ → Shift → Shift
struck code s = record {
  shift = (if code == 0x2a || code == 0x36 then false else s.shift);
  ctl = (if code == 0x1d || code == 0x9d then false else s.ctl);
  alt = (if code == 0x38 || code == 0xb8 then false else s.alt);
  capslock = (if code == 0x3a then not s.capslock else s.capslock);
  numlock = (if code == 0x45 then not s.numlock else s.numlock);
  scrolllock = (if code == 0x46 then not s.scrolllock else s.scrolllock);
  e0esc = false;
}

-- A lock key leaves the flags of the modifiers, and a modifier key those of the locks.
toggle_modifiers :
    (t : Option Toggle) (s : Shift)
    → ((toggle t s).shift ≡ s.shift) × ((toggle t s).ctl ≡ s.ctl) × ((toggle t s).alt ≡ s.alt)
unfolding toggle
toggle_modifiers none s = (refl, refl, refl)
toggle_modifiers (some caps_lock) s = (refl, refl, refl)
toggle_modifiers (some num_lock) s = (refl, refl, refl)
toggle_modifiers (some scroll_lock) s = (refl, refl, refl)

unpress_locks :
    (m : Option Modifier) (s : Shift)
    → ((unpress m s).capslock ≡ s.capslock)
      × ((unpress m s).numlock ≡ s.numlock)
      × ((unpress m s).scrolllock ≡ s.scrolllock)
unfolding unpress
unpress_locks none s = (refl, refl, refl)
unpress_locks (some shift_key) s = (refl, refl, refl)
unpress_locks (some ctl_key) s = (refl, refl, refl)
unpress_locks (some alt_key) s = (refl, refl, refl)

unpress-struck :
    (code : ℕ) (s : Shift)
    → ((unpress (shiftcode code) s).shift ≡ (struck code s).shift)
      × ((unpress (shiftcode code) s).ctl ≡ (struck code s).ctl)
      × ((unpress (shiftcode code) s).alt ≡ (struck code s).alt)
unfolding unpress shiftcode lookup
unpress-struck code s = (ground arith, ground arith, ground arith)

toggle-struck :
    (code : ℕ) (s : Shift)
    → ((toggle (togglecode code) s).capslock ≡ (struck code s).capslock)
      × ((toggle (togglecode code) s).numlock ≡ (struck code s).numlock)
      × ((toggle (togglecode code) s).scrolllock ≡ (struck code s).scrolllock)
unfolding toggle togglecode lookup
toggle-struck code s = (ground arith, ground arith, ground arith)

flags-struck :
    (code : ℕ) (s : Shift)
    → record (toggle (togglecode code) (unpress (shiftcode code) s)) { e0esc = false }
      ≡ struck code s
flags-struck code s =
    let u : Shift = unpress (shiftcode code) s in
    let (a, b, c) = toggle_modifiers (togglecode code) u in
    let (a', b', c') = unpress-struck code s in
    let (x, y, z) = toggle-struck code u in
    let (x', y', z') = unpress_locks (shiftcode code) s in
    let p1 : (toggle (togglecode code) u).shift ≡ (struck code s).shift = a ∙ a' in
    let p2 : (toggle (togglecode code) u).ctl ≡ (struck code s).ctl = b ∙ b' in
    let p3 : (toggle (togglecode code) u).alt ≡ (struck code s).alt = c ∙ c' in
    let p4 : (toggle (togglecode code) u).capslock ≡ (struck code s).capslock =
      x ∙ ap (λ v. if code == 0x3a then not v else v) x' in
    let p5 : (toggle (togglecode code) u).numlock ≡ (struck code s).numlock =
      y ∙ ap (λ v. if code == 0x45 then not v else v) y' in
    let p6 : (toggle (togglecode code) u).scrolllock ≡ (struck code s).scrolllock =
      z ∙ ap (λ v. if code == 0x46 then not v else v) z' in
    λ i. record {
      shift = p1 i;
      ctl = p2 i;
      alt = p3 i;
      capslock = p4 i;
      numlock = p5 i;
      scrolllock = p6 i;
      e0esc = false;
    }

escape : (s : Shift) → (kbdgetc (some 0xe0) s).1 ≡ record s { e0esc = true }
unfolding kbdgetc
escape s = refl

released_escaped :
    (m : Option Modifier) (t : Option Toggle) (s : Shift)
    → ◌≡◌ {A = Shift}
        (record (unpress m
          (record (toggle t (press m (record s { e0esc = false }))) { e0esc = true })) {
            e0esc = false;
          })
        (record (toggle t (unpress m s)) { e0esc = false })
unfolding press unpress toggle
released_escaped none none s = refl
released_escaped none (some caps_lock) s = refl
released_escaped none (some num_lock) s = refl
released_escaped none (some scroll_lock) s = refl
released_escaped (some shift_key) none s = refl
released_escaped (some shift_key) (some caps_lock) s = refl
released_escaped (some shift_key) (some num_lock) s = refl
released_escaped (some shift_key) (some scroll_lock) s = refl
released_escaped (some ctl_key) none s = refl
released_escaped (some ctl_key) (some caps_lock) s = refl
released_escaped (some ctl_key) (some num_lock) s = refl
released_escaped (some ctl_key) (some scroll_lock) s = refl
released_escaped (some alt_key) none s = refl
released_escaped (some alt_key) (some caps_lock) s = refl
released_escaped (some alt_key) (some num_lock) s = refl
released_escaped (some alt_key) (some scroll_lock) s = refl

down :
    (code : ℕ) (s : Shift)
    → code < 128
    → s.e0esc ≡ false
    → (kbdgetc (some code) s).1 ≡ toggle (togglecode code) (press (shiftcode code) s)
unfolding kbdgetc pressed
down code s lt e = ground (arith, e)

down_escaped :
    (code : ℕ) (s : Shift)
    → code < 128
    → s.e0esc ≡ true
    → (kbdgetc (some code) s).1
      ≡ toggle
          (togglecode (code + 128))
          (press (shiftcode (code + 128)) (record s { e0esc = false }))
unfolding kbdgetc pressed
down_escaped code s lt e = ground (arith, e)

up :
    (code : ℕ) (s : Shift)
    → code < 128
    → code ≢ 0x60
    → s.e0esc ≡ false
    → (kbdgetc (some (code + 128)) s).1 ≡ record (unpress (shiftcode code) s) { e0esc = false }
unfolding kbdgetc
up code s lt ne e = let back : code + 128 - 128 ≡ code = omega arith in ground (arith, e, back)

up_escaped :
    (code : ℕ) (s : Shift)
    → code < 128
    → code ≢ 0x60
    → s.e0esc ≡ true
    → (kbdgetc (some (code + 128)) s).1
      ≡ record (unpress (shiftcode (code + 128)) s) { e0esc = false }
unfolding kbdgetc
up_escaped code s lt ne e = ground (arith, e)

-- A key that goes down and up again: the flag of a shift, control or alt key is clear, the flag of a lock
-- key is flipped, no escape is pending, and every other flag is as before. It is so for a key with a one-byte code,
-- other than the one whose release reads as an escape, where no escape is pending, and for
-- a key with an escape before each of its bytes.
pub struck_lem :
    (code : ℕ) (s : Shift)
    → code < 128
    → code ≢ 0x60
    → (s.e0esc ≡ false → after (code ∷ (code + 128) ∷ []) s ≡ struck code s)
      × (after (0xe0 ∷ code ∷ 0xe0 ∷ (code + 128) ∷ []) s ≡ struck (code + 128) s)
struck_lem code s lt ne = (
  λ e.
      let m : Option Modifier = shiftcode code in
      let t : Option Toggle = togglecode code in
      ap (λ r. (kbdgetc (some (code + 128)) r).1) (down code s lt e)
      ∙ up code (toggle t (press m s)) lt ne (same_escape m t s ∙ e)
      ∙ ap {A = Shift} {B = Shift} (λ r. record r { e0esc = false }) (released m t s)
      ∙ flags-struck code s,
  let m : Option Modifier = shiftcode (code + 128) in
      let t : Option Toggle = togglecode (code + 128) in
      let s1 : Shift = toggle t (press m (record s { e0esc = false })) in
      ap (λ r. (kbdgetc (some (code + 128)) (kbdgetc (some 0xe0) (kbdgetc (some code) r).1).1).1)
        (escape s)
      ∙ ap (λ r. (kbdgetc (some (code + 128)) (kbdgetc (some 0xe0) r).1).1)
          (down_escaped code (record s { e0esc = true }) lt refl)
      ∙ ap (λ r. (kbdgetc (some (code + 128)) r).1) (escape s1)
      ∙ up_escaped code (record s1 { e0esc = true }) lt ne refl
      ∙ released_escaped m t s
      ∙ flags-struck (code + 128) s,
)
