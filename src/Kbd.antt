-- ===== src/Kbd.antt =====
-- kbd.h and kbd.c: from the keyboard controller's bytes to characters.
--
-- `shift` is one flag for each bit that the code uses. A table is what it has at each index, 0 where
-- the source has no entry. A character's subtraction `x - '@'` wraps at a byte.
pub mod Keys
mod Tests
use cs461_final_project_grub.Base.{
  ℕ, zero, suc, ◌+◌, ◌-◌, Bool, true, false, not, ◌&&◌, ◌||◌, ltb, leb, ◌==◌, if◌then◌else◌, Option,
  none, some, List, [], ◌∷◌, get_or, ℤ, pos, negsuc,
}

pub record Shift : Type 0 where
  pub shift : Bool
  pub ctl : Bool
  pub alt : Bool
  pub capslock : Bool
  pub numlock : Bool
  pub scrolllock : Bool
  pub e0esc : Bool

pub data Modifier : Type 0 where
  shift_key ctl_key alt_key : Modifier

pub data Toggle : Type 0 where
  caps_lock num_lock scroll_lock : Toggle

-- The first entry of an association list, or nothing.
unfoldable pub lookup : {A : Type 0} → List (ℕ × A) → ℕ → Option A
lookup [] code = none
lookup ((i, a) ∷ es) code = let rest = lookup es code in if i == code then some a else rest

unfoldable pub shiftcode : ℕ → Option Modifier
shiftcode code =
    lookup
      ((0x1d, ctl_key)
        ∷ (0x2a, shift_key)
        ∷ (0x36, shift_key)
        ∷ (0x38, alt_key)
        ∷ (0x9d, ctl_key)
        ∷ (0xb8, alt_key)
        ∷ [])
      code

unfoldable pub togglecode : ℕ → Option Toggle
togglecode code = lookup ((0x3a, caps_lock) ∷ (0x45, num_lock) ∷ (0x46, scroll_lock) ∷ []) code

-- An entry of a map: the list has those from index 0 on, the association list those behind.
unfoldable pub entry : List ℕ → List (ℕ × ℕ) → ℕ → ℕ
entry low high code =
    if ltb code 0x60 then get_or low code 0 else elim (lookup high code) [ none ↦ 0 | some c ↦ c ]

-- The entries that the three maps share.
abbrev pub key_entries : List (ℕ × ℕ)
key_entries =
    (0x97, 0xe0)
    ∷ (0xc8, 0xe2)
    ∷ (0xc9, 0xe6)
    ∷ (0xcb, 0xe4)
    ∷ (0xcd, 0xe5)
    ∷ (0xcf, 0xe1)
    ∷ (0xd0, 0xe3)
    ∷ (0xd1, 0xe7)
    ∷ (0xd2, 0xe8)
    ∷ (0xd3, 0xe9)
    ∷ []

abbrev pub normalmap_low : List ℕ
normalmap_low =
    0 ∷ 27 ∷ 49 ∷ 50 ∷ 51 ∷ 52 ∷ 53 ∷ 54 ∷ 55 ∷ 56 ∷ 57 ∷ 48 ∷ 45 ∷ 61 ∷ 8 ∷ 9 ∷ 113 ∷ 119 ∷ 101
    ∷ 114 ∷ 116 ∷ 121 ∷ 117 ∷ 105 ∷ 111 ∷ 112 ∷ 91 ∷ 93 ∷ 10 ∷ 0 ∷ 97 ∷ 115 ∷ 100 ∷ 102 ∷ 103 ∷ 104
    ∷ 106 ∷ 107 ∷ 108 ∷ 59 ∷ 39 ∷ 96 ∷ 0 ∷ 92 ∷ 122 ∷ 120 ∷ 99 ∷ 118 ∷ 98 ∷ 110 ∷ 109 ∷ 44 ∷ 46 ∷ 47
    ∷ 0 ∷ 42 ∷ 0 ∷ 32 ∷ 0 ∷ 0 ∷ 0 ∷ 0 ∷ 0 ∷ 0 ∷ 0 ∷ 0 ∷ 0 ∷ 0 ∷ 0 ∷ 0 ∷ 0 ∷ 55 ∷ 56 ∷ 57 ∷ 45 ∷ 52
    ∷ 53 ∷ 54 ∷ 43 ∷ 49 ∷ 50 ∷ 51 ∷ 48 ∷ 46 ∷ 0 ∷ 0 ∷ 0 ∷ 0 ∷ []

unfoldable pub normalmap : ℕ → ℕ
normalmap code = entry normalmap_low ((0x9c, 10) ∷ (0xb5, 47) ∷ key_entries) code

abbrev pub shiftmap_low : List ℕ
shiftmap_low =
    0 ∷ 27 ∷ 33 ∷ 64 ∷ 35 ∷ 36 ∷ 37 ∷ 94 ∷ 38 ∷ 42 ∷ 40 ∷ 41 ∷ 95 ∷ 43 ∷ 8 ∷ 9 ∷ 81 ∷ 87 ∷ 69 ∷ 82
    ∷ 84 ∷ 89 ∷ 85 ∷ 73 ∷ 79 ∷ 80 ∷ 123 ∷ 125 ∷ 10 ∷ 0 ∷ 65 ∷ 83 ∷ 68 ∷ 70 ∷ 71 ∷ 72 ∷ 74 ∷ 75 ∷ 76
    ∷ 58 ∷ 34 ∷ 126 ∷ 0 ∷ 124 ∷ 90 ∷ 88 ∷ 67 ∷ 86 ∷ 66 ∷ 78 ∷ 77 ∷ 60 ∷ 62 ∷ 63 ∷ 0 ∷ 42 ∷ 0 ∷ 32
    ∷ 0 ∷ 0 ∷ 0 ∷ 0 ∷ 0 ∷ 0 ∷ 0 ∷ 0 ∷ 0 ∷ 0 ∷ 0 ∷ 0 ∷ 0 ∷ 55 ∷ 56 ∷ 57 ∷ 45 ∷ 52 ∷ 53 ∷ 54 ∷ 43 ∷ 49
    ∷ 50 ∷ 51 ∷ 48 ∷ 46 ∷ 0 ∷ 0 ∷ 0 ∷ 0 ∷ []

unfoldable pub shiftmap : ℕ → ℕ
shiftmap code = entry shiftmap_low ((0x9c, 10) ∷ (0xb5, 47) ∷ key_entries) code

abbrev pub ctlmap_low : List ℕ
ctlmap_low =
    0 ∷ 0 ∷ 0 ∷ 0 ∷ 0 ∷ 0 ∷ 0 ∷ 0 ∷ 0 ∷ 0 ∷ 0 ∷ 0 ∷ 0 ∷ 0 ∷ 0 ∷ 0 ∷ 17 ∷ 23 ∷ 5 ∷ 18 ∷ 20 ∷ 25 ∷ 21
    ∷ 9 ∷ 15 ∷ 16 ∷ 0 ∷ 0 ∷ 13 ∷ 0 ∷ 1 ∷ 19 ∷ 4 ∷ 6 ∷ 7 ∷ 8 ∷ 10 ∷ 11 ∷ 12 ∷ 0 ∷ 0 ∷ 0 ∷ 0 ∷ 28 ∷ 26
    ∷ 24 ∷ 3 ∷ 22 ∷ 2 ∷ 14 ∷ 13 ∷ 0 ∷ 0 ∷ 239 ∷ 0 ∷ 0 ∷ []

unfoldable pub ctlmap : ℕ → ℕ
ctlmap code = entry ctlmap_low ((0x9c, 13) ∷ (0xb5, 239) ∷ key_entries) code

-- `shift |= shiftcode[data]`
unfoldable pub press : Option Modifier → Shift → Shift
press none s = s
press (some shift_key) s = record s { shift = true }
press (some ctl_key) s = record s { ctl = true }
press (some alt_key) s = record s { alt = true }

-- `shift &= ~shiftcode[data]`
unfoldable pub unpress : Option Modifier → Shift → Shift
unpress none s = s
unpress (some shift_key) s = record s { shift = false }
unpress (some ctl_key) s = record s { ctl = false }
unpress (some alt_key) s = record s { alt = false }

-- `shift ^= togglecode[data]`
unfoldable pub toggle : Option Toggle → Shift → Shift
toggle none s = s
toggle (some caps_lock) s = record s { capslock = not s.capslock }
toggle (some num_lock) s = record s { numlock = not s.numlock }
toggle (some scroll_lock) s = record s { scrolllock = not s.scrolllock }

-- `charcode[shift & (CTL | SHIFT)]`
unfoldable pub charcode : Shift → ℕ → ℕ
charcode s code = if s.ctl then ctlmap code else if s.shift then shiftmap code else normalmap code

-- The change of case under caps lock.
unfoldable pub swap_case : ℕ → ℕ
swap_case c = if leb 97 c && leb c 122 then c - 32 else if leb 65 c && leb c 90 then c + 32 else c

-- What `kbdgetc` does with a byte behind the tests for a release and an escape.
unfoldable pub pressed : ℕ → Shift → ℤ × Shift
pressed code s =
    let s' = toggle (togglecode code) (press (shiftcode code) s) in
    (pos (if s'.capslock then swap_case (charcode s' code) else charcode s' code), s')

-- `kbdgetc`, given the data byte, or `none` where the status says that there is none.
unfoldable pub kbdgetc : Option ℕ → Shift → ℤ × Shift
kbdgetc none s = (negsuc 0, s)
kbdgetc (some code) s =
    if code == 0xe0
    then (pos 0, record s { e0esc = true })
    else if leb 128 code
    then (
      pos 0,
      record (unpress (shiftcode (if s.e0esc then code else code - 128)) s) { e0esc = false },
    )
    else if s.e0esc
    then pressed (code + 128) (record s { e0esc = false })
    else pressed code s
