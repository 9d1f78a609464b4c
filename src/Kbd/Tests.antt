-- ===== src/Kbd/Tests.antt =====
-- Keys of kbd.h, and the theorems at concrete inputs.
use cs461_final_project_grub.Base.{◌≡◌, refl, false, [], ◌∷◌, some, pos, arith}
use cs461_final_project_grub.Kbd.{
  Shift, shiftcode, togglecode, lookup, press, toggle, pressed, kbdgetc, charcode, normalmap,
  shiftmap, entry,
}
use cs461_final_project_grub.Kbd.Keys.{after, struck, struck_lem}

abbrev idle : Shift
idle = record {
  shift = false;
  ctl = false;
  alt = false;
  capslock = false;
  numlock = false;
  scrolllock = false;
  e0esc = false;
}

-- The key `a`, alone and under the shift key, and the arrow up.
key_a : (kbdgetc (some 0x1e) idle).0 ≡ pos 97
unfolding kbdgetc pressed toggle togglecode press shiftcode lookup charcode normalmap shiftmap entry
key_a = refl

key_shift_a : (kbdgetc (some 0x1e) (kbdgetc (some 0x2a) idle).1).0 ≡ pos 65
unfolding kbdgetc pressed toggle togglecode press shiftcode lookup charcode normalmap shiftmap entry
key_shift_a = refl

key_up : (kbdgetc (some 0x48) (kbdgetc (some 0xe0) idle).1).0 ≡ pos 0xe2
unfolding kbdgetc pressed toggle togglecode press shiftcode lookup charcode normalmap shiftmap entry
key_up = refl

struck_lem_example : after (0x3a ∷ 0xba ∷ []) idle ≡ struck 0x3a idle
struck_lem_example = (struck_lem 0x3a idle (omega arith) (omega arith)).0 refl
