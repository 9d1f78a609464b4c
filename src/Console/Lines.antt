-- ===== src/Console/Lines.antt =====
-- console.c: the ring of input, as the lines that are ready and the line that is typed.
use mathlib.Core.Path.{subst}
use cs461_final_project_grub.Base.{
  ℕ, suc, ◌+◌, ◌%◌, ◌≡◌, ◌≢◌, ◌<◌, inl, inr, ap, sym, ◌∙◌, not, ◌&&◌, ◌||◌, ltb, ◌==◌,
  if◌then◌else◌, List, [], ◌∷◌, ◌++◌, length, length-append, update, update_self, Bool-cases, arith,
}
use cs461_final_project_grub.Console.{
  Console, input_buf, consputc, uint_pred, uint_plus, finish, store_key, key,
}
use cs461_final_project_grub.Console.Ring.{
  Ahead, Behind, rev_onto, IsLine, type_key, press, typed_size, all_size, kill_line-IsLine,
  rub_out-IsLine, Ahead-update, Behind-update, Behind-Ahead, Ahead-append, length-rev_onto,
}

-- The state with one more byte, before the test for a line.
module _ (c : ℕ) (s : Console) (ready typed : List ℕ) (h : IsLine s ready typed)
    (room : length ready + length typed < 128) where
  abbrev stored : Console
  stored = consputc c (record s { buf = update s.buf (s.e % input_buf) c; e = uint_plus s.e 1 })

  Ahead-stored : Ahead stored.buf s.r ready
  Ahead-stored =
      let b = h.bound in
      let at = h.edit in
      let at' = h.write in
      Ahead-update s.buf c s.e s.r (length typed) ready b.0 (omega (arith, at, at')) room h.ahead

  Behind-stored : Behind stored.buf stored.e (c ∷ typed)
  Behind-stored =
      let b = h.bound in
      let back : uint_pred (uint_plus s.e 1) ≡ s.e = omega (arith, b) in
      (
        ap (λ a. update s.buf (s.e % 128) c (a % 128)) back ∙ update_self s.buf (s.e % 128) c,
        subst (λ a. Behind (update s.buf (s.e % 128) c) a typed) (sym back)
            (Behind-update s.buf c s.e s.e 0 typed b.2 (omega (arith, b)) (omega (arith, room))
              h.behind),
      )

  edit_stored : stored.e ≡ uint_plus s.w (suc (length typed))
  edit_stored = let at = h.edit in omega (arith, at)

  typing : c ≢ 10 → IsLine stored ready (c ∷ typed)
  typing ne =
      let b = h.bound in
      let few = h.few in
      let at = edit_stored in
      record {
        bound = (b.0, b.1, omega (arith, at));
        write = h.write;
        edit = edit_stored;
        few = omega (arith, room);
        ahead = Ahead-stored;
        behind = Behind-stored;
        one_line = (ne, h.one_line);
      }

  committed :
      (n : ℕ)
      → IsLine (record stored { w = stored.e; wakeups = n }) (ready ++ rev_onto (c ∷ typed) []) []
  committed n =
      let b = h.bound in
      let at = edit_stored in
      let at' = h.write in
      let size = length-append ready (rev_onto (c ∷ typed) []) in
      let size' = length-rev_onto (c ∷ typed) [] in
      let whole =
        Behind-Ahead stored.buf s.w stored.e (c ∷ typed) [] b.1 (omega (arith, at))
          (omega (arith, room)) edit_stored Behind-stored tt in
      record {
        bound = (b.0, omega (arith, at), omega (arith, at));
        write = omega (arith, at, at', size, size');
        edit = omega (arith, at);
        few = omega (arith, size, size', room);
        ahead =
            Ahead-append stored.buf s.r ready (rev_onto (c ∷ typed) []) b.0 Ahead-stored
              (subst (λ a. Ahead stored.buf a (rev_onto (c ∷ typed) [])) at' whole);
        behind = tt;
        one_line = tt;
      }

  full : stored.e == uint_plus s.r input_buf ≡ (length ready + length typed == 127)
  full =
      let b = h.bound in
      let at = edit_stored in
      let at' = h.write in
      elim (Bool-cases (length ready + length typed == 127)) [
        | inl yes' ↦ ground (arith, b, at, at', yes')
        | inr other ↦ ground (arith, b, at, at', other, room)
      ]

  store_key-IsLine :
      IsLine (store_key c s) (type_key c ready typed).ready (type_key c ready typed).typed
  unfolding store_key finish
  store_key-IsLine = elim (Bool-cases (c == 10 || c == 4 || length ready + length typed == 127)) [
    | inl line ↦ rw (full, line) (committed (s.wakeups + 1))
    | inr part ↦ rw (full, part) (typing (ground (arith, part)))
  ]

-- `consoleintr` of one character, whatever the indices are, wrapped around or not: `C('U')` takes back
-- the whole line, backspace its last byte; another character that is not 0 is put behind the line where
-- there is room, a carriage return as a newline, and the line is ready for the readers after a newline,
-- after `C('D')` and when the ring is full. Nothing that is ready is ever lost or changed.
pub key-IsLine :
    (c : ℕ) (s : Console) (ready typed : List ℕ)
    → IsLine s ready typed
    → IsLine (key c s) (press c ready typed).ready (press c ready typed).typed
unfolding key
key-IsLine c s ready typed h =
    let b = h.bound in
    let few = h.few in
    let size = typed_size s.w s.e (length typed) b.1 (omega (arith, few)) h.edit in
    let all = all_size s.r s.w s.e (length ready) (length typed) b.0 h.write h.edit few in
    elim (Bool-cases (c == 26 || c == 16)) [
      | inl out ↦ rw out h
      | inr in' ↦ elim (Bool-cases (c == 21)) [
        | inl kill ↦
            rw (in', kill, size) (kill_line-IsLine (length typed) s ready typed (omega arith) h)
        | inr more ↦ elim (Bool-cases (c == 8 || c == 127)) [
          | inl rub ↦ rw (in', more, rub) (rub_out-IsLine s ready typed h)
          | inr char ↦ elim (Bool-cases (not (c == 0) && ltb (length ready + length typed) 128)) [
            | inl room ↦
                rw (in', more, char, all, room)
                  (store_key-IsLine (if c == 13 then 10 else c) s ready typed h
                    (ground (arith, room)))
            | inr drop ↦ rw (in', more, char, all, drop) h
          ]
        ]
      ]
    ]
