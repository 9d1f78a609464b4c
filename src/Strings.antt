-- ===== src/Strings.antt =====
-- string.c: the kernel's memory and string routines, over a memory of bytes by address.
--
-- Addresses do not wrap: each routine is given blocks that end below 2^64. A loop that counts `n`
-- down recurs on `n`; the loops that look for a NUL take fuel, and say `none` where it runs out.
pub mod Copy
pub mod Safe
pub mod Compare
mod Tests
use cs461_final_project_grub.Base.{
  ℕ, zero, suc, ◌+◌, ◌-◌, ◌*◌, ◌/◌, ◌%◌, ◌^◌, Bool, true, false, not, ◌&&◌, ◌||◌, ltb, leb, ◌==◌,
  if◌then◌else◌, update, ℤ, pos, negsuc, sub_ℕ, Option, none, some,
}

abbrev pub Memory : Type 0
Memory = ℕ → ℕ

-- `n` bytes stored by `stosb`.
unfoldable pub stosb : Memory → ℕ → ℕ → ℕ → Memory
stosb m dst c zero = m
stosb m dst c (suc n) = stosb (update m dst (c % 256)) (dst + 1) c n

-- One 32-bit word, lowest byte first.
unfoldable pub store_word : Memory → ℕ → ℕ → Memory
store_word m dst w =
    let m1 = update m dst (w % 256) in
    let m2 = update m1 (dst + 1) (w / 2 ^ 8 % 256) in
    let m3 = update m2 (dst + 2) (w / 2 ^ 16 % 256) in update m3 (dst + 3) (w / 2 ^ 24 % 256)

-- `n` words stored by `stosl`.
unfoldable pub stosl : Memory → ℕ → ℕ → ℕ → Memory
stosl m dst w zero = m
stosl m dst w (suc n) = stosl (store_word m dst w) (dst + 4) w n

unfoldable pub memset : Memory → ℕ → ℕ → ℕ → Memory
memset m dst c n =
    if dst % 4 == 0 && n % 4 == 0
    then (let b = c % 256 in stosl m dst (b * 2 ^ 24 + b * 2 ^ 16 + b * 2 ^ 8 + b) (n / 4))
    else stosb m dst c n

unfoldable pub memcmp : Memory → ℕ → ℕ → ℕ → ℤ
memcmp m s1 s2 zero = pos 0
memcmp m s1 s2 (suc n) =
    let rest = memcmp m (s1 + 1) (s2 + 1) n in
    if not (m s1 == m s2) then sub_ℕ (m s1) (m s2) else rest

-- `*--d = *--s`, `n` times, from `s` and `d` on.
unfoldable pub copy_down : Memory → ℕ → ℕ → ℕ → Memory
copy_down m d s zero = m
copy_down m d s (suc n) = copy_down (update m (d - 1) (m (s - 1))) (d - 1) (s - 1) n

-- `*d++ = *s++`, `n` times.
unfoldable pub copy_up : Memory → ℕ → ℕ → ℕ → Memory
copy_up m d s zero = m
copy_up m d s (suc n) = copy_up (update m d (m s)) (d + 1) (s + 1) n

unfoldable pub memmove : Memory → ℕ → ℕ → ℕ → Memory
memmove m d s n =
    if ltb s d && ltb d (s + n) then copy_down m (d + n) (s + n) n else copy_up m d s n

unfoldable pub memcpy : Memory → ℕ → ℕ → ℕ → Memory
memcpy m dst src n = memmove m dst src n

unfoldable pub strncmp : Memory → ℕ → ℕ → ℕ → ℤ
strncmp m p q zero = pos 0
strncmp m p q (suc n) =
    let rest = strncmp m (p + 1) (q + 1) n in
    if not (m p == 0) && m p == m q then rest else sub_ℕ (m p) (m q)

-- The second loop of `strncpy`.
unfoldable pub pad : Memory → ℕ → ℕ → Memory
pad m s zero = m
pad m s (suc n) = pad (update m s 0) (s + 1) n

unfoldable pub strncpy : Memory → ℕ → ℕ → ℕ → Memory
strncpy m s t zero = m
strncpy m s t (suc n) =
    let m' = update m s (m t) in
    let rest = strncpy m' (s + 1) (t + 1) n in if not (m t == 0) then rest else pad m' (s + 1) n

-- The loop of `safestrcpy`, where `--n` has left `n`; it ends in `*s = 0`, behind the NUL if one
-- was copied.
unfoldable pub safe_from : Memory → ℕ → ℕ → ℕ → Memory
safe_from m s t zero = update m s 0
safe_from m s t (suc n) =
    let m' = update m s (m t) in
    let rest = safe_from m' (s + 1) (t + 1) n in
    if not (m t == 0) then rest else update m' (s + 1) 0

unfoldable pub safestrcpy : Memory → ℕ → ℕ → ℕ → Memory
safestrcpy m s t n = if n == 0 then m else safe_from m s t (n - 1)

-- The loop of `strlen`, from index `n` on.
unfoldable pub strlen_from : ℕ → Memory → ℕ → ℕ → Option ℕ
strlen_from zero m s n = none
strlen_from (suc fuel) m s n =
    let rest = strlen_from fuel m s (n + 1) in if m (s + n) == 0 then some n else rest

unfoldable pub strlen : ℕ → Memory → ℕ → Option ℕ
strlen fuel m s = strlen_from fuel m s 0
