-- ===== src/Store/Utf8.antt =====
-- `utf8.ValidString`, as `ValidateKey` calls it: an automaton over the bytes.
use locals.Base.{
  ℕ, zero, suc, ◌≡◌, refl, Bool, true, false, ◌&&◌, [], ◌∷◌, Option, none, some, Bytes, ltb, leb,
  All, ◌<◌, arith, if◌then◌else◌,
}

-- Between two characters, or inside one: the range of the next byte, and how many follow it.
pub data Utf8 : Type 0 where
  start : Utf8
  within : ℕ → ℕ → ℕ → Utf8

first_byte : ℕ → Option Utf8
first_byte c =
    if ltb c 0x80
    then some start
    else if ltb c 0xC2
    then none
    else if ltb c 0xE0
    then some (within 0x80 0xBF 0)
    else if leb c 0xE0
    then some (within 0xA0 0xBF 1)
    else if leb c 0xEC
    then some (within 0x80 0xBF 1)
    else if leb c 0xED
    then some (within 0x80 0x9F 1)
    else if leb c 0xEF
    then some (within 0x80 0xBF 1)
    else if leb c 0xF0
    then some (within 0x90 0xBF 2)
    else if leb c 0xF3
    then some (within 0x80 0xBF 2)
    else if leb c 0xF4
    then some (within 0x80 0x8F 2)
    else none

next_byte : Utf8 → ℕ → Option Utf8
unfolding first_byte
next_byte start c = first_byte c
next_byte (within lo hi zero) c = if leb lo c && leb c hi then some start else none
next_byte (within lo hi (suc n)) c =
    if leb lo c && leb c hi then some (within 0x80 0xBF n) else none

valid_from : Utf8 → Bytes → Bool
unfolding next_byte
valid_from start [] = true
valid_from (within lo hi n) [] = false
valid_from u (c ∷ s) = elim (next_byte u c) [ none ↦ false | some v ↦ valid_from v s ]

unfoldable pub valid_utf8 : Bytes → Bool
unfolding valid_from
valid_utf8 s = valid_from start s

-- Bytes below 0x80 are characters of their own.
pub valid_utf8-ascii : (s : Bytes) → All (λ (c : ℕ). c < 0x80) s → valid_utf8 s ≡ true
unfolding valid_utf8 valid_from next_byte first_byte
valid_utf8-ascii [] h = refl
valid_utf8-ascii (c ∷ s) (low, h) =
    let small : ltb c 0x80 ≡ true = ground arith in
    rw (valid_utf8, valid_from, next_byte, first_byte, small) (valid_utf8-ascii s h)

accepts_two_bytes : valid_utf8 (0x61 ∷ 0xC3 ∷ 0xA9 ∷ []) ≡ true
unfolding valid_utf8
accepts_two_bytes = refl

refuses_surrogates : valid_utf8 (0xED ∷ 0xA0 ∷ 0x80 ∷ []) ≡ false
unfolding valid_utf8
refuses_surrogates = refl

-- A text that is cut short is refused.
refuses_unfinished : valid_utf8 (0xE2 ∷ 0x82 ∷ []) ≡ false
unfolding valid_utf8
refuses_unfinished = refl
