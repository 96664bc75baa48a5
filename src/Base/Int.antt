-- ===== src/Base/Int.antt =====
-- `strconv.ParseInt(s, base, 64)` for the bases 10 and 16, over integers.
use locals.Base.{
  ℕ, ◌+◌, ◌-◌, ◌*◌, ◌^◌, ◌≡◌, refl, Bool, true, false, ◌&&◌, [], ◌∷◌, Option, none, some, Bytes,
  codes, ltb, leb, ◌==◌, if◌then◌else◌,
}

-- `negsuc n` is -(n + 1).
pub data ℤ : Type 0 where
  pos : ℕ → ℤ
  negsuc : ℕ → ℤ

digit_value : ℕ → Option ℕ
digit_value c =
    if leb b'0' c && leb c b'9'
    then some (c - b'0')
    else if leb b'a' c && leb c b'z'
    then some (c - b'a' + 10)
    else if leb b'A' c && leb c b'Z'
    then some (c - b'A' + 10)
    else none

-- The number that digits spell behind `n`; `none` where one is no digit of the base.
digits : ℕ → ℕ → Bytes → Option ℕ
unfolding digit_value
digits base n [] = some n
digits base n (c ∷ s) = elim (digit_value c) [
  | none ↦ none
  | some d ↦ elim (ltb d base) [ true ↦ digits base (n * base + d) s | false ↦ none ]
]

unsigned : ℕ → Bytes → Option ℕ
unfolding digits
unsigned base [] = none
unsigned base (c ∷ s) = digits base 0 (c ∷ s)

in_int64 : Bool → ℕ → Option ℤ
in_int64 false n = if ltb n (2 ^ 63) then some (pos n) else none
in_int64 true n =
    if n == 0 then some (pos 0) else if leb n (2 ^ 63) then some (negsuc (n - 1)) else none

signed : ℕ → Bool → Bytes → Option ℤ
unfolding unsigned in_int64
signed base negative s = elim (unsigned base s) [ none ↦ none | some n ↦ in_int64 negative n ]

unfoldable pub parse_int : ℕ → Bytes → Option ℤ
unfolding signed
parse_int base [] = none
parse_int base (c ∷ s) =
    if c == b'+'
    then signed base false s
    else if c == b'-'
    then signed base true s
    else signed base false (c ∷ s)

decimal : parse_int 10 (codes "-42") ≡ some (negsuc 41)
unfolding parse_int
decimal = refl

hexadecimal : parse_int 16 (codes "1F") ≡ some (pos 31)
unfolding parse_int
hexadecimal = refl

too_large : parse_int 10 (codes "9223372036854775808") ≡ none
unfolding parse_int
too_large = refl
