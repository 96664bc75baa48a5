-- ===== src/Store/Token.antt =====
-- Continuation tokens (internal/store/list.go): `encodeToken` and `decodeToken`, over the URL-safe
-- base64 of package encoding/base64.
use locals.Base.{
  ℕ, ◌+◌, ◌-◌, ◌*◌, ◌/◌, ◌%◌, ◌<◌, ◌≡◌, refl, ap, ap₂, Bool, true, false, ◌&&◌, ◌||◌, [], ◌∷◌, ◌++◌,
  Option, none, some, arith, Bytes, ltb, leb, ◌==◌, if◌then◌else◌, All, Result, ok, err,
}
use locals.Store.Error.{Error, invalid_argument}

abbrev pad : ℕ
pad = b'='

-- A digit of six bits.
digit_of : ℕ → ℕ
digit_of n =
    if ltb n 26
    then b'A' + n
    else if ltb n 52
    then b'a' + (n - 26)
    else if ltb n 62
    then b'0' + (n - 52)
    else if n == 62
    then b'-'
    else b'_'

value_of : ℕ → Option ℕ
value_of c =
    if leb b'A' c && leb c b'Z'
    then some (c - b'A')
    else if leb b'a' c && leb c b'z'
    then some (c - b'a' + 26)
    else if leb b'0' c && leb c b'9'
    then some (c - b'0' + 52)
    else if c == b'-'
    then some 62
    else if c == b'_'
    then some 63
    else none

-- `EncodeToString`
pub encode : Bytes → Bytes
encode [] = []
encode (a ∷ []) = digit_of (a / 4) ∷ digit_of (a % 4 * 16) ∷ pad ∷ pad ∷ []
encode (a ∷ b ∷ []) =
    digit_of (a / 4) ∷ digit_of (a % 4 * 16 + b / 16) ∷ digit_of (b % 16 * 4) ∷ pad ∷ []
encode (a ∷ b ∷ c ∷ s) =
    digit_of (a / 4)
    ∷ digit_of (a % 4 * 16 + b / 16)
    ∷ digit_of (b % 16 * 4 + c / 64)
    ∷ digit_of (c % 64)
    ∷ encode s

-- The bytes of four digits.
triple : ℕ → ℕ → ℕ → ℕ → Bytes
triple x y z w = (x * 4 + y / 16) ∷ (y % 16 * 16 + z / 4) ∷ (z % 4 * 64 + w) ∷ []

-- Four characters; `last` tells whether nothing follows. Bits behind the last byte are ignored.
quantum : ℕ → ℕ → ℕ → ℕ → Bool → Option Bytes
quantum p q r s last = elim (value_of p) [
  | none ↦ none
  | some x ↦ elim (value_of q) [
    | none ↦ none
    | some y ↦
        if r == pad
        then (if s == pad && last then some ((x * 4 + y / 16) ∷ []) else none)
        else elim (value_of r) [
          | none ↦ none
          | some z ↦
              if s == pad
              then (if last then some ((x * 4 + y / 16) ∷ (y % 16 * 16 + z / 4) ∷ []) else none)
              else elim (value_of s) [ none ↦ none | some w ↦ some (triple x y z w) ]
        ]
  ]
]

is_nil : Bytes → Bool
is_nil [] = true
is_nil (c ∷ s) = false

pub decode_quanta : Bytes → Option Bytes
decode_quanta [] = some []
decode_quanta (p ∷ q ∷ r ∷ s ∷ rest) = elim (quantum p q r s (is_nil rest)) [
  | none ↦ none
  | some front ↦ elim (decode_quanta rest) [ none ↦ none | some back ↦ some (front ++ back) ]
]
decode_quanta s = none

-- Line breaks are skipped wherever they stand.
pub skip_breaks : Bytes → Bytes
skip_breaks [] = []
skip_breaks (c ∷ s) = let rest = skip_breaks s in if c == 10 || c == 13 then rest else c ∷ rest

unfoldable pub encode_token : Bytes → Bytes
encode_token key = encode key

-- `DecodeString`, whose error becomes `ErrInvalidArgument`.
unfoldable pub decode_token : Bytes → Result Error Bytes
decode_token tok = elim (decode_quanta (skip_breaks tok)) [
  | none ↦ err invalid_argument
  | some b ↦ ok b
]

value_of-digit_of : (n : ℕ) → n < 64 → value_of (digit_of n) ≡ some n
unfolding value_of digit_of
value_of-digit_of n h = ground arith

digit_of-ne :
    (n : ℕ)
    → n < 64
    → ((digit_of n == pad) ≡ false) × ((digit_of n == 10) ≡ false) × ((digit_of n == 13) ≡ false)
unfolding digit_of
digit_of-ne n h = ground arith

abbrev pub IsByte : ℕ → Type 0
IsByte c = c < 256

skip_breaks-encode : (s : Bytes) → All IsByte s → skip_breaks (encode s) ≡ encode s
unfolding skip_breaks encode
skip_breaks-encode [] _ = refl
skip_breaks-encode (a ∷ []) (ha, _) = ground (arith, digit_of-ne (a / 4), digit_of-ne (a % 4 * 16))
skip_breaks-encode (a ∷ b ∷ []) (ha, (hb, _)) =
    ground (arith, digit_of-ne (a / 4), digit_of-ne (a % 4 * 16 + b / 16), digit_of-ne (b % 16 * 4))
skip_breaks-encode (a ∷ b ∷ c ∷ s) (ha, (hb, (hc, hs))) = ground (
  arith,
  digit_of-ne (a / 4),
  digit_of-ne (a % 4 * 16 + b / 16),
  digit_of-ne (b % 16 * 4 + c / 64),
  digit_of-ne (c % 64),
  skip_breaks-encode s hs,
)

quantum_one :
    (a : ℕ)
    → a < 256
    → quantum (digit_of (a / 4)) (digit_of (a % 4 * 16)) pad pad true ≡ some (a ∷ [])
unfolding quantum
quantum_one a h =
    rw
      (
        value_of-digit_of (a / 4) (omega arith),
        value_of-digit_of (a % 4 * 16) (omega arith),
        quantum,
      )
      (ap (λ n. some (n ∷ [])) (omega arith))

quantum_two :
    (a b : ℕ)
    → a < 256
    → b < 256
    → quantum (digit_of (a / 4)) (digit_of (a % 4 * 16 + b / 16)) (digit_of (b % 16 * 4)) pad true
      ≡ some (a ∷ b ∷ [])
unfolding quantum
quantum_two a b h k =
    rw
      (
        value_of-digit_of (a / 4) (omega arith),
        value_of-digit_of (a % 4 * 16 + b / 16) (omega arith),
        (digit_of-ne (b % 16 * 4) (omega arith)).0,
        value_of-digit_of (b % 16 * 4) (omega arith),
        quantum,
      )
      (ap₂ (λ n m. some (n ∷ m ∷ [])) (omega arith) (omega arith))

quantum_three :
    (a b c : ℕ) (last : Bool)
    → a < 256
    → b < 256
    → c < 256
    → quantum
        (digit_of (a / 4))
        (digit_of (a % 4 * 16 + b / 16))
        (digit_of (b % 16 * 4 + c / 64))
        (digit_of (c % 64))
        last
      ≡ some (a ∷ b ∷ c ∷ [])
unfolding quantum triple
quantum_three a b c last h k l =
    rw
      (
        value_of-digit_of (a / 4) (omega arith),
        value_of-digit_of (a % 4 * 16 + b / 16) (omega arith),
        (digit_of-ne (b % 16 * 4 + c / 64) (omega arith)).0,
        value_of-digit_of (b % 16 * 4 + c / 64) (omega arith),
        (digit_of-ne (c % 64) (omega arith)).0,
        value_of-digit_of (c % 64) (omega arith),
        quantum,
      )
      (ap some (triple_bytes a b c h k l))
  where
    triple_bytes :
        (a b c : ℕ)
        → a < 256
        → b < 256
        → c < 256
        → triple (a / 4) (a % 4 * 16 + b / 16) (b % 16 * 4 + c / 64) (c % 64) ≡ a ∷ b ∷ c ∷ []
    triple_bytes a b c h k l =
        ap₂ (λ n (t : Bytes). n ∷ t) (omega arith)
          (ap₂ (λ n (t : Bytes). n ∷ t) (omega arith) (ap (λ n. n ∷ []) (omega arith)))

decode_quanta-encode : (s : Bytes) → All IsByte s → decode_quanta (encode s) ≡ some s
unfolding decode_quanta encode is_nil
decode_quanta-encode [] _ = refl
decode_quanta-encode (a ∷ []) (ha, _) = rw (quantum_one a ha, decode_quanta)
decode_quanta-encode (a ∷ b ∷ []) (ha, (hb, _)) = rw (quantum_two a b ha hb, decode_quanta)
decode_quanta-encode (a ∷ b ∷ c ∷ s) (ha, (hb, (hc, hs))) =
    rw (quantum_three a b c (is_nil (encode s)) ha hb hc, decode_quanta-encode s hs, decode_quanta)

-- A token leads back to the key that it was made of, for every string of bytes.
pub decode_token-encode_token :
    (key : Bytes) → All IsByte key → decode_token (encode_token key) ≡ ok key
unfolding decode_token encode_token
decode_token-encode_token key h =
    rw (skip_breaks-encode key h, decode_quanta-encode key h, decode_token)
