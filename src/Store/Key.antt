-- ===== src/Store/Key.antt =====
-- Bucket names and keys (internal/store/keypath.go): `ValidateBucketName`, `ValidateKey`,
-- `IsDirMarker`. The proofs are in the modules below this one.
pub mod Bucket
pub mod Valid
mod Tests
use locals.Base.{
  ℕ, zero, suc, ◌+◌, ◌-◌, ◌*◌, ◌≡◌, Bool, true, false, ◌&&◌, ◌||◌, not, List, [], ◌∷◌, Option, none,
  some, Bytes, codes, ltb, leb, ◌==◌, if◌then◌else◌, length, get_elem?, beq, contains,
  contains_byte, split, has_suffix, is_digit, Result, ok, err,
}
use locals.Store.Error.{Error, invalid_bucket_name, invalid_key, key_too_long}
use locals.Store.Utf8.{valid_utf8}

abbrev pub slash : ℕ
slash = b'/'

-- `MetaDirName`
abbrev pub meta_dir_name : Bytes
meta_dir_name = codes ".locals3"

-- `MaxKeyLength`
abbrev pub max_key_length : ℕ
max_key_length = 1024

unfoldable pub is_alnum : ℕ → Bool
is_alnum c = (leb b'a' c && leb c b'z') || (leb b'0' c && leb c b'9')

-- The bytes that the loop over the name lets pass.
is_name_byte : ℕ → Bool
is_name_byte c =
    (leb b'a' c && leb c b'z') || ((leb b'0' c && leb c b'9') || (c == b'-' || c == b'.'))

all_bytes : (ℕ → Bool) → Bytes → Bool
all_bytes test [] = true
all_bytes test (c ∷ s) = test c && all_bytes test s

-- `test(s[i])`
byte_at : (ℕ → Bool) → Bytes → ℕ → Bool
byte_at test s i = elim (get_elem? s i) [ none ↦ false | some c ↦ test c ]

decimal : ℕ → Bytes → ℕ
decimal n [] = n
decimal n (c ∷ s) = decimal (n * 10 + (c - b'0')) s

-- One field of a dotted address: one to three digits, no leading zero, at most 255.
is_octet : Bytes → Bool
unfolding is_digit all_bytes decimal byte_at
is_octet s =
    leb 1 (length s)
    && (leb (length s) 3
        && (all_bytes is_digit s
            && (not (byte_at (λ c. c == b'0') s 0 && leb 2 (length s)) && leb (decimal 0 s) 255)))

all_octets : List Bytes → Bool
unfolding is_octet
all_octets [] = true
all_octets (s ∷ ss) = is_octet s && all_octets ss

-- `net.ParseIP(name) != nil`, for a name with no colon: only the dotted form of IPv4 is left.
is_ip : Bytes → Bool
unfolding all_octets split
is_ip name = let fields = split name b'.' in length fields == 4 && all_octets fields

unfoldable pub validate_bucket_name : Bytes → Result Error (Unit {0})
unfolding is_alnum is_name_byte all_bytes byte_at is_ip contains
validate_bucket_name name =
    if ltb (length name) 3 || ltb 63 (length name)
    then err invalid_bucket_name
    else if not (all_bytes is_name_byte name)
    then err invalid_bucket_name
    else if not (byte_at is_alnum name 0) || not (byte_at is_alnum name (length name - 1))
    then err invalid_bucket_name
    else if contains name (codes "..")
    then err invalid_bucket_name
    else if is_ip name
    then err invalid_bucket_name
    else ok tt

-- The loop over the segments: `i` is the index of the first one left, `n` is `len(segs)`.
check_segments : ℕ → ℕ → List Bytes → Result Error (Unit {0})
unfolding beq
check_segments i n [] = ok tt
check_segments i n (seg ∷ segs) =
    let rest = check_segments (suc i) n segs in
    if beq seg []
    then if i == n - 1 && ltb 0 i then rest else err invalid_key
    else if beq seg (codes ".") || beq seg (codes "..")
    then err invalid_key
    else rest

unfoldable pub validate_key : Bytes → Result Error (Unit {0})
unfolding check_segments valid_utf8 contains_byte split beq
validate_key key =
    if beq key []
    then err invalid_key
    else if ltb max_key_length (length key)
    then err key_too_long
    else if not (valid_utf8 key)
    then err invalid_key
    else if contains_byte key 0
    then err invalid_key
    else let segs = split key slash in check_segments 0 (length segs) segs

unfoldable pub is_dir_marker : Bytes → Bool
unfolding has_suffix
is_dir_marker key = has_suffix key (slash ∷ [])
