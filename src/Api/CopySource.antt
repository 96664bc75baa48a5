-- ===== src/Api/CopySource.antt =====
-- The source of a copy (internal/s3api/copy.go): `parseCopySource`. `unescape` is
-- `url.QueryUnescape`, which fails on what is not percent-encoded.
use locals.Base.{
  ◌≡◌, Bool, true, false, ◌||◌, not, [], ◌∷◌, ◌++◌, Option, none, some, arith, Bytes, codes,
  if◌then◌else◌, beq, cut, index, take, trim_prefix, trim_prefix-append, Lacks, contains_byte,
  cut-append, Result, ok, err,
}
use locals.Api.Error.{ApiError, err_invalid_argument}

-- The header up to `?versionId=`.
unfoldable pub strip_version : Bytes → Bytes
strip_version v = elim (index v (codes "?versionId=")) [ none ↦ v | some i ↦ take i v ]

pub split_source : Bytes → Result ApiError (Bytes × Bytes)
split_source decoded =
    let (bucket, key, found) = cut (trim_prefix decoded (codes "/")) b'/' in
    if not found || (beq bucket [] || beq key [])
    then err err_invalid_argument
    else ok (bucket, key)

unfoldable pub parse_copy_source : (Bytes → Option Bytes) → Bytes → Result ApiError (Bytes × Bytes)
parse_copy_source unescape v =
    if beq v []
    then err err_invalid_argument
    else split_source
        (elim (unescape (strip_version v)) [ none ↦ strip_version v | some decoded ↦ decoded ])

-- A leading slash is optional.
abbrev pub lead : Bool → Bytes
lead true = codes "/"
lead false = []

without_lead :
    (slash : Bool) (b k : Bytes)
    → beq b [] ≡ false
    → Lacks b'/' b
    → trim_prefix (lead slash ++ (b ++ (b'/' ∷ k))) (codes "/") ≡ b ++ (b'/' ∷ k)
unfolding trim_prefix contains_byte beq
without_lead true b k full lacks = trim_prefix-append (codes "/") (b ++ (b'/' ∷ k))
without_lead false [] k full lacks = cc
without_lead false (c ∷ b) k full lacks = ground arith

split_lem :
    (slash : Bool) (b k : Bytes)
    → beq b [] ≡ false
    → Lacks b'/' b
    → beq k [] ≡ false
    → split_source (lead slash ++ (b ++ (b'/' ∷ k))) ≡ ok (b, k)
unfolding split_source
split_lem slash b k full lacks key =
    rw (without_lead slash b k full lacks, cut-append b k b'/' lacks, full, key)

-- A header that unescapes to `bucket/key` or `/bucket/key` names that bucket and key, where the
-- bucket holds no slash and neither is empty; the key may hold slashes.
pub parse_copy_source_lem :
    (unescape : Bytes → Option Bytes) (v : Bytes) (slash : Bool) (b k : Bytes)
    → beq v [] ≡ false
    → unescape (strip_version v) ≡ some (lead slash ++ (b ++ (b'/' ∷ k)))
    → beq b [] ≡ false
    → Lacks b'/' b
    → beq k [] ≡ false
    → parse_copy_source unescape v ≡ ok (b, k)
unfolding parse_copy_source
parse_copy_source_lem unescape v slash b k given e full lacks key =
    rw (given, e, parse_copy_source) (split_lem slash b k full lacks key)
