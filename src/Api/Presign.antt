-- ===== src/Api/Presign.antt =====
-- Signed requests (internal/s3api/sigv4.go): `accessKey`, `isPresigned` and `checkPresignExpiry`.
use locals.Base.{
  ℕ, ◌+◌, ◌*◌, ◌-◌, ◌%◌, ◌^◌, ◌<◌, ◌≡◌, ◌↔◌, Bool, true, false, ◌||◌, not, List, [], ◌∷◌, Option,
  none, some, arith, Bytes, codes, ltb, ◌==◌, if◌then◌else◌, beq, cut, cut_prefix, has_prefix,
  trim_prefix, split, trim_space, Result, ok, err,
}
use locals.Base.Int.{pos, negsuc, parse_int}
use locals.Api.Error.{ApiError, err_access_denied}
use locals.Api.Request.{Request}

-- `credentialScopeKey`: what stands before the first slash.
unfoldable pub credential_scope_key : Bytes → Bytes
credential_scope_key cred = (cut cred b'/').0

find_credential : List Bytes → Bytes
find_credential [] = []
find_credential (part ∷ parts) = elim (cut_prefix (trim_space part) (codes "Credential=")) [
  | some rest ↦ credential_scope_key rest
  | none ↦ find_credential parts
]

unfoldable pub access_key : Request → Bytes
unfolding find_credential
access_key r =
    let auth = r.header (codes "Authorization") in
    if not (beq (r.query (codes "X-Amz-Credential")) [])
    then credential_scope_key (r.query (codes "X-Amz-Credential"))
    else if not (has_prefix auth (codes "AWS4-HMAC-SHA256"))
    then []
    else find_credential (split (trim_prefix auth (codes "AWS4-HMAC-SHA256")) b',')

unfoldable pub is_presigned : Request → Bool
is_presigned r = not (beq (r.query (codes "X-Amz-Signature")) [])

-- `time.Second`, in nanoseconds.
second : ℕ
second = 10 ^ 9

-- `signedAt.Add(time.Duration(seconds) * time.Second)`, in nanoseconds. The product is an int64:
-- bits beyond 64 are lost, and from 2^63 on it is negative. A time before the epoch counts as 0.
unfoldable pub deadline : ℕ → ℕ → ℕ
unfolding second
deadline signed_at seconds =
    let product = seconds * second % 2 ^ 64 in
    if ltb product (2 ^ 63) then signed_at + product else signed_at + product - 2 ^ 64

-- `parse_date` is `time.Parse` with the layout of X-Amz-Date, in nanoseconds.
unfoldable pub check_presign_expiry : (Bytes → Option ℕ) → Request → ℕ → Result ApiError (Unit {0})
check_presign_expiry parse_date r now =
    let date = r.query (codes "X-Amz-Date") in
    let expires = r.query (codes "X-Amz-Expires") in
    if not (is_presigned r)
    then ok tt
    else if beq date [] || beq expires []
    then ok tt
    else elim (parse_date date) [
      | none ↦ ok tt
      | some signed_at ↦ elim (parse_int 10 expires) [
        | none ↦ ok tt
        | some (negsuc n) ↦ ok tt
        | some (pos seconds) ↦
            if seconds == 0
            then ok tt
            else if ltb (deadline signed_at seconds) now
            then err err_access_denied
            else ok tt
      ]
    ]

deadline_exact :
    (signed_at seconds : ℕ)
    → seconds < 9223372036
    → deadline signed_at seconds ≡ signed_at + seconds * 1000000000
unfolding deadline
deadline_exact signed_at seconds h = ground arith

-- A presigned request with a date and a lifetime of up to some 292 years is refused exactly when
-- its lifetime has passed.
pub check_presign_expiry_iff :
    (parse_date : Bytes → Option ℕ) (r : Request) (now signed_at seconds : ℕ)
    → is_presigned r ≡ true
    → beq (r.query (codes "X-Amz-Date")) [] ≡ false
    → beq (r.query (codes "X-Amz-Expires")) [] ≡ false
    → parse_date (r.query (codes "X-Amz-Date")) ≡ some signed_at
    → parse_int 10 (r.query (codes "X-Amz-Expires")) ≡ some (pos seconds)
    → 0 < seconds
    → seconds < 9223372036
    → (check_presign_expiry parse_date r now ≡ err err_access_denied)
      ↔ (signed_at + seconds * 1000000000 < now)
unfolding check_presign_expiry
check_presign_expiry_iff parse_date r now signed_at seconds sig d e at secs positive small =
    ground (arith, deadline_exact signed_at seconds)
