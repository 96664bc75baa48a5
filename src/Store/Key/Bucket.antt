-- ===== src/Store/Key/Bucket.antt =====
-- What `ValidateBucketName` guarantees to the code that makes a directory of the name.
use locals.Base.{
  ◌≤◌, ◌≡◌, ◌≢◌, refl, subst, true, false, [], ◌∷◌, arith, Bytes, length, beq, contains_byte, ok,
}
use locals.Store.Key.{
  slash, meta_dir_name, is_name_byte, is_alnum, all_bytes, byte_at, validate_bucket_name,
}
use locals.Store.Key.Valid.{IsPlain}

lacks_of_name_bytes : (s : Bytes) → all_bytes is_name_byte s ≡ true → contains_byte s slash ≡ false
unfolding all_bytes is_name_byte contains_byte
lacks_of_name_bytes [] h = refl
lacks_of_name_bytes (c ∷ s) h = ground (arith, lacks_of_name_bytes s)

name_bytes_of_valid :
    (name : Bytes)
    → validate_bucket_name name ≡ ok tt
    → (all_bytes is_name_byte name ≡ true)
      × (3 ≤ length name)
      × (length name ≤ 63)
      × (byte_at is_alnum name 0 ≡ true)
unfolding validate_bucket_name
name_bytes_of_valid [] h = ground arith
name_bytes_of_valid (c ∷ name) h = ground arith

pub name-IsPlain :
    (name : Bytes) → contains_byte name slash ≡ false → 3 ≤ length name → IsPlain name
unfolding beq
name-IsPlain [] lacks h = absurd (omega arith)
name-IsPlain (a ∷ []) lacks h = absurd (omega arith)
name-IsPlain (a ∷ b ∷ []) lacks h = absurd (omega arith)
name-IsPlain (a ∷ b ∷ c ∷ s) lacks h = (refl, ground arith, ground arith, lacks)

dot_first : (name : Bytes) → byte_at is_alnum name 0 ≡ true → name ≢ meta_dir_name
unfolding byte_at is_alnum
dot_first name h e = cc (subst (λ t. byte_at is_alnum t 0 ≡ true) e h)

-- An accepted name is one plain segment of a path, so its directory lies directly below the root,
-- and it is not the reserved directory `.locals3`.
pub validate_bucket_name-IsPlain :
    (name : Bytes) → validate_bucket_name name ≡ ok tt → IsPlain name × (name ≢ meta_dir_name)
validate_bucket_name-IsPlain name h =
    let (bytes, low, high, first) = name_bytes_of_valid name h in
    (name-IsPlain name (lacks_of_name_bytes name bytes) low, dot_first name first)
