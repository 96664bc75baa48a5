-- ===== src/Api/Route.antt =====
-- The target of a request (internal/s3api/router.go): `resolveTarget`.
use locals.Base.{
  ap₂, trim_prefix-append, ◌≡◌, sym, ap, ◌∙◌, Bool, false, [], ◌∷◌, ◌++◌, Option, none, some, Bytes,
  codes, if◌then◌else◌, beq, cut, cut_suffix, cut-append, trim_prefix, Lacks, has_suffix-append,
  length-append, length, ◌-◌, take-length_append, arith,
}
use locals.Api.Request.{Request}

-- The host without its port.
unfoldable pub host_name : Bytes → Bytes
host_name host = (cut host b':').0

-- The bucket that the host names, where it lies below the server's domain.
unfoldable pub host_bucket : Bytes → Bytes → Option Bytes
host_bucket domain host =
    if beq domain [] then none else elim (cut_suffix (host_name host) (b'.' ∷ domain)) [
      | none ↦ none
      | some b ↦ if beq b [] then none else some b
    ]

-- Path style where the host names no bucket.
unfoldable pub target_of : Option Bytes → Bytes → Bytes × Bytes
target_of (some b) path = (b, path)
target_of none path = let (bucket, key, found) = cut path b'/' in (bucket, key)

unfoldable pub resolve_target : Bytes → Request → Bytes × Bytes
resolve_target domain r = target_of (host_bucket domain r.host) (trim_prefix r.path (codes "/"))

cut_suffix-append : (s p : Bytes) → cut_suffix (s ++ p) p ≡ some s
unfolding cut_suffix
cut_suffix-append s p =
    let e : length (s ++ p) - length p ≡ length s = omega (arith, length-append s p) in
    rw (has_suffix-append s p, e, take-length_append s p)

host_bucket-append :
    (domain b port : Bytes)
    → beq domain [] ≡ false
    → beq b [] ≡ false
    → Lacks b':' (b ++ (b'.' ∷ domain))
    → host_bucket domain ((b ++ (b'.' ∷ domain)) ++ (b':' ∷ port)) ≡ some b
unfolding host_bucket host_name
host_bucket-append domain b port served full lacks = rw (
  served,
  host_name,
  cut-append (b ++ (b'.' ∷ domain)) port b':' lacks,
  cut_suffix-append b (b'.' ∷ domain),
  full,
)

-- A request to a bucket's own host below the server's domain, with a port, has the target that the
-- request for `/bucket/key` has at a server with no domain, where the bucket's name holds no slash.
pub resolve_target-virtual :
    (domain b key port : Bytes) (r s : Request)
    → beq domain [] ≡ false
    → beq b [] ≡ false
    → Lacks b':' (b ++ (b'.' ∷ domain))
    → Lacks b'/' b
    → r.host ≡ (b ++ (b'.' ∷ domain)) ++ (b':' ∷ port)
    → r.path ≡ b'/' ∷ key
    → s.path ≡ b'/' ∷ (b ++ (b'/' ∷ key))
    → resolve_target domain r ≡ resolve_target [] s
unfolding resolve_target host_bucket beq target_of
resolve_target-virtual domain b key port r s served full lacks no_slash at_host at_path path_style =
    ap₂ target_of
      (ap (host_bucket domain) at_host ∙ host_bucket-append domain b port served full lacks)
      (ap (λ t. trim_prefix t (codes "/")) at_path ∙ trim_prefix-append (codes "/") key)
    ∙ sym (ap (λ (c : Bytes × Bytes × Bool). (c.0, c.1)) (cut-append b key b'/' no_slash))
    ∙ sym (
        ap (target_of none) (
          ap (λ t. trim_prefix t (codes "/")) path_style
          ∙ trim_prefix-append (codes "/") (b ++ (b'/' ∷ key))))
