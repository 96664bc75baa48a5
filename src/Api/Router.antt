-- ===== src/Api/Router.antt =====
-- The way of a request (internal/s3api/router.go, object.go): `ServeHTTP` and `serveObject`, up to the
-- answer. The delay, the draw for failures and the log are those of Api/Serve.
pub mod Head
pub mod Expired
pub mod GetHead
use locals.Base.{
  ℕ, Bool, Result, true, false, ◌||◌, not, [], ◌∷◌, Bytes, codes, beq, if◌then◌else◌, ok, err,
}
use locals.Api.Error.{ApiError, err_method_not_allowed, err_not_implemented, err_slow_down}
use locals.Api.Request.{
  Method, Request, get_method, head_method, put_method, post_method, delete_method, other_method,
}
use locals.Api.Presign.{check_presign_expiry}
use locals.Api.Route.{resolve_target}
use locals.Api.Packages.{Packages}
use locals.Api.Response.{Headers, Call, set, write_error}
use locals.Api.Object.{put_object, get_object, delete_object}
use locals.Api.Copy.{copy_object}
use locals.Api.Multipart.{
  create_multipart_upload, upload_part, complete_multipart_upload, abort_multipart_upload,
  list_parts,
}
use locals.Api.Bucket.{serve_bucket, serve_service}
use locals.Api.Server.{Server, Handler, answer}

module _ {S : Type 0} (sv : Server S) where
  unfoldable pub serve_put : Call → Handler S
  serve_put c =
      if not (beq (c.request.header (codes "X-Amz-Copy-Source")) [])
      then copy_object sv c
      else if c.request.has_query (codes "uploadId")
      then upload_part sv c
      else if c.request.has_query (codes "acl") || c.request.has_query (codes "tagging")
      then answer (write_error sv.go c err_not_implemented c.base)
      else put_object sv c

  unfoldable pub serve_post : Call → Handler S
  serve_post c =
      if c.request.has_query (codes "uploads")
      then create_multipart_upload sv c
      else if c.request.has_query (codes "uploadId")
      then complete_multipart_upload sv c
      else answer (write_error sv.go c err_not_implemented c.base)

  unfoldable pub object_by : Method → Call → Handler S
  object_by put_method c = serve_put c
  object_by get_method c =
      if c.request.has_query (codes "uploadId") then list_parts sv c else get_object sv true c
  object_by head_method c = get_object sv false c
  object_by delete_method c =
      if c.request.has_query (codes "uploadId")
      then abort_multipart_upload sv c
      else delete_object sv c
  object_by post_method c = serve_post c
  object_by other_method c = answer (write_error sv.go c err_method_not_allowed c.base)

  -- `serveObject`
  unfoldable pub serve_object : Call → Handler S
  serve_object c = object_by c.request.method c

  -- The header that every response has.
  unfoldable pub common_headers : Bytes → Headers
  common_headers rid =
      set sv.go (codes "Server") (codes "locals3")
        (set sv.go (codes "x-amz-id-2") rid (set sv.go (codes "x-amz-request-id") rid []))

  -- A request with its target.
  unfoldable pub routed : Bytes → Request → Call
  routed rid r =
      let (bucket, key) = resolve_target sv.domain r in
      record { request = r; rid = rid; base = common_headers rid; bucket = bucket; key = key }

  -- By what the target names.
  unfoldable pub dispatch : Call → Handler S
  dispatch c =
      if beq c.bucket []
      then serve_service sv c
      else if beq c.key []
      then serve_bucket sv c
      else serve_object c

  -- What is refused before it is looked at: an expired link, and a request that `FailRate` picks.
  unfoldable pub admit : Call → Result ApiError (Unit {0}) → Bool → Handler S
  admit c (err e) unlucky = answer (write_error sv.go c e c.base)
  admit c (ok u) true = answer (write_error sv.go c err_slow_down c.base)
  admit c (ok u) false = dispatch c

  -- `ServeHTTP`. `unlucky` is whether the draw for `FailRate` picks the request.
  unfoldable pub serve_http : Bytes → ℕ → Bool → Request → Handler S
  serve_http rid now unlucky r =
      admit (routed rid r) (check_presign_expiry sv.go.parse_date r now) unlucky
