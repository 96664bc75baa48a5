-- ===== src/Server/Traffic.antt =====
-- A PUT and a GET of an object as `ServeHTTP` routes them (internal/s3api/router.go, object.go).
use locals.Base.{ℕ, ◌≡◌, codes, beq, true, false, [], ok}
use locals.Api.Request.{Request, put_method, get_method}
use locals.Api.Presign.{check_presign_expiry}
use locals.Api.Route.{resolve_target}
use locals.Api.Server

-- A request for an object, by a link that has not expired if it has one.
pub record IsForObject {S : Type 0} (sv : Server.Server S) (now : ℕ) (r : Request) : Type 0 where
  pub in_time : check_presign_expiry sv.go.parse_date r now ≡ ok tt
  pub named : beq (resolve_target sv.domain r).0 [] ≡ false
  pub keyed : beq (resolve_target sv.domain r).1 [] ≡ false

-- A PUT that brings an object: no copy, no part of an upload, no ACL and no tags.
pub record BringsObject (r : Request) : Type 0 where
  pub method : r.method ≡ put_method
  pub no_copy : beq (r.header (codes "X-Amz-Copy-Source")) [] ≡ true
  pub no_upload : r.has_query (codes "uploadId") ≡ false
  pub no_acl : r.has_query (codes "acl") ≡ false
  pub no_tagging : r.has_query (codes "tagging") ≡ false

-- A GET that asks for an object, and not for the parts of an upload.
pub record AsksObject (r : Request) : Type 0 where
  pub method : r.method ≡ get_method
  pub no_upload : r.has_query (codes "uploadId") ≡ false
