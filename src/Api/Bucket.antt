-- ===== src/Api/Bucket.antt =====
-- Requests for a bucket and for the service (internal/s3api/bucket.go, router.go): `serveBucket`,
-- `listBuckets`, `firstPresent` and `serveService`.
use locals.Base.{List, [], ◌∷◌, ◌++◌, Bytes, codes, beq, if◌then◌else◌}
use locals.Api.Error.{err_method_not_allowed, err_not_implemented}
use locals.Api.Request.{
  Method, Request, get_method, head_method, put_method, post_method, delete_method, other_method,
}
use locals.Api.Xml.{all_my_buckets, location_constraint, versioning_configuration, default_owner}
use locals.Api.Response.{Call, set, write_header, write_error, write_xml}
use locals.Api.List.{list_objects}
use locals.Api.Delete.{delete_objects}
use locals.Api.Multipart.{list_multipart_uploads}
use locals.Api.Server.{Server, Handler, attempt, answer}

-- `firstPresent`, where the empty name stands for none.
unfoldable pub first_present : Request → List Bytes → Bytes
first_present r [] = []
first_present r (n ∷ names) = let rest = first_present r names in if r.has_query n then n else rest

-- The sub-resources of a bucket that a PUT may not name.
abbrev pub bucket_resources : List Bytes
bucket_resources =
    codes "acl"
    ∷ codes "policy"
    ∷ codes "cors"
    ∷ codes "lifecycle"
    ∷ codes "versioning"
    ∷ codes "tagging"
    ∷ codes "logging"
    ∷ []

module _ {S : Type 0} (sv : Server S) where
  -- `listBuckets`
  unfoldable pub list_buckets : Call → Handler S
  list_buckets c = attempt sv c c.base sv.store.list_buckets λ buckets. answer (
      write_xml sv.go 200 (all_my_buckets (record { owner = default_owner; buckets = buckets }))
        c.base)

  unfoldable pub put_bucket : Call → Handler S
  put_bucket c =
      if beq (first_present c.request bucket_resources) []
      then attempt sv c c.base (sv.store.create_bucket c.bucket) (λ u.
        answer (write_header 200 (set sv.go (codes "Location") (codes "/" ++ c.bucket) c.base)))
      else answer (write_error sv.go c err_not_implemented c.base)

  -- The answers to a GET of a bucket that is there.
  unfoldable pub get_bucket : Call → Handler S
  get_bucket c =
      if c.request.has_query (codes "location")
      then answer (
          write_xml sv.go 200
            (location_constraint (if beq sv.region (codes "us-east-1") then [] else sv.region))
            c.base)
      else if c.request.has_query (codes "uploads")
      then list_multipart_uploads sv c
      else if c.request.has_query (codes "versioning")
      then answer (write_xml sv.go 200 versioning_configuration c.base)
      else list_objects sv (beq (c.request.query (codes "list-type")) (codes "2")) c

  unfoldable pub bucket_by : Method → Call → Handler S
  bucket_by put_method c = put_bucket c
  bucket_by delete_method c =
      attempt sv c c.base (sv.store.delete_bucket c.bucket) (λ u. answer (write_header 204 c.base))
  bucket_by head_method c =
      attempt sv c c.base (sv.store.head_bucket c.bucket)
        (λ u. answer (write_header 200 (set sv.go (codes "x-amz-bucket-region") sv.region c.base)))
  bucket_by get_method c = attempt sv c c.base (sv.store.head_bucket c.bucket) (λ u. get_bucket c)
  bucket_by post_method c =
      if c.request.has_query (codes "delete")
      then delete_objects sv c
      else answer (write_error sv.go c err_not_implemented c.base)
  bucket_by other_method c = answer (write_error sv.go c err_method_not_allowed c.base)

  -- `serveBucket`
  unfoldable pub serve_bucket : Call → Handler S
  serve_bucket c = bucket_by c.request.method c

  unfoldable pub service_by : Method → Call → Handler S
  service_by get_method c = list_buckets c
  service_by _ c = answer (write_error sv.go c err_method_not_allowed c.base)

  -- `serveService`
  unfoldable pub serve_service : Call → Handler S
  serve_service c = service_by c.request.method c
