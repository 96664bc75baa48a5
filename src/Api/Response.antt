-- ===== src/Api/Response.antt =====
-- What a handler answers with (internal/s3api/errors.go, xml.go): `writeError` and `writeXML` over the
-- header that was set before.
use locals.Base.{ℕ, List, [], ◌∷◌, Bytes, codes, if◌then◌else◌, beq}
use locals.Api.Error.{ApiError}
use locals.Api.Request.{Request, Method, head_method}
use locals.Api.Xml.{Document, error_response}
use locals.Api.Packages.{Packages}

abbrev pub Headers : Type 0
Headers = List (Bytes × Bytes)

pub data Body : Type 0 where
  no_body : Body
  content : Bytes → Body
  document : Document → Body

pub record Response : Type 0 where
  pub status : ℕ
  pub headers : Headers
  pub body : Body

-- One request as the handlers see it: `r`, `rid`, the header of `w`, and the bucket and key that the router found.
pub record Call : Type 0 where
  pub request : Request
  pub rid : Bytes
  -- the header as the router has set it
  pub base : Headers
  pub bucket : Bytes
  pub key : Bytes

unfoldable pub replace : Bytes → Bytes → Headers → Headers
replace name value [] = (name, value) ∷ []
replace name value ((n, v) ∷ hs) =
    let rest = replace name value hs in if beq n name then (name, value) ∷ hs else (n, v) ∷ rest

-- `w.Header().Set(name, value)`
abbrev pub set : Packages → Bytes → Bytes → Headers → Headers
set go name value hs = replace (go.canonical name) value hs

-- `w.WriteHeader(status)` with no body behind it
abbrev pub write_header : ℕ → Headers → Response
write_header status hs = record { status = status; headers = hs; body = no_body }

-- `writeXML`. A value of these types can always be printed.
unfoldable pub write_xml : Packages → ℕ → Document → Headers → Response
write_xml go status doc hs = record {
  status = status;
  headers = set go (codes "Content-Type") (codes "application/xml") hs;
  body = document doc;
}

unfoldable pub write_error_as : Packages → Method → Call → ApiError → Headers → Response
write_error_as go head_method c e hs =
    write_header e.http_status (set go (codes "Content-Type") (codes "application/xml") hs)
write_error_as go _ c e hs =
    write_xml go e.http_status
      (error_response (record {
        code = e.code;
        resource = c.request.path;
        bucket_name = c.bucket;
        key = c.key;
        request_id = c.rid;
      }))
      hs

-- `writeError`: a HEAD request gets no body.
unfoldable pub write_error : Packages → Call → ApiError → Headers → Response
write_error go c e hs = write_error_as go c.request.method c e hs
