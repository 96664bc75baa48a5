-- ===== src/Api/Copy.antt =====
-- Copies (internal/s3api/copy.go): `copyObject`.
use locals.Base.{[], Bytes, codes, map, lower, beq, ok, err}
use locals.Store.Info.{CopyRequest}
use locals.Api.CopySource.{parse_copy_source}
use locals.Api.Condition.{quote_etag}
use locals.Api.Xml.{copy_result}
use locals.Api.Response.{Call, write_error, write_xml}
use locals.Api.Object.{user_meta_from_headers}
use locals.Api.Server.{Server, Handler, attempt, answer}

abbrev pub copy_request : Call → Bytes → Bytes → CopyRequest
copy_request c src_bucket src_key = record {
  src_bucket = src_bucket;
  src_key = src_key;
  dst_bucket = c.bucket;
  dst_key = c.key;
  replace_metadata =
      beq (map lower (c.request.header (codes "X-Amz-Metadata-Directive"))) (codes "replace");
  content_type = c.request.header (codes "Content-Type");
  user_meta = user_meta_from_headers c.request.fields [];
}

-- `copyObject`
unfoldable pub copy_object : {S : Type 0} → Server S → Call → Handler S
copy_object sv c =
    elim (parse_copy_source sv.go.query_unescape (c.request.header (codes "X-Amz-Copy-Source"))) [
      | err e ↦ answer (write_error sv.go c e c.base)
      | ok (src_bucket, src_key) ↦
          attempt sv c c.base (sv.store.copy_object (copy_request c src_bucket src_key)) λ info.
            answer (
              write_xml sv.go 200
                (copy_result
                  (record { last_modified = info.last_modified; etag = quote_etag info.etag }))
                c.base)
    ]
