-- ===== src/Api/Multipart.antt =====
-- Multipart uploads (internal/s3api/multipart.go): the six handlers. A store that has no multipart
-- operations answers NotImplemented.
use locals.Base.{ℕ, false, List, [], ◌++◌, Option, none, some, Bytes, codes, map, ok, err}
use locals.Base.Int.{ℤ, pos, negsuc, parse_int}
use locals.Store.Contract.{MultipartStore}
use locals.Store.Multipart.{Part, CompletedPart, max_parts}
use locals.Store.Multipart.Uploads.{Named}
use locals.Api.Error.{
  err_not_implemented, err_invalid_argument, err_invalid_request, err_incomplete_body,
}
use locals.Api.Condition.{quote_etag}
use locals.Api.Xml.{
  PartEntry, UploadEntry, default_owner, storage_class_name, initiate_result, complete_result,
  list_parts_result, uploads_result,
}
use locals.Api.Response.{Response, Call, set, write_header, write_error, write_xml}
use locals.Api.Body.{request_body, limited_body}
use locals.Api.Object.{user_meta_from_headers}
use locals.Api.Server.{Server, Handler, attempt, answer}

-- `maxCompleteBody`
abbrev pub max_complete_body : ℕ
max_complete_body = 4194304

abbrev pub upload_id : Call → Bytes
upload_id c = c.request.query (codes "uploadId")

-- A number that is not positive is no part's number, whichever it is.
abbrev pub part_number : ℤ → ℕ
part_number (pos n) = n
part_number (negsuc n) = 0

abbrev pub part_entry : Part → PartEntry
part_entry p = record {
  part_number = p.part_number;
  last_modified = p.last_modified;
  etag = quote_etag p.etag;
  size = p.size;
}

abbrev pub upload_entry : Named → UploadEntry
upload_entry (id, up) = record { key = up.key; upload_id = id; initiated = up.initiated }

module _ {S : Type 0} (sv : Server S) where
  unfoldable pub multipart_or :
      Call → Option (MultipartStore S) → (MultipartStore S → Handler S) → Handler S
  multipart_or c none next = answer (write_error sv.go c err_not_implemented c.base)
  multipart_or c (some ms) next = next ms

  -- `multipart`
  unfoldable pub with_multipart : Call → (MultipartStore S → Handler S) → Handler S
  with_multipart c next = multipart_or c sv.store.multipart next

  unfoldable pub create_multipart_upload : Call → Handler S
  create_multipart_upload c = with_multipart c λ ms.
      attempt sv c c.base
        (ms.create_upload c.bucket c.key (c.request.header (codes "Content-Type"))
          (user_meta_from_headers c.request.fields []))
        λ id. answer (
          write_xml sv.go 200
            (initiate_result (record { bucket = c.bucket; key = c.key; upload_id = id })) c.base)

  unfoldable pub upload_part : Call → Handler S
  upload_part c = with_multipart c λ ms.
      elim (parse_int 10 (c.request.query (codes "partNumber"))) [
        | none ↦ answer (write_error sv.go c err_invalid_argument c.base)
        | some n ↦
            attempt sv c c.base
              (ms.upload_part c.bucket c.key (upload_id c) (part_number n) (request_body c.request))
              λ part.
                answer (write_header 200 (set sv.go (codes "ETag") (quote_etag part.etag) c.base))
      ]

  unfoldable pub complete_named : Call → MultipartStore S → List CompletedPart → Handler S
  complete_named c ms parts =
      attempt sv c c.base (ms.complete_upload c.bucket c.key (upload_id c) parts) λ info. answer (
        write_xml sv.go 200
          (complete_result (record {
            location = codes "/" ++ (c.bucket ++ (codes "/" ++ c.key));
            bucket = c.bucket;
            key = c.key;
            etag = quote_etag info.etag;
          }))
          c.base)

  unfoldable pub complete_multipart_upload : Call → Handler S
  complete_multipart_upload c = with_multipart c λ ms.
      elim (limited_body max_complete_body c.request) [
        | err e ↦ answer (write_error sv.go c err_incomplete_body c.base)
        | ok raw ↦ elim (sv.go.read_complete raw) [
          | none ↦ answer (write_error sv.go c err_invalid_request c.base)
          | some parts ↦ complete_named c ms parts
        ]
      ]

  unfoldable pub abort_multipart_upload : Call → Handler S
  abort_multipart_upload c = with_multipart c λ ms.
      attempt sv c c.base (ms.abort_upload c.bucket c.key (upload_id c))
        λ u. answer (write_header 204 c.base)

  abbrev pub parts_answer : Call → List Part → Response
  parts_answer c parts =
      write_xml sv.go 200
        (list_parts_result (record {
          bucket = c.bucket;
          key = c.key;
          upload_id = upload_id c;
          storage_class = storage_class_name;
          max_parts = max_parts;
          is_truncated = false;
          parts = map part_entry parts;
          owner = default_owner;
          initiator = default_owner;
        }))
        c.base

  unfoldable pub list_parts : Call → Handler S
  list_parts c = with_multipart c λ ms.
      attempt sv c c.base (ms.list_parts c.bucket c.key (upload_id c))
        λ parts. answer (parts_answer c parts)

  unfoldable pub list_multipart_uploads : Call → Handler S
  list_multipart_uploads c = with_multipart c λ ms.
      attempt sv c c.base (ms.list_uploads c.bucket) λ uploads. answer (
        write_xml sv.go 200
          (uploads_result (record {
            bucket = c.bucket;
            is_truncated = false;
            uploads = map upload_entry uploads;
          }))
          c.base)
