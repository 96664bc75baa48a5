-- ===== src/Api/Object.antt =====
-- Requests for an object (internal/s3api/object.go): `putObject`, `getObject`, `deleteObject` and their
-- helpers.
pub mod Digest
pub mod RollBack
pub mod ReadBack
use locals.Base.{
  ℕ, ◌+◌, ◌-◌, Bool, true, false, ◌&&◌, ◌||◌, not, List, [], ◌∷◌, ◌++◌, Option, none, some, Bytes,
  codes, map, lower, beq, cut_prefix, if◌then◌else◌, Result, ok, err,
}
use locals.Store.Error.{Error}
use locals.Store.Info.{ObjectInfo, PutRequest, UserMeta}
use locals.Store.Contract.{Op}
use locals.Api.Error.{ApiError, err_precondition_failed}
use locals.Api.Request.{Request}
use locals.Api.Range.{ByteRange, RangeResult, parse_range}
use locals.Api.Condition.{Outcome, quote_etag, check_preconditions, pass, not_modified, failed}
use locals.Api.Packages.{Packages}
use locals.Api.Response.{Headers, Response, Call, no_body, content, set, write_header, write_error}
use locals.Api.Chunked.{Trailers}
use locals.Api.Body.{request_body, body_trailers}
use locals.Api.Checksum.{Validator, new_validator, value, from_trailer, verify}
use locals.Api.Server.{Server, Handler, attempt, answer}

-- `userMetaPrefix`
abbrev pub user_meta_prefix : Bytes
user_meta_prefix = codes "X-Amz-Meta-"

-- `out[name] = value`
unfoldable pub put_meta : Bytes → Bytes → UserMeta → UserMeta
put_meta name v [] = (name, v) ∷ []
put_meta name v ((n, w) ∷ meta) =
    let rest = put_meta name v meta in if beq n name then (name, v) ∷ meta else (n, w) ∷ rest

-- `userMetaFromHeaders`
unfoldable pub user_meta_from_headers : List (Bytes × List Bytes) → UserMeta → UserMeta
user_meta_from_headers [] out = out
user_meta_from_headers ((name, []) ∷ fields) out = user_meta_from_headers fields out
user_meta_from_headers ((name, v ∷ vs) ∷ fields) out = elim (cut_prefix name user_meta_prefix) [
  | none ↦ user_meta_from_headers fields out
  | some suffix ↦ user_meta_from_headers fields (put_meta (map lower suffix) v out)
]

unfoldable pub set_user_meta : Packages → UserMeta → Headers → Headers
set_user_meta go [] hs = hs
set_user_meta go ((k, v) ∷ meta) hs = set_user_meta go meta (set go (user_meta_prefix ++ k) v hs)

-- `writeObjectHeaders`
unfoldable pub write_object_headers : Packages → ObjectInfo → Headers → Headers
write_object_headers go info hs = set_user_meta go info.user_meta (
    set go (codes "Accept-Ranges") (codes "bytes") (
      set go (codes "Last-Modified") (go.http_time info.last_modified) (
        set go (codes "ETag") (quote_etag info.etag) (
          set go (codes "Content-Length") (go.decimal info.size)
            (set go (codes "Content-Type") info.content_type hs)))))

abbrev checksum_header : Bytes → Bytes
checksum_header algo = codes "x-amz-checksum-" ++ map lower algo

-- `writeChecksumHeaders`
unfoldable pub write_checksum_headers : Packages → Request → ObjectInfo → Headers → Headers
write_checksum_headers go r info hs =
    if beq info.checksum_algorithm [] || beq info.checksum_value []
    then hs
    else if not (beq (map lower (r.header (codes "x-amz-checksum-mode"))) (codes "enabled"))
    then hs
    else set go (checksum_header info.checksum_algorithm) info.checksum_value hs

-- `contentRange`
unfoldable pub content_range : Packages → ByteRange → ℕ → Bytes
content_range go br size =
    codes "bytes "
    ++ (go.decimal br.offset
        ++ (codes "-" ++ (go.decimal (br.offset + br.len - 1) ++ (codes "/" ++ go.decimal size))))

module _ {S : Type 0} (sv : Server S) where
  -- The bytes and the trailers that the store's put has met.
  abbrev pub received : Call → Bytes
  received c =
      if sv.store.reads_body c.key
      then elim (request_body c.request) [ ok bytes ↦ bytes | err e ↦ [] ]
      else []

  abbrev pub trailers_met : Call → Trailers
  trailers_met c = if sv.store.reads_body c.key then body_trailers c.request else []

  abbrev pub put_request : Call → Validator → PutRequest
  put_request c v = record {
    bucket = c.bucket;
    key = c.key;
    body = request_body c.request;
    content_type = c.request.header (codes "Content-Type");
    user_meta = user_meta_from_headers c.request.fields [];
    checksum_algorithm = if from_trailer v then [] else v.algo;
    checksum_value =
        if from_trailer v then [] else c.request.header (codes "X-Amz-Checksum-" ++ v.algo);
  }

  -- A checksum from a trailer is recorded behind the write; an error of that is dropped.
  unfoldable pub record_trailer : Call → Validator → S → S
  record_trailer c v s =
      if from_trailer v && not (beq v.algo [])
      then (sv.store.set_object_checksum c.bucket c.key v.algo (value sv.go v (received c)) s).1
      else s

  unfoldable pub put_headers : Call → Validator → ObjectInfo → Headers
  put_headers c v info =
      let hs = set sv.go (codes "ETag") (quote_etag info.etag) c.base in
      if beq v.algo []
      then hs
      else set sv.go (checksum_header v.algo) (value sv.go v (received c)) hs

  -- What follows the write: a mismatch takes the object away again.
  unfoldable pub settle_put : Call → Validator → ObjectInfo → Result ApiError (Unit {0}) → Handler S
  settle_put c v info (err e) s =
      (write_error sv.go c e c.base, (sv.store.delete_object c.bucket c.key s).1)
  settle_put c v info (ok u) s = (write_header 200 (put_headers c v info), record_trailer c v s)

  unfoldable pub finish_put : Call → Validator → ObjectInfo → Handler S
  finish_put c v info = settle_put c v info (verify sv.go v (received c) (trailers_met c))

  -- `putObject`
  unfoldable pub put_object : Call → Handler S
  put_object c =
      let v = new_validator sv.go c.request in
      attempt sv c c.base (sv.store.put_object (put_request c v)) (finish_put c v)

  -- The end of `getObject`: for a HEAD the header alone.
  unfoldable pub send : Bool → Call → ℕ → Headers → Op S (Bytes × ObjectInfo) → Handler S
  send false c status hs op s = (write_header status hs, s)
  send true c status hs op s =
      attempt sv c hs op
        (λ found. answer (record { status = status; headers = hs; body = content found.0 })) s

  -- The whole object, or a range of it.
  unfoldable pub send_range : Bool → Call → ObjectInfo → Option ByteRange → Handler S
  send_range with_body c info range =
      let hs =
        write_checksum_headers sv.go c.request info (write_object_headers sv.go info c.base) in
      elim range [
        | none ↦ send with_body c 200 hs (sv.store.get_object c.bucket c.key)
        | some br ↦
            send with_body c 206
              (set sv.go (codes "Content-Range") (content_range sv.go br info.size)
                (set sv.go (codes "Content-Length") (sv.go.decimal br.len) hs))
              (sv.store.get_object_range c.bucket c.key br.offset (some br.len))
      ]

  -- By what the range header asks for.
  unfoldable pub get_ranged : Bool → Call → ObjectInfo → RangeResult → Handler S
  get_ranged with_body c info (ok range) = send_range with_body c info range
  get_ranged with_body c info (err e) = answer (
      write_error sv.go c e
        (set sv.go (codes "Content-Range") (codes "bytes */" ++ sv.go.decimal info.size) c.base))

  -- By what the preconditions say of the object.
  unfoldable pub get_checked : Bool → Call → ObjectInfo → Outcome → Handler S
  get_checked with_body c info not_modified = answer (
      write_header 304 (
        set sv.go (codes "Last-Modified") (sv.go.http_time info.last_modified)
          (set sv.go (codes "ETag") (quote_etag info.etag) c.base)))
  get_checked with_body c info failed = answer (write_error sv.go c err_precondition_failed c.base)
  get_checked with_body c info pass =
      get_ranged with_body c info (parse_range (c.request.header (codes "Range")) info.size)

  -- What follows when the object is there.
  unfoldable pub get_found : Bool → Call → ObjectInfo → Handler S
  get_found with_body c info =
      get_checked with_body c info (check_preconditions sv.go.parse_time c.request info)

  -- `getObject`
  unfoldable pub get_object : Bool → Call → Handler S
  get_object with_body c =
      attempt sv c c.base (sv.store.head_object c.bucket c.key) (get_found with_body c)

  -- `deleteObject`
  unfoldable pub delete_object : Call → Handler S
  delete_object c =
      attempt sv c c.base (sv.store.delete_object c.bucket c.key)
        (λ u. answer (write_header 204 c.base))
