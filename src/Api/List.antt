-- ===== src/Api/List.antt =====
-- Listings of a bucket (internal/s3api/list.go): `listObjects` and `lastName`.
use locals.Base.{
  ℕ, Bool, true, false, ◌&&◌, not, List, [], ◌∷◌, Option, none, some, Bytes, codes, map, lt_text,
  beq, last?, if◌then◌else◌,
}
use locals.Base.Int.{pos, negsuc, parse_int}
use locals.Store.Info.{ObjectInfo}
use locals.Store.Listing.{ListRequest, ListResult, max_keys_limit}
use locals.Api.Error.{err_invalid_argument}
use locals.Api.Condition.{quote_etag}
use locals.Api.Request.{Request}
use locals.Api.Xml.{ObjectEntry, ListBucketResult, list_bucket, storage_class_name}
use locals.Api.Packages.{Packages}
use locals.Api.Response.{Call, write_error, write_xml}
use locals.Api.Server.{Server, Handler, attempt, answer}

-- `max-keys`, where `none` is a number that cannot be read or is negative.
unfoldable pub asked_keys : Bytes → Option ℕ
asked_keys v =
    if beq v []
    then some max_keys_limit
    else elim (parse_int 10 v) [ none ↦ none | some (negsuc n) ↦ none | some (pos n) ↦ some n ]

abbrev pub list_request : Request → Bytes → Bool → ℕ → ListRequest
list_request r bucket v2 max_keys = record {
  bucket = bucket;
  prefix = r.query (codes "prefix");
  delimiter = r.query (codes "delimiter");
  start_after = if v2 then r.query (codes "start-after") else r.query (codes "marker");
  continuation_token = if v2 then r.query (codes "continuation-token") else [];
  max_keys = max_keys;
}

-- The last common prefix, where it comes behind `last`.
abbrev or_prefix : Bytes → Option Bytes → Bytes
or_prefix last none = last
or_prefix last (some p) = if lt_text last p then p else last

abbrev last_key : Option ObjectInfo → Bytes
last_key none = []
last_key (some o) = o.key

-- `lastName`
unfoldable pub last_name : ListResult → Bytes
last_name res = or_prefix (last_key (last? res.objects)) (last? res.common_prefixes)

-- `esc`
unfoldable pub escaped : Packages → Request → Bytes → Bytes
escaped go r s =
    if beq (r.query (codes "encoding-type")) (codes "url") then go.query_escape s else s

abbrev entry_of_object : (Bytes → Bytes) → ObjectInfo → ObjectEntry
entry_of_object esc o = record {
  key = esc o.key;
  last_modified = o.last_modified;
  etag = quote_etag o.etag;
  size = o.size;
  storage_class = storage_class_name;
}

is_empty : List ObjectInfo → Bool
is_empty [] = true
is_empty (o ∷ os) = false

-- The page that is answered.
unfoldable pub list_result : Packages → Request → ListRequest → Bool → ListResult → ListBucketResult
unfolding is_empty
list_result go r req v2 res =
    let esc : Bytes → Bytes = escaped go r in
    record {
      name = req.bucket;
      prefix = esc req.prefix;
      delimiter = esc req.delimiter;
      max_keys = req.max_keys;
      encoding_type = r.query (codes "encoding-type");
      is_truncated = res.is_truncated;
      contents = map (entry_of_object esc) res.objects;
      common_prefixes = map esc res.common_prefixes;
      key_count = if v2 then res.key_count else 0;
      continuation_token = if v2 then req.continuation_token else [];
      next_continuation_token = if v2 then res.next_continuation_token else [];
      start_after = if v2 then esc (r.query (codes "start-after")) else [];
      marker = if v2 then [] else esc (r.query (codes "marker"));
      next_marker =
          if not v2 && (res.is_truncated && not (is_empty res.objects))
          then esc (last_name res)
          else [];
    }

-- `listObjects`
unfoldable pub list_objects : {S : Type 0} → Server S → Bool → Call → Handler S
list_objects sv v2 c = elim (asked_keys (c.request.query (codes "max-keys"))) [
  | none ↦ answer (write_error sv.go c err_invalid_argument c.base)
  | some max_keys ↦
      let req = list_request c.request c.bucket v2 max_keys in
      attempt sv c c.base (sv.store.list_objects req) (λ res.
        answer (write_xml sv.go 200 (list_bucket (list_result sv.go c.request req v2 res)) c.base))
]
