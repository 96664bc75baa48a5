-- ===== src/Api/Tests.antt =====
-- The wire layer's theorems at concrete inputs.
pub mod Handlers
mod RollBack
mod Ranged
mod Status
use locals.Base.{
  cut, cut_prefix, contains, suc, ◌+◌, ◌*◌, ◌≤◌, ◌<◌, ◌≡◌, ◌↔◌, ◌⊎◌, refl, true, false, List, [],
  ◌∷◌, Option, none, some, arith, Bytes, codes, All, length, beq, contains_byte, has_prefix, index,
  index_byte, trim_space, trim_right, if◌then◌else◌, ok, err,
}
use locals.Base.Int.{parse_int}
use locals.Store.Error.{os, not_dir}
use locals.Store.Info.{ObjectInfo}
use locals.Api.Error.{from_store, err_access_denied}
use locals.Api.Request.{Request, get_method}
use locals.Api.Range.{parse_range}
use locals.Store.Object.{section}
use locals.Api.Range.{
  ByteRange, range_of_spec, range_of_ends, start_of_range, end_of_range, closed_range,
}
use locals.Api.Route.{resolve_target, resolve_target-virtual}
use locals.Api.Range.Laws.{IsInside, parse_range-IsInside}
use locals.Api.Presign.{is_presigned, check_presign_expiry, check_presign_expiry_iff}
use locals.Api.CopySource.{strip_version, parse_copy_source, parse_copy_source_lem}
use locals.Api.Condition.{quote_etag, etag_matches, check_preconditions, pass, not_modified}
use locals.Api.Condition.Laws.{IsDigest, check_preconditions-match, check_preconditions-none_match}
use locals.Api.Chunked.{chunk_size, is_line_end, read_all, new_reader}
use locals.Api.Chunked.Decode.{IsLine, IsChunk, wire, payload, read_all-wire}

parse_range-IsInside_example : IsInside 10 (parse_range (codes "bytes=2-30") 10)
parse_range-IsInside_example = parse_range-IsInside (codes "bytes=2-30") 10

-- A lookup by name that knows one name.
abbrev only : Bytes → Bytes → Bytes → Bytes
only name value asked = if beq asked name then value else []

abbrev request_with : (Bytes → Bytes) → (Bytes → Bytes) → Request
request_with header query = record {
  method = get_method;
  path = codes "/bkt/a";
  host = codes "localhost";
  header = header;
  query = query;
  fields = [];
  body = [];
  has_query = λ name. false;
}

abbrev presigned : Request
presigned =
    request_with (λ name. [])
      (λ name.
        if beq name (codes "X-Amz-Signature")
        then codes "f0"
        else if beq name (codes "X-Amz-Date")
        then codes "20260101T000000Z"
        else only (codes "X-Amz-Expires") (codes "60") name)

signature_given : is_presigned presigned ≡ true
unfolding is_presigned beq
signature_given = refl

check_presign_expiry_iff_example :
    (check_presign_expiry (λ d. some 5) presigned 7 ≡ err err_access_denied)
    ↔ (5 + 60 * 1000000000 < 7)
unfolding beq parse_int
check_presign_expiry_iff_example =
    check_presign_expiry_iff (λ d. some 5) presigned 7 5 60 signature_given refl refl refl refl
      (omega arith) (omega arith)

-- What `url.QueryUnescape` makes of a text with no percent sign and no plus.
abbrev plain_unescape : Bytes → Option Bytes
plain_unescape s = if contains_byte s b'%' then none else some s

parse_copy_source_lem_example :
    parse_copy_source plain_unescape (codes "/bkt/a/b?versionId=null")
    ≡ ok (codes "bkt", codes "a/b")
unfolding beq contains_byte strip_version index
parse_copy_source_lem_example =
    parse_copy_source_lem plain_unescape (codes "/bkt/a/b?versionId=null") true (codes "bkt")
      (codes "a/b") refl refl refl refl refl

abbrev an_info : ObjectInfo
an_info = record {
  bucket = codes "bkt";
  key = codes "a";
  size = 5;
  etag = codes "0a1b";
  last_modified = 100;
  content_type = codes "text/plain";
  user_meta = [];
  checksum_algorithm = [];
  checksum_value = [];
}

etag-IsDigest : IsDigest an_info.etag
unfolding beq has_prefix contains_byte
etag-IsDigest = record { full = refl; bare = refl; single = refl }

abbrev if_match : Request
if_match = request_with (only (codes "If-Match") (codes "\"0a1b\"")) (λ name. [])

abbrev if_none_match : Request
if_none_match = request_with (only (codes "If-None-Match") (codes "\"0a1b\"")) (λ name. [])

check_preconditions-match_example : check_preconditions (λ s. none) if_match an_info ≡ pass
unfolding beq quote_etag has_prefix
check_preconditions-match_example =
    check_preconditions-match (λ s. none) if_match an_info etag-IsDigest refl refl refl

check_preconditions-none_match_example :
    check_preconditions (λ s. none) if_none_match an_info ≡ not_modified
unfolding beq quote_etag has_prefix
check_preconditions-none_match_example =
    check_preconditions-none_match (λ s. none) if_none_match an_info etag-IsDigest refl refl refl

-- A stream of two chunks, the first signed, with a trailer.
abbrev trailers : List Bytes
trailers = codes "x-amz-checksum-crc32:sOO8/Q==" ∷ []

abbrev two_chunks : List (Bytes × Bytes)
two_chunks = (codes "3;chunk-signature=f0", codes "abc") ∷ (codes "2", codes "de") ∷ []

zero_chunk : IsLine (codes "0") × (chunk_size (codes "0") ≡ ok 0)
unfolding chunk_size contains_byte trim_right is_line_end beq trim_space index_byte parse_int
zero_chunk = ((refl, refl), refl)

two_chunks-IsChunk : All IsChunk two_chunks
unfolding chunk_size contains_byte trim_right is_line_end beq trim_space index_byte parse_int
two_chunks-IsChunk = (((refl, refl), refl, omega arith), (((refl, refl), refl, omega arith), tt))

read_all-wire_example :
    read_all
      (suc (length (wire two_chunks (codes "0") trailers)))
      2
      (new_reader (wire two_chunks (codes "0") trailers))
    ≡ some (ok (payload two_chunks))
read_all-wire_example =
    read_all-wire (codes "0") zero_chunk.0 zero_chunk.1 trailers 1 two_chunks two_chunks-IsChunk

abbrev to_host : Request
to_host = record (request_with (λ name. []) (λ name. [])) {
  path = codes "/a/b";
  host = codes "bkt.s3.local:9000";
}

abbrev by_path : Request
by_path = record (request_with (λ name. []) (λ name. [])) { path = codes "/bkt/a/b" }

resolve_target-virtual_example :
    resolve_target (codes "s3.local") to_host ≡ resolve_target [] by_path
unfolding beq contains_byte
resolve_target-virtual_example =
    resolve_target-virtual (codes "s3.local") (codes "bkt") (codes "a/b") (codes "9000") to_host
      by_path refl refl refl refl refl refl refl
