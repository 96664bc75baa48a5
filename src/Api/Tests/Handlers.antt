-- ===== src/Api/Tests/Handlers.antt =====
-- The handlers' theorems at concrete requests, over a store in memory that holds one object.
use locals.Base.{
  ◌≡◌, refl, true, false, map, [], ◌∷◌, Option, none, some, arith, Bytes, codes, beq, map, upper,
  has_prefix, contains, index, cut_prefix, if◌then◌else◌, Result, ok, err,
}
use locals.Store.Error.{Error, no_such_key, no_such_bucket}
use locals.Store.Info.{ObjectInfo}
use locals.Store.Contract.{Backend}
use locals.Api.Request.{Request, Method, get_method, head_method, put_method, post_method}
use locals.Api.Packages.{Packages}
use locals.Api.Response.{Call, no_body, content, write_xml}
use locals.Api.Chunked.{new_reader, read_all}
use locals.Api.Chunked.Total.{read_all_ends}
use locals.Api.Body.{is_chunked_body, request_body, limited_body}
use locals.Api.Checksum.{
  new_validator, up_front, named_algo, new_algo_hash, wanted, verify, verify_algo, against, value,
  from_trailer,
}
use locals.Api.Object.{
  put_object, finish_put, settle_put, get_object, get_found, get_checked, get_ranged, send_range,
  send,
}
use locals.Api.Object.Digest.{put_object-md5, put_object-checksum}
use locals.Api.Condition.{check_preconditions, refuses, known_to_client}
use locals.Api.Range.{parse_range}
use locals.Api.Xml.{DeleteRequest, delete_result}
use locals.Api.Delete.{max_delete_body, delete_objects}
use locals.Api.Delete.Account.{
  Interleaves, failed_key, outcomes, gone, failures, report, delete_objects_reports,
}
use locals.Api.Server.{Server}
use locals.Api.Router.{serve_http, serve_object, object_by}
use locals.Base.Int.{pos, parse_int}
use locals.Api.Presign.{is_presigned}
use locals.Api.Router.Expired.{serve_http_expired}
use locals.Api.Router.Head.{serve_http-head}
use locals.Api.Router.GetHead.{asking, bare, serve_object-head}

abbrev pub packages : Packages
packages = record {
  md5 = λ s. 1 ∷ s;
  crc32 = λ s. 2 ∷ s;
  crc32c = λ s. 3 ∷ s;
  sha1 = λ s. 4 ∷ s;
  sha256 = λ s. 5 ∷ s;
  base64 = λ s. s;
  canonical = λ s. s;
  query_escape = λ s. s;
  query_unescape = λ s. some s;
  parse_time = λ s. none;
  parse_date = λ s. none;
  http_time = λ t. t ∷ [];
  decimal = λ n. n ∷ [];
  read_delete = λ s. none;
  read_complete = λ s. none;
}

abbrev info : ObjectInfo
info = record {
  bucket = codes "b";
  key = codes "k";
  size = 5;
  etag = codes "e";
  last_modified = 0;
  content_type = codes "text/plain";
  user_meta = [];
  checksum_algorithm = [];
  checksum_value = [];
}

-- The state is the content of the object `k`, where it is there.
abbrev State : Type 0
State = Option Bytes

abbrev found : State → Result Error Bytes × State
found none = (err no_such_key, none)
found (some b) = (ok b, some b)

abbrev memory : Backend State
memory = record {
  create_bucket = λ bucket s. (ok tt, s);
  delete_bucket = λ bucket s. (ok tt, s);
  head_bucket = λ bucket s. (ok tt, s);
  list_buckets = λ s. (ok [], s);
  put_object = λ req s. elim req.body [ ok b ↦ (ok info, some b) | err e ↦ (err e, s) ];
  get_object =
      λ bucket key s. elim s [ none ↦ (err no_such_key, none) | some b ↦ (ok (b, info), some b) ];
  get_object_range = λ bucket key offset len s. elim s [
    | none ↦ (err no_such_key, none)
    | some b ↦ (ok (b, info), some b)
  ];
  head_object =
      λ bucket key s. elim s [ none ↦ (err no_such_key, none) | some b ↦ (ok info, some b) ];
  delete_object =
      λ bucket key s. elim s [ none ↦ (err no_such_bucket, none) | some b ↦ (ok tt, none) ];
  set_object_checksum = λ bucket key algorithm value s. (ok tt, s);
  list_objects = λ req s. (err no_such_bucket, s);
  copy_object = λ req s. (err no_such_bucket, s);
  multipart = none;
  reads_body = λ key. true;
}

abbrev server : Server State
server = record { store = memory; region = codes "us-east-1"; domain = []; go = packages }

abbrev header : Bytes → Bytes
header name =
    if beq name (codes "Content-MD5")
    then 1 ∷ codes "hello"
    else if beq name (codes "X-Amz-Checksum-Sha256")
    then 5 ∷ codes "hello"
    else []

abbrev request : Method → Request
request m = record {
  method = m;
  path = codes "/b/k";
  host = codes "localhost";
  fields = (codes "X-Amz-Checksum-Sha256", (5 ∷ codes "hello") ∷ []) ∷ [];
  body = codes "hello";
  header = header;
  query = λ name. [];
  has_query = λ name. false;
}

abbrev a_call : Method → Call
a_call m = record {
  request = request m;
  rid = codes "R";
  base = [];
  bucket = codes "b";
  key = codes "k";
}

-- The first key goes, the second is no longer there.
abbrev two_keys : DeleteRequest
two_keys = record { quiet = false; keys = codes "k" ∷ codes "l" ∷ [] }

abbrev reads_keys : Server State
reads_keys = record server { go = record packages { read_delete = λ s. some two_keys } }

keys_read : limited_body max_delete_body (request post_method) ≡ ok (codes "hello")
unfolding limited_body request_body is_chunked_body beq has_prefix contains index
keys_read = refl

delete_objects_reports_example :
    (delete_objects reads_keys (a_call post_method) (some []) ≡ (
      write_xml reads_keys.go 200
          (delete_result (report false (outcomes reads_keys (codes "b") two_keys.keys (some [])).0))
          [],
      (outcomes reads_keys (codes "b") two_keys.keys (some [])).1,
    ))
    × Interleaves Bytes
        (gone (outcomes reads_keys (codes "b") two_keys.keys (some [])).0)
        (map failed_key (failures (outcomes reads_keys (codes "b") two_keys.keys (some [])).0))
        two_keys.keys
delete_objects_reports_example =
    delete_objects_reports reads_keys (a_call post_method) (codes "hello") two_keys (some [])
      keys_read refl (omega arith) (omega arith)

serve_http-head_example :
    (serve_http server (codes "R") 7 false (request head_method) none).0.body ≡ no_body
serve_http-head_example = serve_http-head server (codes "R") 7 false (request head_method) none refl

got :
    (serve_object server (asking get_method (a_call put_method)) (some (codes "hello"))).0.body
    ≡ content (codes "hello")
unfolding serve_object object_by get_object get_found get_checked get_ranged send_range send
    check_preconditions refuses known_to_client parse_range beq
got = refl

serve_object-head_example :
    (serve_object server (asking head_method (a_call put_method)) (some (codes "hello"))).0
    ≡ bare (serve_object server (asking get_method (a_call put_method)) (some (codes "hello"))).0
serve_object-head_example =
    serve_object-head server (a_call put_method) (codes "hello") (some (codes "hello")) got

body_read : request_body (request put_method) ≡ ok (codes "hello")
unfolding request_body is_chunked_body has_prefix contains index beq
body_read = refl

put_answered : (put_object server (a_call put_method) none).0.status ≡ 200
unfolding put_object finish_put settle_put request_body is_chunked_body has_prefix contains index
    beq cut_prefix new_validator up_front named_algo new_algo_hash wanted verify verify_algo against
    value from_trailer upper
put_answered = refl

md5_sent : beq (header (codes "Content-MD5")) [] ≡ false
unfolding beq
md5_sent = refl

put_object-md5_example : 1 ∷ codes "hello" ≡ header (codes "Content-MD5")
put_object-md5_example =
    put_object-md5 server (a_call put_method) none (codes "hello") refl body_read md5_sent
      put_answered

sha_named : named_algo packages (codes "X-Amz-Checksum-Sha256") ≡ some (codes "SHA256", λ s. 5 ∷ s)
unfolding named_algo new_algo_hash cut_prefix upper beq
sha_named = refl

put_object-checksum_example : 5 ∷ codes "hello" ≡ header (codes "X-Amz-Checksum-Sha256")
put_object-checksum_example =
    put_object-checksum server (a_call put_method) none (codes "hello") [] []
      (codes "X-Amz-Checksum-Sha256") ((5 ∷ codes "hello") ∷ []) (codes "SHA256") (λ s. 5 ∷ s) refl
      body_read refl tt sha_named put_answered

read_all_ends_example : (r : Result Error Bytes) × (read_all 3 1 (new_reader (codes "zz")) ≡ some r)
read_all_ends_example = read_all_ends 3 1 (new_reader (codes "zz")) (omega arith) (omega arith)

-- A link that was signed at 5 and lived for a minute.
abbrev link_query : Bytes → Bytes
link_query name =
    if beq name (codes "X-Amz-Expires")
    then codes "60"
    else if beq name (codes "X-Amz-Date")
    then codes "d"
    else if beq name (codes "X-Amz-Signature")
    then codes "s"
    else []

abbrev link : Request
link = record (request put_method) { query = link_query }

abbrev dating : Server State
dating = record server { go = record packages { parse_date = λ s. some 5 } }

link_signed : is_presigned link ≡ true
unfolding is_presigned beq
link_signed = refl

link_dated : beq (link_query (codes "X-Amz-Date")) [] ≡ false
unfolding beq
link_dated = refl

link_lasting : beq (link_query (codes "X-Amz-Expires")) [] ≡ false
unfolding beq
link_lasting = refl

link_minute : parse_int 10 (link_query (codes "X-Amz-Expires")) ≡ some (pos 60)
unfolding beq parse_int
link_minute = refl

serve_http_expired_example :
    ((serve_http dating (codes "R") 60000000006 false link none).0.status ≡ 403)
    × ((serve_http dating (codes "R") 60000000006 false link none).1 ≡ none)
serve_http_expired_example =
    serve_http_expired dating (codes "R") 60000000006 5 60 false link none link_signed link_dated
      link_lasting refl link_minute (omega arith) (omega arith) (omega arith)
