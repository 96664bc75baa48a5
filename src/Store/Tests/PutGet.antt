-- ===== src/Store/Tests/PutGet.antt =====
-- A put and the reads after it (internal/store/fs.go), at a concrete tree.
use locals.Base.{
  ◌%◌, arith, ◌≡◌, refl, false, List, [], ◌∷◌, some, Bytes, codes, All, contains_byte, beq,
  trim_suffix, ok,
}
use locals.Store.Utf8.{valid_utf8}
use locals.Store.Key.{is_dir_marker, validate_bucket_name, validate_key}
use locals.Store.Key.Valid.{IsPlain}
use locals.Store.Path.{
  bucket_path, key_to_path, segments, within_dir, join_path, rel, climb, diverge,
}
use locals.Store.Path.Clean.{abs}
use locals.Store.Fs.{
  Node, dir, end, entry, stat_node, is_directory, size_of, mod_time, mkdir_all, write_file, rename,
  remove,
}
use locals.Store.Info.{Env, ObjectInfo, PutRequest, seconds, default_content_type}
use locals.Store.Json.{ReadsBack, IsPrintable, IsAscii}
use locals.Store.Bucket.{bucket_exists, is_dir_at}
use locals.Store.Meta.{write_sidecar, meta_path}
use locals.Store.Object.{
  declared, put_object, put_at, put_file, commit, stage, place, settle, settle_at, ensure_bucket,
  make_missing, check_conflicts, blocked, is_file_at,
}
use locals.Store.Object.PutGet.{get_object-put_object, Answers}
use locals.Store.Tests.Codec.{marshal, unmarshal, unmarshal-marshal}

abbrev pub parts : List Bytes
parts = codes "srv" ∷ []

pub parts-IsPlain : All IsPlain parts
unfolding beq contains_byte
parts-IsPlain = ((refl, refl, refl, refl), tt)

-- Bytes below 0x80, as a digest has that is printed.
abbrev pub low_bits : Bytes → Bytes
low_bits [] = []
low_bits (c ∷ s) = (c % 128) ∷ low_bits s

abbrev pub server : Env
server = record {
  root = abs parts;
  auto_create = false;
  now = 9;
  temp_name = codes "put-1";
  md5 = λ s. 1 ∷ low_bits s;
  marshal = marshal;
  unmarshal = unmarshal;
  type_by_extension = λ s. [];
  detect_type = λ s. [];
}

abbrev pub tree : Node
tree = dir 1 (
    entry (codes "srv")
      (dir 1 (
        entry (codes ".locals3") (dir 1 (entry (codes "tmp") (dir 1 end) end))
          (entry (codes "bkt") (dir 1 end) end)))
      end)

abbrev request : PutRequest
request = record {
  bucket = codes "bkt";
  key = codes "docs/a";
  body = ok (codes "hello");
  content_type = [];
  user_meta = [];
  checksum_algorithm = [];
  checksum_value = [];
}

abbrev answer : ObjectInfo
answer = record {
  bucket = codes "bkt";
  key = codes "docs/a";
  size = 5;
  etag = 1 ∷ codes "hello";
  last_modified = 0;
  content_type = default_content_type;
  user_meta = [];
  checksum_algorithm = [];
  checksum_value = [];
}

stored : put_object server request tree ≡ (ok answer, (put_object server request tree).1)
unfolding put_object put_at put_file commit stage place settle settle_at ensure_bucket make_missing
    check_conflicts blocked is_file_at write_sidecar meta_path bucket_exists is_dir_at
    validate_bucket_name key_to_path validate_key valid_utf8 within_dir join_path rel climb diverge
    bucket_path segments trim_suffix is_dir_marker stat_node is_directory size_of mod_time mkdir_all
    write_file rename remove marshal seconds
stored = refl

pub temp_name-IsPlain : IsPlain (codes "put-1")
unfolding beq contains_byte
temp_name-IsPlain = (refl, refl, refl, refl)

pub digests : (s : Bytes) → beq (server.md5 s) [] ≡ false
unfolding beq
digests s = refl

low_bits-IsAscii : (s : Bytes) → IsAscii (low_bits s)
low_bits-IsAscii [] = tt
low_bits-IsAscii (c ∷ s) = (omega arith, low_bits-IsAscii s)

pub ascii : (s : Bytes) → IsAscii (server.md5 s)
ascii s = (omega arith, low_bits-IsAscii s)

-- What the tests' JSON reads back is more than is asked of it.
pub reads_back : ReadsBack server
reads_back sc p = unmarshal-marshal sc

texts : IsPrintable (declared request)
unfolding valid_utf8 beq
texts = record {
  content_type = refl;
  user_meta = tt;
  etag = refl;
  part_etags = tt;
  checksum_algorithm = refl;
  checksum_value = refl;
}

valid : validate_bucket_name (codes "bkt") ≡ ok tt
unfolding validate_bucket_name
valid = refl

object : is_dir_marker (codes "docs/a") ≡ false
unfolding is_dir_marker
object = refl

get_object-put_object_example :
    (content : Bytes) × (request.body ≡ ok content)
    × Answers
        (record server { now = 20; temp_name = codes "put-2" })
        (codes "bkt")
        (codes "docs/a")
        1
        (some 3)
        content
        answer
        (put_object server request tree).1
get_object-put_object_example =
    get_object-put_object parts parts-IsPlain server refl temp_name-IsPlain reads_back digests ascii
      request answer tree (put_object server request tree).1 20 1 (some 3) (codes "put-2") valid
      object texts stored
