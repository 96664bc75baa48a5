-- ===== src/Store/Tests/Multipart.antt =====
-- A completed upload and a read after it (internal/store/multipart.go), at a concrete tree.
use locals.Base.{
  subst, ◌≡◌, refl, false, List, [], ◌∷◌, some, Bytes, codes, beq, ok, contains_byte, has_prefix,
  has_suffix, is_digit, join, push, split, trim_left, trim_right, trim_suffix,
}
use locals.Store.Key.{is_dir_marker, validate_bucket_name, validate_key}
use locals.Store.Fs.{
  Node, dir, file, end, entry, read_file, read_dir, alter, drop_entry, find, is_directory,
  mkdir_all, mod_time, new_dirs, put_entry, remove, remove_all, rename, set_entry, size_of,
  stat_node, write_file,
}
use locals.Store.Info.{ObjectInfo, seconds}
use locals.Store.Object.PutGet.{Answers}
use locals.Store.Multipart.{
  Manifests, Part, CompletedPart, Upload, is_more, check_parts, list_parts, load_upload,
  valid_upload_id, manifest_at, staged_part, sort_parts, collect_parts, part_info, five_digits,
  normalize_etag, part_path,
}
use locals.Store.Multipart.Joined.{Joined}
use locals.Store.Multipart.Complete.{
  complete_multipart_upload, complete_loaded, complete_listed, assemble, assemble_at, commit_upload,
  gather, join_parts, multipart_etag, settle_upload, settle_upload_at,
}
use locals.Store.Multipart.ReadBack.{get_object-complete_multipart_upload}
use locals.Store.Tests.PutGet.{parts, parts-IsPlain, server, temp_name-IsPlain, reads_back, ascii}
use locals.Store.Path.{
  segments, join_path, bucket_path, climb, diverge, is_rooted, key_to_path, rel, within_dir,
}
use locals.Base.Int.{parse_int}
use locals.Store.Bucket.{is_dir_at}
use locals.Store.Meta.{file_etag, meta_path, write_sidecar}
use locals.Store.Object.{blocked, check_conflicts, classify_mkdir_err, is_file_at, place}
use locals.Store.Utf8.{valid_utf8}
use locals.Store.Json.{IsText, IsMap}

abbrev id : Bytes
id = codes "0123456789abcdef0123456789abcdef"

abbrev upload : Upload
upload = record {
  bucket = codes "bkt";
  key = codes "big";
  content_type = codes "text/plain";
  user_meta = [];
  initiated = 0;
}

abbrev manifests : Manifests
manifests = record { write = λ up. []; read = λ s. some upload }

abbrev staging : Node
staging = dir 1 (
    entry (codes "srv")
      (dir 1 (
        entry (codes ".locals3")
          (dir 1 (
            entry (codes "tmp") (dir 1 end) (
              entry (codes "uploads")
                (dir 1 (
                  entry id
                    (dir 1 (
                      entry (codes "manifest.json") (file [] 1)
                        (entry (codes "00007") (file (codes "hello") 3) end)))
                    end))
                end)))
          (entry (codes "bkt") (dir 1 end) end)))
      end)

abbrev wanted_parts : List CompletedPart
wanted_parts = record { part_number = 7; etag = b'"' ∷ 1 ∷ codes "hello\"" } ∷ []

abbrev info : ObjectInfo
info = record {
  bucket = codes "bkt";
  key = codes "big";
  size = 5;
  etag = 1 ∷ 17 ∷ 117 ∷ 104 ∷ codes "-1";
  last_modified = 0;
  content_type = codes "text/plain";
  user_meta = [];
  checksum_algorithm = [];
  checksum_value = [];
}

completed :
    complete_multipart_upload manifests server (codes "bkt") (codes "big") id wanted_parts staging
    ≡ (
      ok info,
      (complete_multipart_upload manifests server
          (codes "bkt")
          (codes "big")
          id
          wanted_parts
          staging).1,
    )
unfolding is_more complete_multipart_upload load_upload valid_upload_id manifest_at read_file
    segments join_path complete_loaded list_parts read_dir complete_listed check_parts staged_part
    sort_parts collect_parts parse_int part_info beq contains_byte has_prefix has_suffix is_digit
    join push split trim_left trim_right trim_suffix is_dir_at alter drop_entry find is_directory
    mkdir_all mod_time new_dirs put_entry remove remove_all rename set_entry size_of stat_node
    write_file seconds is_dir_marker validate_key file_etag meta_path write_sidecar assemble
    assemble_at commit_upload gather join_parts multipart_etag settle_upload settle_upload_at
    five_digits normalize_etag part_path blocked check_conflicts classify_mkdir_err is_file_at place
    bucket_path climb diverge is_rooted key_to_path rel within_dir valid_utf8
completed = refl

valid : validate_bucket_name (codes "bkt") ≡ ok tt
unfolding validate_bucket_name
valid = refl

object : is_dir_marker (codes "big") ≡ false
unfolding is_dir_marker
object = refl

typed : beq (codes "text/plain") [] ≡ false
unfolding beq
typed = refl

abbrev after : Node
after =
    (complete_multipart_upload manifests server (codes "bkt") (codes "big") id wanted_parts
      staging).1

reads_texts :
    (b : Bytes) (up : Upload)
    → manifests.read b ≡ some up
    → IsText up.content_type × IsMap up.user_meta
unfolding valid_utf8
reads_texts b up h =
    let same : upload ≡ up = cc in
    subst (λ (u : Upload). IsText u.content_type × IsMap u.user_meta) same (refl, tt)

get_object-complete_multipart_upload_example :
    (staged : List Part) × (found : List Part) × (content : Bytes) × (list_parts manifests server
        (codes "bkt")
        (codes "big")
        id
        staging
      ≡ (ok staged, staging))
    × (check_parts staged 0 wanted_parts ≡ ok found)
    × Joined server id found staging content
    × Answers
        (record server { now = 20; temp_name = codes "put-2" })
        (codes "bkt")
        (codes "big")
        1
        (some 3)
        content
        info
        after
get_object-complete_multipart_upload_example =
    get_object-complete_multipart_upload parts parts-IsPlain server refl temp_name-IsPlain
      reads_back ascii manifests reads_texts (codes "bkt") (codes "big") id wanted_parts info
      staging after 20 1 (some 3) (codes "put-2") valid object typed completed

abbrev staged_parts : List Part
staged_parts =
    record { part_number = 7; etag = 1 ∷ codes "hello"; size = 5; last_modified = 0 } ∷ []
