-- ===== src/Api/Tests/Ranged.antt =====
-- A ranged read over the store of files (internal/store/fs.go), at a concrete tree.
use locals.Base.{
  ◌≡◌, ◌++◌, refl, [], ◌∷◌, some, Bytes, codes, length, beq, trim_suffix, has_prefix, cut,
  cut_prefix, contains, trim_space, ok,
}
use locals.Base.Int.{parse_int}
use locals.Store.Utf8.{valid_utf8}
use locals.Store.Key.{is_dir_marker, validate_bucket_name, validate_key}
use locals.Store.Path.{
  bucket_path, key_to_path, segments, within_dir, join_path, rel, climb, diverge,
}
use locals.Store.Fs.{
  Node, dir, file, end, entry, stat_node, read_file, mkdir_all, write_file, rename, is_directory,
  size_of, mod_time,
}
use locals.Store.Info.{ObjectInfo, seconds}
use locals.Store.Bucket.{bucket_exists, is_dir_at}
use locals.Store.Meta.{
  read_sidecar, load_sidecar, reconcile, meta_path, resolve_info, write_sidecar, sniff_content_type,
  file_etag,
}
use locals.Store.Object.{get_object, get_object_range, stat_object, stat_path, describe, open_found}
use locals.Store.Tests.PutGet.{server}
use locals.Api.Range.{
  ByteRange, parse_range, range_of_spec, range_of_ends, start_of_range, end_of_range, closed_range,
}
use locals.Api.Range.Section.{get_object_range-inside}

abbrev tree : Node
tree = dir 1 (
    entry (codes "srv")
      (dir 1 (
        entry (codes ".locals3") (dir 1 (entry (codes "tmp") (dir 1 end) end))
          (entry (codes "bkt") (dir 1 (entry (codes "a") (file (codes "abcdefgh") 3) end)) end)))
      end)

abbrev info : ObjectInfo
info = record {
  bucket = codes "bkt";
  key = codes "a";
  size = 8;
  etag = 1 ∷ codes "abcdefgh";
  last_modified = 0;
  content_type = [];
  user_meta = [];
  checksum_algorithm = [];
  checksum_value = [];
}

-- The read of a file that has no sidecar records one.
abbrev after : Node
after = (get_object server (codes "bkt") (codes "a") tree).1

read_whole : get_object server (codes "bkt") (codes "a") tree ≡ (ok (codes "abcdefgh", info), after)
unfolding get_object stat_object stat_path describe open_found read_sidecar load_sidecar reconcile
    meta_path resolve_info sniff_content_type file_etag bucket_exists is_dir_at validate_bucket_name
    key_to_path validate_key valid_utf8 within_dir join_path rel climb diverge bucket_path segments
    trim_suffix is_dir_marker stat_node read_file is_directory size_of mod_time seconds has_prefix
    beq write_sidecar mkdir_all write_file rename
read_whole = refl

abbrev two_to_four : ByteRange
two_to_four = record { offset = 2; len = 3 }

range_given : parse_range (codes "bytes=2-4") (length (codes "abcdefgh")) ≡ ok (some two_to_four)
unfolding parse_range range_of_spec range_of_ends start_of_range end_of_range closed_range beq
    cut_prefix trim_space contains cut parse_int
range_given = refl

get_object_range-inside_example :
    (before : Bytes) × (got : Bytes) × (behind : Bytes) × (get_object_range server
        (codes "bkt")
        (codes "a")
        2
        (some 3)
        tree
      ≡ (ok (got, info), after))
    × (codes "abcdefgh" ≡ before ++ (got ++ behind))
    × (length before ≡ 2)
    × (length got ≡ 3)
get_object_range-inside_example =
    get_object_range-inside server (codes "bkt") (codes "a") (codes "bytes=2-4") (codes "abcdefgh")
      info two_to_four tree after read_whole range_given
