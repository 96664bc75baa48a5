-- ===== src/Api/Tests/RollBack.antt =====
-- A PUT with a wrong digest, over the store of files (internal/s3api/object.go), at a concrete tree.
use locals.Base.{
  ◌≡◌, refl, false, [], ◌∷◌, codes, Bytes, none, beq, trim_suffix, if◌then◌else◌, ok, err, contains,
  has_prefix, index,
}
use locals.Store.Error.{no_such_key}
use locals.Store.Utf8.{valid_utf8}
use locals.Store.Key.{is_dir_marker, validate_bucket_name, validate_key}
use locals.Store.Path.{
  bucket_path, key_to_path, segments, within_dir, join_path, rel, climb, diverge,
}
use locals.Store.Fs.{
  Node, stat_node, is_directory, size_of, mod_time, mkdir_all, write_file, rename, remove,
}
use locals.Api.Server.{Server}
use locals.Store.Contract.{Served, fs_store}
use locals.Store.Info.{PutRequest, ObjectInfo, seconds, default_content_type}
use locals.Store.Bucket.{bucket_exists, is_dir_at}
use locals.Store.Meta.{write_sidecar, meta_path, remove_sidecar}
use locals.Store.Object
use locals.Store.Object.{
  put_at, put_file, commit, stage, place, settle, settle_at, ensure_bucket, make_missing,
  check_conflicts, blocked, is_file_at, head_object, prune_empty_dirs, delete_at, clear_away,
}
use locals.Store.Multipart.{Manifests}
use locals.Store.Tests.PutGet.{parts, parts-IsPlain, server, tree, temp_name-IsPlain}
use locals.Store.Tests.Codec.{marshal}
use locals.Api.Error.{err_bad_digest}
use locals.Api.Request.{put_method}
use locals.Api.Response.{Call}
use locals.Api.Body.{request_body, is_chunked_body}
use locals.Api.Checksum.{new_validator, verify, from_trailer, up_front}
use locals.Api.Object.{user_meta_from_headers, put_object, put_request, received, trailers_met}
use locals.Api.Object.RollBack.{over_files, put_object_rolled_back}
use locals.Api.Tests.Handlers.{packages}

abbrev manifests : Manifests
manifests = record { write = λ up. []; read = λ s. none }

abbrev wrong_digest : Bytes → Bytes
wrong_digest name = if beq name (codes "Content-MD5") then codes "zz" else []

abbrev c : Call
c = record {
  request = record {
    method = put_method;
    path = codes "/bkt/docs/a";
    host = codes "localhost";
    fields = [];
    body = codes "hello";
    header = wrong_digest;
    query = λ name. [];
    has_query = λ name. false;
  };
  rid = codes "R";
  base = [];
  bucket = codes "bkt";
  key = codes "docs/a";
}

abbrev files : Server Served
files =
    over_files parts parts-IsPlain (λ k. server) (λ k. refl) (λ k. temp_name-IsPlain) manifests
      (λ k. []) (codes "us-east-1") [] packages

-- What the server asks of the store.
abbrev asked : PutRequest
asked = put_request files c (new_validator packages c.request)

abbrev info : ObjectInfo
info = record {
  bucket = codes "bkt";
  key = codes "docs/a";
  size = 5;
  etag = 1 ∷ codes "hello";
  last_modified = 0;
  content_type = default_content_type;
  user_meta = [];
  checksum_algorithm = [];
  checksum_value = [];
}

abbrev after_put : Node
after_put = (Object.put_object server asked tree).1

put : Object.put_object server asked tree ≡ (ok info, after_put)
unfolding Object.put_object put_at put_file commit stage place settle settle_at ensure_bucket
    make_missing check_conflicts blocked is_file_at write_sidecar meta_path bucket_exists is_dir_at
    validate_bucket_name key_to_path validate_key valid_utf8 within_dir join_path rel climb diverge
    bucket_path segments trim_suffix is_dir_marker stat_node is_directory size_of mod_time mkdir_all
    write_file rename remove marshal seconds request_body is_chunked_body contains has_prefix index
    beq new_validator up_front from_trailer user_meta_from_headers
put = refl

refused :
    verify packages (new_validator packages c.request) (received files c) (trailers_met files c)
    ≡ err err_bad_digest
unfolding verify new_validator up_front request_body is_chunked_body contains has_prefix index beq
    fs_store is_dir_marker
refused = refl

deleted :
    Object.delete_object server (codes "bkt") (codes "docs/a") after_put
    ≡ (ok tt, (Object.delete_object server (codes "bkt") (codes "docs/a") after_put).1)
unfolding Object.put_object put_at put_file commit stage place settle settle_at ensure_bucket
    make_missing check_conflicts blocked is_file_at write_sidecar meta_path bucket_exists is_dir_at
    validate_bucket_name key_to_path validate_key valid_utf8 within_dir join_path rel climb diverge
    bucket_path segments trim_suffix is_dir_marker stat_node is_directory size_of mod_time mkdir_all
    write_file rename remove marshal seconds request_body is_chunked_body contains has_prefix index
    beq new_validator up_front from_trailer user_meta_from_headers Object.delete_object delete_at
    clear_away prune_empty_dirs remove_sidecar
deleted = refl

valid : validate_bucket_name (codes "bkt") ≡ ok tt
unfolding validate_bucket_name
valid = refl

object : is_dir_marker (codes "docs/a") ≡ false
unfolding is_dir_marker
object = refl

put_object_rolled_back_example :
    ((put_object files c (0, tree)).0.status ≡ 400)
    × (head_object
          (record server { now = 50 })
          (codes "bkt")
          (codes "docs/a")
          (put_object files c (0, tree)).1.1
        ≡ (err no_such_key, (put_object files c (0, tree)).1.1))
put_object_rolled_back_example =
    put_object_rolled_back parts parts-IsPlain (λ k. server) (λ k. refl) (λ k. temp_name-IsPlain)
      manifests (λ k. []) (codes "us-east-1") [] packages c 0 50 info tree after_put
      (Object.delete_object server (codes "bkt") (codes "docs/a") after_put).1 err_bad_digest valid
      object put refused deleted
