-- ===== src/Store/Tests/Deleted.antt =====
-- A deletion and the read after it (internal/store/fs.go), at a concrete tree.
use locals.Base.{◌≡◌, refl, true, false, codes, trim_suffix, ok, err}
use locals.Store.Error.{no_such_key}
use locals.Store.Utf8.{valid_utf8}
use locals.Store.Key.{is_dir_marker, validate_bucket_name, validate_key}
use locals.Store.Path.{bucket_path, key_to_path, segments, within_dir, join_path}
use locals.Store.Fs.{Node, file, dir, end, entry, stat_node, is_directory, remove}
use locals.Store.Bucket.{bucket_exists, is_dir_at}
use locals.Store.Meta.{remove_sidecar, meta_path}
use locals.Store.Object.{
  is_file_at, prune_empty_dirs, delete_object, delete_at, clear_away, head_object,
}
use locals.Store.Object.Deleted.{head_object-delete_object}
use locals.Store.Tests.PutGet.{parts, parts-IsPlain, server}

-- The bucket holds the object `docs/a` and nothing else, and there is no sidecar.
abbrev tree : Node
tree = dir 1 (
    entry (codes "srv")
      (dir 1 (
        entry (codes "bkt")
          (dir 1 (entry (codes "docs") (dir 1 (entry (codes "a") (file (codes "x") 1) end)) end))
          end))
      end)

named : key_to_path server.root (codes "bkt") (codes "docs/a") ≡ ok (codes "/srv/bkt/docs/a")
unfolding key_to_path validate_key within_dir join_path bucket_path trim_suffix
named = refl

there : is_file_at tree (segments (codes "/srv/bkt/docs/a")) ≡ true
unfolding is_file_at stat_node is_directory segments
there = refl

object : is_dir_marker (codes "docs/a") ≡ false
unfolding is_dir_marker
object = refl

deleted :
    delete_object server (codes "bkt") (codes "docs/a") tree
    ≡ (ok tt, (delete_object server (codes "bkt") (codes "docs/a") tree).1)
unfolding stat_node delete_object delete_at clear_away bucket_exists validate_bucket_name is_dir_at
    key_to_path validate_key within_dir join_path bucket_path segments trim_suffix is_dir_marker
    is_file_at is_directory remove remove_sidecar meta_path prune_empty_dirs valid_utf8
deleted = refl

head_object-delete_object_example :
    head_object
      (record server { now = 20 })
      (codes "bkt")
      (codes "docs/a")
      (delete_object server (codes "bkt") (codes "docs/a") tree).1
    ≡ (err no_such_key, (delete_object server (codes "bkt") (codes "docs/a") tree).1)
head_object-delete_object_example =
    head_object-delete_object parts parts-IsPlain server refl (codes "bkt") (codes "docs/a")
      (codes "/srv/bkt/docs/a") tree (delete_object server (codes "bkt") (codes "docs/a") tree).1 20
      object named there deleted
