-- ===== src/Store/Object.antt =====
-- Objects (internal/store/fs.go): `PutObject`, `GetObject`, `GetObjectRange`, `HeadObject`,
-- `DeleteObject`, `SetObjectChecksum` and their helpers. In the source these operations hold
-- the lock of their key while they are at the key's files, so each is one step on the tree here. `Sync`, `Close` and `Chmod` change neither the
-- names nor the bytes, and are taken to succeed.
pub mod Laws
pub mod Frame
pub mod Put
pub mod Read
pub mod Stored
pub mod PutGet
pub mod Deleted
use locals.Base.{
  ℕ, zero, suc, Bool, true, false, ◌&&◌, ◌||◌, not, List, [], ◌∷◌, ◌++◌, Option, none, some, Bytes,
  codes, if◌then◌else◌, beq, split, length, take, drop, Result, ok, err,
}
use locals.Store.Error.{
  Error, no_such_bucket, no_such_key, key_dir_conflict, os, OsError, not_exist, not_dir, exist,
  not_empty, is_dir,
}
use locals.Store.Key.{slash, meta_dir_name, is_dir_marker, validate_bucket_name}
use locals.Store.Path.{bucket_path, join_path, key_to_path, rel, segments, differ}
use locals.Store.Fs.{
  Node, file, dir, is_directory, size_of, mod_time, stat_node, mkdir_all, write_file, rename,
  read_file, remove,
}
use locals.Store.Info.{
  Env, ObjectInfo, PutRequest, Sidecar, seconds, default_content_type, empty_etag,
}
use locals.Store.Monad.{
  M, ◌>>=◌, ◌>>◌, return, fail, lift, ask, ask_or, sys, sys_or, ignore, finally,
}
use locals.Store.Bucket.{is_dir_at, bucket_exists, create_bucket}
use locals.Store.Meta.{
  parent, no_sidecar, read_sidecar, write_sidecar, remove_sidecar, resolve_info, info_of,
}

-- `notFound`
unfoldable pub not_found : OsError → Error
not_found not_exist = no_such_key
not_found not_dir = os not_dir
not_found exist = os exist
not_found not_empty = os not_empty
not_found is_dir = os is_dir

-- `classifyMkdirErr`
unfoldable pub classify_mkdir_err : OsError → Error
classify_mkdir_err not_exist = os not_exist
classify_mkdir_err not_dir = key_dir_conflict
classify_mkdir_err exist = key_dir_conflict
classify_mkdir_err not_empty = os not_empty
classify_mkdir_err is_dir = os is_dir

-- Whether a path leads to something that is no directory.
unfoldable pub is_file_at : Node → List Bytes → Bool
unfolding is_directory
is_file_at root p = elim (stat_node root p) [ ok fi ↦ not (is_directory fi) | err e ↦ false ]

-- Whether one of the directories above the last part is a file.
unfoldable pub blocked : Node → List Bytes → List Bytes → Bool
blocked root cur [] = false
blocked root cur (p ∷ []) = false
blocked root cur (p ∷ q ∷ ps) =
    is_file_at root (cur ++ (p ∷ [])) || blocked root (cur ++ (p ∷ [])) (q ∷ ps)

unfoldable pub check_conflicts : Env → Bytes → Bytes → Bytes → M (Unit {0})
check_conflicts env bucket key path = do
  let base = bucket_path env.root bucket
  r ← lift (rel base path)
  λ n.
      if blocked n (segments base) (split r slash)
      then (err key_dir_conflict, n)
      else if is_dir_at n (segments path) && not (is_dir_marker key)
      then (err key_dir_conflict, n)
      else (ok tt, n)

-- The bucket that is missing is made implicitly where the options say so.
unfoldable pub make_missing : Env → Bytes → Result Error (Unit {0}) → M (Unit {0})
make_missing env bucket (ok u) n = (ok tt, n)
make_missing env bucket (err no_such_bucket) n =
    if env.auto_create then create_bucket env bucket n else (err no_such_bucket, n)
make_missing env bucket (err e) n = (err e, n)

-- `bucketExists` at the head of `PutObject`.
unfoldable pub ensure_bucket : Env → Bytes → M (Unit {0})
ensure_bucket env bucket n = make_missing env bucket (bucket_exists env bucket n).0 n

abbrev pub temp_dir : Env → Bytes
temp_dir env = join_path env.root (meta_dir_name ++ codes "/tmp")

abbrev pub temp_path : Env → Bytes
temp_path env = join_path (temp_dir env) env.temp_name

-- The sidecar that a request asks for, before the digest is known.
abbrev pub declared : PutRequest → Sidecar
declared req = record no_sidecar {
  content_type = if beq req.content_type [] then default_content_type else req.content_type;
  user_meta = req.user_meta;
  checksum_algorithm = req.checksum_algorithm;
  checksum_value = req.checksum_value;
}

abbrev pub marker_sidecar : PutRequest → Node → Sidecar
marker_sidecar req fi = record (declared req) { etag = empty_etag; mod_time_nano = mod_time fi }

-- The info of a new directory marker carries no checksum.
abbrev pub marked_info : PutRequest → Node → ObjectInfo
marked_info req fi = record {
  bucket = req.bucket;
  key = req.key;
  size = 0;
  etag = empty_etag;
  last_modified = seconds (mod_time fi);
  content_type = (declared req).content_type;
  user_meta = req.user_meta;
  checksum_algorithm = [];
  checksum_value = [];
}

unfoldable pub settle_marker : Env → PutRequest → Node → M ObjectInfo
settle_marker env req fi = do
  write_sidecar env req.bucket req.key (marker_sidecar req fi)
  return (marked_info req fi)

-- The branch for a directory marker.
unfoldable pub put_marker : Env → PutRequest → Bytes → M ObjectInfo
put_marker env req path = do
  sys (λ n. mkdir_all env.now n (segments path))
  fi ← ask (λ n. stat_node n (segments path))
  settle_marker env req fi

-- `os.Remove(tmpName)`, which does nothing once the file is renamed.
abbrev pub drop_temp : Env → Node → Node
drop_temp env n = elim (remove env.now n (segments (temp_path env))) [ ok n' ↦ n' | err e ↦ n ]

-- The body is staged in a temporary file, and renamed into place.
unfoldable pub place : Env → Bytes → Bytes → M Bytes
place env path content = do
  sys (λ n. write_file env.now content n (segments (temp_path env)))
  sys (λ n. rename env.now n (segments (temp_path env)) (segments path))
  return content

unfoldable pub stage : Env → Result Error Bytes → Bytes → M Bytes
stage env body path = do content ← lift body; place env path content

-- What is recorded of an object, and answered: the digest and the size of the bytes written, and
-- the time of the file.
abbrev pub put_sidecar : Env → PutRequest → Bytes → Node → Sidecar
put_sidecar env req content fi = record (declared req) {
  etag = env.md5 content;
  size = length content;
  mod_time_nano = mod_time fi;
}

abbrev pub put_info : PutRequest → Sidecar → Node → ObjectInfo
put_info req sc fi = record {
  bucket = req.bucket;
  key = req.key;
  size = sc.size;
  etag = sc.etag;
  last_modified = seconds (mod_time fi);
  content_type = sc.content_type;
  user_meta = sc.user_meta;
  checksum_algorithm = sc.checksum_algorithm;
  checksum_value = sc.checksum_value;
}

unfoldable pub settle : Env → PutRequest → Bytes → Node → M ObjectInfo
settle env req content fi = do
  write_sidecar env req.bucket req.key (put_sidecar env req content fi)
  return (put_info req (put_sidecar env req content fi) fi)

unfoldable pub settle_at : Env → PutRequest → Bytes → Bytes → M ObjectInfo
settle_at env req path content = do
  fi ← ask (λ n. stat_node n (segments path))
  settle env req content fi

unfoldable pub commit : Env → PutRequest → Bytes → M ObjectInfo
commit env req path = do content ← stage env req.body path; settle_at env req path content

-- The branch for an object.
unfoldable pub put_file : Env → PutRequest → Bytes → M ObjectInfo
put_file env req path = do
  sys_or classify_mkdir_err (λ n. mkdir_all env.now n (parent (segments path)))
  sys (λ n. write_file env.now [] n (segments (temp_path env)))
  finally (commit env req path) (drop_temp env)

unfoldable pub put_at : Env → PutRequest → Bytes → M ObjectInfo
put_at env req path = do
  check_conflicts env req.bucket req.key path
  if is_dir_marker req.key then put_marker env req path else put_file env req path

unfoldable pub put_object : Env → PutRequest → M ObjectInfo
put_object env req = do
  ensure_bucket env req.bucket
  path ← lift (key_to_path env.root req.bucket req.key)
  put_at env req path

unfoldable pub set_object_checksum : Env → Bytes → Bytes → Bytes → Bytes → M (Unit {0})
set_object_checksum env bucket key algorithm value = do
  path ← lift (key_to_path env.root bucket key)
  fi ← ask_or not_found (λ n. stat_node n (segments path))
  λ n.
      let sc = read_sidecar env bucket key (some fi) n in
      write_sidecar env bucket key
        (record sc { checksum_algorithm = algorithm; checksum_value = value }) n

-- The info of a directory marker.
abbrev pub marker_info : Env → Bytes → Bytes → Node → Node → ObjectInfo
marker_info env bucket key fi n =
    let sc = read_sidecar env bucket key none n in
    record {
      bucket = bucket;
      key = key;
      size = 0;
      etag = empty_etag;
      last_modified = seconds (mod_time fi);
      content_type = if beq sc.content_type [] then default_content_type else sc.content_type;
      user_meta = sc.user_meta;
      checksum_algorithm = [];
      checksum_value = [];
    }

-- What `stat` makes of a path that exists.
unfoldable pub describe : Env → Bytes → Bytes → Bytes → Node → M (ObjectInfo × Bytes)
describe env bucket key path fi =
    if differ (is_directory fi) (is_dir_marker key)
    then fail no_such_key
    else if is_dir_marker key
    then (λ n. (ok (marker_info env bucket key fi n, path), n))
    else (λ n.
        (resolve_info env bucket key path fi (read_sidecar env bucket key (some fi) n) >>= λ info.
        return (info, path))
          n)

unfoldable pub stat_path : Env → Bytes → Bytes → Bytes → M (ObjectInfo × Bytes)
stat_path env bucket key path = do
  fi ← ask_or not_found (λ n. stat_node n (segments path))
  describe env bucket key path fi

-- `stat`, which also returns the path.
unfoldable pub stat_object : Env → Bytes → Bytes → M (ObjectInfo × Bytes)
stat_object env bucket key = do
  bucket_exists env bucket
  path ← lift (key_to_path env.root bucket key)
  stat_path env bucket key path

unfoldable pub head_object : Env → Bytes → Bytes → M ObjectInfo
head_object env bucket key = do found ← stat_object env bucket key; return found.0

-- The end of `GetObject` and `GetObjectRange`: a marker has no bytes, a file those that `part`
-- takes.
unfoldable pub open_found : Bytes → (Bytes → Bytes) → ObjectInfo × Bytes → M (Bytes × ObjectInfo)
open_found key part found = if is_dir_marker key then return ([], found.0) else do
  body ← ask_or not_found (λ n. read_file n (segments found.1))
  return (part body, found.0)

unfoldable pub get_object : Env → Bytes → Bytes → M (Bytes × ObjectInfo)
get_object env bucket key = do
  found ← stat_object env bucket key
  open_found key (λ body. body) found

-- The range of a file's bytes; `none` stands for a negative length.
unfoldable pub section : ℕ → Option ℕ → Bytes → Bytes
section offset none body = drop offset body
section offset (some len) body = take len (drop offset body)

unfoldable pub get_object_range : Env → Bytes → Bytes → ℕ → Option ℕ → M (Bytes × ObjectInfo)
get_object_range env bucket key offset len = do
  found ← stat_object env bucket key
  open_found key (section offset len) found

-- Strictly below the directory `base`, on segments.
below : List Bytes → List Bytes → Bool
below [] [] = false
below [] (s ∷ p) = true
below (b ∷ base) [] = false
below (b ∷ base) (s ∷ p) = beq b s && below base p

-- `pruneEmptyDirs`: a round for each directory up to the bucket; `fuel` is the path's length.
unfoldable pub prune_empty_dirs : Env → List Bytes → ℕ → List Bytes → Node → Node
unfolding below
prune_empty_dirs env base zero p n = n
prune_empty_dirs env base (suc fuel) p n =
    let next : Node = elim (remove env.now n p) [
      | ok n' ↦ prune_empty_dirs env base fuel (parent p) n'
      | err e ↦ n
    ] in
    if below base p then next else n

-- What `DeleteObject` does to the file itself.
remove_object : Env → Bytes → List Bytes → M (Unit {0})
remove_object env key p n =
    if is_dir_marker key
    then ignore (sys (λ m. remove env.now m p)) n
    else if is_file_at n p
    then sys (λ m. remove env.now m p) n
    else (ok tt, n)

-- What is taken away behind the file: its sidecar, and the directories that are empty then.
unfoldable pub clear_away : Env → Bytes → Bytes → Bytes → M (Unit {0})
clear_away env bucket key path n =
    let dirs = parent (segments path) in
    let base = segments (bucket_path env.root bucket) in
    (ok tt, prune_empty_dirs env base (length dirs) dirs (remove_sidecar env bucket key n).1)

unfoldable pub delete_at : Env → Bytes → Bytes → Bytes → M (Unit {0})
unfolding remove_object
delete_at env bucket key path = do
  remove_object env key (segments path)
  clear_away env bucket key path

unfoldable pub delete_object : Env → Bytes → Bytes → M (Unit {0})
delete_object env bucket key = do
  bucket_exists env bucket
  path ← lift (key_to_path env.root bucket key)
  delete_at env bucket key path
