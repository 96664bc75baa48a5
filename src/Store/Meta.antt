-- ===== src/Store/Meta.antt =====
-- The metadata files beside the objects (internal/store/meta.go).
pub mod Fresh
use locals.Base.{
  ◌||◌, not, List, [], ◌∷◌, ◌++◌, Option, none, some, Bytes, codes, ◌==◌, if◌then◌else◌, beq,
  has_prefix, take, Result, ok, err,
}
use locals.Store.Error.{Error}
use locals.Store.Key.{meta_dir_name, is_dir_marker}
use locals.Store.Path.{join_path, key_to_path, segments}
use locals.Store.Fs.{
  Node, size_of, mod_time, mkdir_all, write_file, rename, read_file, remove, remove_all,
}
use locals.Store.Info.{Env, ObjectInfo, Sidecar, seconds, default_content_type}
use locals.Store.Monad.{M, ◌>>=◌, ◌>>◌, return, lift, ask, sys, ignore}

-- `filepath.Dir`, on segments.
abbrev pub parent : List Bytes → List Bytes
parent [] = []
parent (s ∷ []) = []
parent (s ∷ s' ∷ p) = s ∷ parent (s' ∷ p)

-- `metaRoot`
abbrev pub meta_root : Bytes → Bytes
meta_root root = join_path root (meta_dir_name ++ codes "/meta")

-- `metaPath`
unfoldable pub meta_path : Bytes → Bytes → Bytes → Result Error Bytes
meta_path root bucket key = elim (key_to_path (meta_root root) bucket key) [
  | ok p ↦ ok (p ++ (if is_dir_marker key then codes ".dirmarker.json" else codes ".json"))
  | err e ↦ err e
]

abbrev pub no_sidecar : Sidecar
no_sidecar = record {
  content_type = [];
  user_meta = [];
  etag = [];
  size = 0;
  mod_time_nano = 0;
  part_etags = [];
  checksum_algorithm = [];
  checksum_value = [];
}

-- The sidecar on disk, or an empty one where it is missing or corrupt.
unfoldable pub load_sidecar : Env → Bytes → Bytes → Node → Sidecar
load_sidecar env bucket key root = elim (meta_path env.root bucket key) [
  | err e ↦ no_sidecar
  | ok p ↦ elim (read_file root (segments p)) [
    | err e ↦ no_sidecar
    | ok b ↦ elim (env.unmarshal b) [ none ↦ no_sidecar | some sc ↦ sc ]
  ]
]

-- The digest goes if the file is not the one that the sidecar speaks of.
unfoldable pub reconcile : Option Node → Sidecar → Sidecar
unfolding size_of mod_time
reconcile none sc = sc
reconcile (some fi) sc =
    if not (sc.size == size_of fi) || not (sc.mod_time_nano == mod_time fi)
    then record sc { etag = []; part_etags = []; size = size_of fi; mod_time_nano = mod_time fi }
    else sc

-- `readSidecar`
unfoldable pub read_sidecar : Env → Bytes → Bytes → Option Node → Node → Sidecar
unfolding load_sidecar reconcile
read_sidecar env bucket key fi root = reconcile fi (load_sidecar env bucket key root)

unfoldable pub write_sidecar : Env → Bytes → Bytes → Sidecar → M (Unit {0})
write_sidecar env bucket key sc = do
  p ← lift (meta_path env.root bucket key)
  sys (λ n. mkdir_all env.now n (parent (segments p)))
  let tmp = p ++ codes ".tmp"
  sys (λ n. write_file env.now (env.marshal sc) n (segments tmp))
  sys (λ n. rename env.now n (segments tmp) (segments p))

unfoldable pub remove_sidecar : Env → Bytes → Bytes → M (Unit {0})
remove_sidecar env bucket key =
    ignore (do p ← lift (meta_path env.root bucket key); sys (λ n. remove env.now n (segments p)))

unfoldable pub remove_bucket_meta : Env → Bytes → M (Unit {0})
remove_bucket_meta env bucket =
    ignore (sys (λ n. remove_all env.now n (segments (join_path (meta_root env.root) bucket))))

unfoldable pub file_etag : Env → Bytes → M Bytes
file_etag env path = do body ← ask (λ n. read_file n (segments path)); return (env.md5 body)

unfoldable pub sniff_content_type : Env → Bytes → Node → Bytes
sniff_content_type env path root =
    let by_content = λ (body : Bytes).
      if has_prefix (env.detect_type (take 512 body)) (codes "application/octet-stream")
      then default_content_type
      else env.detect_type (take 512 body) in
    if not (beq (env.type_by_extension path) [])
    then env.type_by_extension path
    else elim (read_file root (segments path)) [
      | ok body ↦ by_content body
      | err e ↦ default_content_type
    ]

-- What is reported of a file, from its sidecar.
abbrev pub info_of : Bytes → Bytes → Node → Sidecar → ObjectInfo
info_of bucket key fi sc = record {
  bucket = bucket;
  key = key;
  size = size_of fi;
  etag = sc.etag;
  last_modified = seconds (mod_time fi);
  content_type = sc.content_type;
  user_meta = sc.user_meta;
  checksum_algorithm = sc.checksum_algorithm;
  checksum_value = sc.checksum_value;
}

-- The digest that the sidecar has, or that of the file's bytes.
fill_etag : Env → Bytes → Sidecar → M Sidecar
unfolding file_etag
fill_etag env path sc =
    if beq sc.etag []
    then (do et ← file_etag env path; return (record sc { etag = et }))
    else return sc

fill_content_type : Env → Bytes → Sidecar → M Sidecar
unfolding sniff_content_type
fill_content_type env path sc n = (
  ok (
      if beq sc.content_type []
      then record sc { content_type = sniff_content_type env path n }
      else sc),
  n,
)

-- `resolveInfo`: what was missing is written back, if that succeeds.
unfoldable pub resolve_info : Env → Bytes → Bytes → Bytes → Node → Sidecar → M ObjectInfo
unfolding fill_etag fill_content_type
resolve_info env bucket key path fi sc = do
  with_etag ← fill_etag env path sc
  full ← fill_content_type env path with_etag
  let sc' : Sidecar = record full { size = size_of fi; mod_time_nano = mod_time fi }
  (if beq sc.etag [] || beq sc.content_type []
      then ignore (write_sidecar env bucket key sc')
      else return tt)
  return (info_of bucket key fi sc')
