-- ===== src/Store/Info.antt =====
-- The types that package store hands to its callers (internal/store/store.go), and what the model
-- takes as given: the clock, names of temporary files, and the functions of packages crypto/md5,
-- encoding/json, mime and net/http, none of which lie in the repository.
use locals.Base.{ℕ, Bool, ◌/◌, ◌^◌, List, Bytes, codes, Option, Result}
use locals.Store.Error.{Error}

-- `map[string]string`
abbrev pub UserMeta : Type 0
UserMeta = List (Bytes × Bytes)

pub record BucketInfo : Type 0 where
  pub name : Bytes
  pub creation_date : ℕ

-- `last_modified` is in whole seconds, as all of them are truncated.
pub record ObjectInfo : Type 0 where
  pub bucket : Bytes
  pub key : Bytes
  pub size : ℕ
  pub etag : Bytes
  pub last_modified : ℕ
  pub content_type : Bytes
  pub user_meta : UserMeta
  pub checksum_algorithm : Bytes
  pub checksum_value : Bytes

-- The body is what its reader yields in all, or the error that it returns.
pub record PutRequest : Type 0 where
  pub bucket : Bytes
  pub key : Bytes
  pub body : Result Error Bytes
  pub content_type : Bytes
  pub user_meta : UserMeta
  pub checksum_algorithm : Bytes
  pub checksum_value : Bytes

pub record CopyRequest : Type 0 where
  pub src_bucket : Bytes
  pub src_key : Bytes
  pub dst_bucket : Bytes
  pub dst_key : Bytes
  pub replace_metadata : Bool
  pub content_type : Bytes
  pub user_meta : UserMeta

-- `sidecar`, the metadata file of an object (internal/store/meta.go).
pub record Sidecar : Type 0 where
  pub content_type : Bytes
  pub user_meta : UserMeta
  pub etag : Bytes
  pub size : ℕ
  pub mod_time_nano : ℕ
  pub part_etags : List Bytes
  pub checksum_algorithm : Bytes
  pub checksum_value : Bytes

-- What one call of an operation is given from outside.
pub record Env : Type 0 where
  -- `FSStore.root`, and `opts.AutoCreateBuckets`
  pub root : Bytes
  pub auto_create : Bool
  -- the time in nanoseconds, and the name that `os.CreateTemp` picks
  pub now : ℕ
  pub temp_name : Bytes
  -- `hex.EncodeToString` of the MD5 digest
  pub md5 : Bytes → Bytes
  -- `json.Marshal` and `json.Unmarshal` of a sidecar
  pub marshal : Sidecar → Bytes
  pub unmarshal : Bytes → Option Sidecar
  -- `mime.TypeByExtension(filepath.Ext(path))`, and `http.DetectContentType` of the first 512 bytes
  pub type_by_extension : Bytes → Bytes
  pub detect_type : Bytes → Bytes

-- `fi.ModTime().UTC().Truncate(time.Second)`
unfoldable pub seconds : ℕ → ℕ
seconds nano = nano / 10 ^ 9

-- `DefaultContentType`
abbrev pub default_content_type : Bytes
default_content_type = codes "binary/octet-stream"

-- `emptyETag`
abbrev pub empty_etag : Bytes
empty_etag = codes "d41d8cd98f00b204e9800998ecf8427e"
