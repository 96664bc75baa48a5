-- ===== src/Store/Contract.antt =====
-- The store that the handlers call (internal/store/store.go, `Store`; internal/s3api/multipart.go,
-- `multipartStore`), as a record of operations on a state, and `FSStore` as one of them.
use locals.Base.{ℕ, suc, Bool, not, List, Option, some, Bytes, Result}
use locals.Store.Error.{Error}
use locals.Store.Key.{is_dir_marker}
use locals.Store.Fs.{Node}
use locals.Store.Info.{Env, BucketInfo, ObjectInfo, PutRequest, CopyRequest, UserMeta}
use locals.Store.Monad.{M}
use locals.Store.Bucket.{create_bucket, delete_bucket, head_bucket, list_buckets}
use locals.Store.Object.{
  put_object, get_object, get_object_range, head_object, delete_object, set_object_checksum,
}
use locals.Store.Copy.{copy_object}
use locals.Store.Listing.{ListRequest, ListResult, list_objects}
use locals.Store.Multipart.{
  Manifests, Part, CompletedPart, create_multipart_upload, upload_part, list_parts,
  abort_multipart_upload,
}
use locals.Store.Multipart.Complete.{complete_multipart_upload}
use locals.Store.Multipart.Uploads.{Named, list_multipart_uploads}

-- An operation on states `S`, which may fail.
abbrev pub Op : Type 0 → Type 0 → Type 0
Op S A = S → Result Error A × S

-- `multipartStore`
pub record MultipartStore (S : Type 0) : Type 0 where
  pub create_upload : Bytes → Bytes → Bytes → UserMeta → Op S Bytes
  pub upload_part : Bytes → Bytes → Bytes → ℕ → Result Error Bytes → Op S Part
  pub list_parts : Bytes → Bytes → Bytes → Op S (List Part)
  pub abort_upload : Bytes → Bytes → Bytes → Op S (Unit {0})
  pub complete_upload : Bytes → Bytes → Bytes → List CompletedPart → Op S ObjectInfo
  pub list_uploads : Bytes → Op S (List Named)

-- `Store`, with what the type assertion of `Handler.multipart` finds.
pub record Backend (S : Type 0) : Type 0 where
  pub create_bucket : Bytes → Op S (Unit {0})
  pub delete_bucket : Bytes → Op S (Unit {0})
  pub head_bucket : Bytes → Op S (Unit {0})
  pub list_buckets : Op S (List BucketInfo)
  pub put_object : PutRequest → Op S ObjectInfo
  pub get_object : Bytes → Bytes → Op S (Bytes × ObjectInfo)
  pub get_object_range : Bytes → Bytes → ℕ → Option ℕ → Op S (Bytes × ObjectInfo)
  pub head_object : Bytes → Bytes → Op S ObjectInfo
  pub delete_object : Bytes → Bytes → Op S (Unit {0})
  pub set_object_checksum : Bytes → Bytes → Bytes → Bytes → Op S (Unit {0})
  pub list_objects : ListRequest → Op S ListResult
  pub copy_object : CopyRequest → Op S ObjectInfo
  pub multipart : Option (MultipartStore S)
  -- whether a put of the key that succeeds has read the body to its end, or nothing of it
  pub reads_body : Bytes → Bool

-- The state of `FSStore`: how many calls there were, and the tree.
abbrev pub Served : Type 0
Served = ℕ × Node

-- Each call has its own time and its own name of a temporary file.
abbrev pub call {ℓ} : {A : Type ℓ} → (ℕ → Env) → (Env → M A) → Served → Result Error A × Served
call at op (count, n) = let (r, n') = op (at count) n in (r, (suc count, n'))

-- `FSStore`. `ids` are what `newUploadID` mints.
unfoldable pub fs_store : Manifests → (ℕ → Env) → (ℕ → Bytes) → Backend Served
fs_store ms at ids = record {
  create_bucket = λ bucket. call at (λ env. create_bucket env bucket);
  delete_bucket = λ bucket. call at (λ env. delete_bucket env bucket);
  head_bucket = λ bucket. call at (λ env. head_bucket env bucket);
  list_buckets = call at list_buckets;
  put_object = λ req. call at (λ env. put_object env req);
  get_object = λ bucket key. call at (λ env. get_object env bucket key);
  get_object_range =
      λ bucket key offset len. call at (λ env. get_object_range env bucket key offset len);
  head_object = λ bucket key. call at (λ env. head_object env bucket key);
  delete_object = λ bucket key. call at (λ env. delete_object env bucket key);
  set_object_checksum = λ bucket key algorithm value.
      call at (λ env. set_object_checksum env bucket key algorithm value);
  list_objects = λ req. call at (λ env. list_objects env req);
  copy_object = λ req. call at (λ env. copy_object env req);
  multipart = some (record {
    create_upload = λ bucket key content_type user_meta s.
        call at (λ env. create_multipart_upload ms env (ids s.0) bucket key content_type user_meta)
          s;
    upload_part =
        λ bucket key id number body. call at (λ env. upload_part ms env bucket key id number body);
    list_parts = λ bucket key id. call at (λ env. list_parts ms env bucket key id);
    abort_upload = λ bucket key id. call at (λ env. abort_multipart_upload ms env bucket key id);
    complete_upload = λ bucket key id parts.
        call at (λ env. complete_multipart_upload ms env bucket key id parts);
    list_uploads = λ bucket. call at (λ env. list_multipart_uploads ms env bucket);
  });
  reads_body = λ key. not (is_dir_marker key);
}
