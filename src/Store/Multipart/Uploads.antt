-- ===== src/Store/Multipart/Uploads.antt =====
-- The uploads in flight (internal/store/multipart.go): `ListMultipartUploads`.
use locals.Base.{Bool, not, List, [], ◌∷◌, none, some, Bytes, if◌then◌else◌, beq, lt_text, ok, err}
use locals.Store.Error.{os, not_exist}
use locals.Store.Path.{segments}
use locals.Store.Fs.{Entries, end, entry, is_directory, read_dir, read_file}
use locals.Store.Info.{Env}
use locals.Store.Monad.{M, ◌>>◌}
use locals.Store.Bucket.{bucket_exists}
use locals.Store.Multipart.{Manifests, Upload, uploads_dir, manifest_name}

-- `MultipartUpload` with its `UploadID`.
abbrev pub Named : Type 0
Named = Bytes × Upload

-- The loop over the directory of uploads: what is no directory, has no manifest that can be read, or
-- is of another bucket is passed over.
collect_uploads : Manifests → Env → Bytes → Entries → List Named
unfolding is_directory read_file
collect_uploads ms env bucket end = []
collect_uploads ms env bucket (entry name fi es) =
    let rest = collect_uploads ms env bucket es in
    if not (is_directory fi) then rest else elim (read_file fi (manifest_name ∷ [])) [
      | err e ↦ rest
      | ok b ↦ elim (ms.read b) [
        | none ↦ rest
        | some up ↦ if beq up.bucket bucket then (name, up) ∷ rest else rest
      ]
    ]

-- By key, then by id.
unfoldable pub comes_before : Named → Named → Bool
comes_before (id, up) (id', up') =
    if not (beq up.key up'.key) then lt_text up.key up'.key else lt_text id id'

unfoldable pub insert_upload : Named → List Named → List Named
insert_upload u [] = u ∷ []
insert_upload u (v ∷ vs) =
    let rest = insert_upload u vs in if comes_before v u then v ∷ rest else u ∷ v ∷ vs

-- `sort.Slice`. The ids differ, so that there is one sorted order.
unfoldable pub sort_uploads : List Named → List Named
unfolding insert_upload
sort_uploads [] = []
sort_uploads (u ∷ us) = insert_upload u (sort_uploads us)

-- Where the directory of uploads is missing there are none.
uploads_of : Manifests → Env → Bytes → M (List Named)
uploads_of ms env bucket n = elim (read_dir n (segments (uploads_dir env))) [
  | err not_exist ↦ (ok [], n)
  | err e ↦ (err (os e), n)
  | ok entries ↦ (ok (sort_uploads (collect_uploads ms env bucket entries)), n)
]

unfoldable pub list_multipart_uploads : Manifests → Env → Bytes → M (List Named)
unfolding uploads_of collect_uploads sort_uploads
list_multipart_uploads ms env bucket = do bucket_exists env bucket; uploads_of ms env bucket
