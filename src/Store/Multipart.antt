-- ===== src/Store/Multipart.antt =====
-- Multipart uploads (internal/store/multipart.go). The manifest is JSON: its reading and writing
-- are parameters. The step relation between requests is that of the store: each operation is one
-- change of the tree.
pub mod Check
pub mod Texts
pub mod Accepted
pub mod Complete
pub mod Joined
pub mod Layout
pub mod ReadBack
pub mod Uploads
use locals.Base.{
  ℕ, zero, suc, ◌+◌, ◌-◌, ◌*◌, ◌/◌, ◌%◌, ◌^◌, Bool, true, false, ◌&&◌, ◌||◌, not, List, [], ◌∷◌,
  ◌++◌, Option, none, some, Bytes, codes, ltb, leb, ◌==◌, if◌then◌else◌, beq, length, trim_left,
  trim_right, is_digit, Result, ok, err, lt_text,
}
use locals.Base.Int.{ℤ, pos, negsuc, parse_int}
use locals.Store.Error.{
  Error, OsError, no_such_upload, invalid_part, invalid_part_meta, entity_too_small, os,
}
use locals.Store.Key.{meta_dir_name, validate_key}
use locals.Store.Path.{join_path, segments, key_to_path}
use locals.Store.Fs.{
  Node, file, dir, Entries, end, entry, is_directory, size_of, mod_time, stat_node, mkdir_all,
  write_file, rename, read_file, read_dir, remove_all,
}
use locals.Store.Info.{Env, ObjectInfo, UserMeta, Sidecar, seconds, default_content_type}
use locals.Store.Monad.{M, ◌>>=◌, ◌>>◌, return, fail, lift, ask, sys, sys_or, finally}
use locals.Store.Bucket.{bucket_exists}
use locals.Store.Meta.{parent, no_sidecar, write_sidecar, file_etag}
use locals.Store.Object.{check_conflicts, classify_mkdir_err, temp_path, drop_temp}

-- `MinPartSize` and `MaxParts`
abbrev pub min_part_size : ℕ
min_part_size = 5242880

abbrev pub max_parts : ℕ
max_parts = 10000

pub record Part : Type 0 where
  pub part_number : ℕ
  pub etag : Bytes
  pub size : ℕ
  pub last_modified : ℕ

-- Part numbers of a request are integers; those that are not positive are all 0 here, as none of
-- them passes a test that a larger one fails.
pub record CompletedPart : Type 0 where
  pub part_number : ℕ
  pub etag : Bytes

-- `MultipartUpload`, without its id, which is the name of its directory.
pub record Upload : Type 0 where
  pub bucket : Bytes
  pub key : Bytes
  pub content_type : Bytes
  pub user_meta : UserMeta
  pub initiated : ℕ

is_hex : ℕ → Bool
is_hex c = is_digit c || (leb b'a' c && leb c b'f')

all_hex : Bytes → Bool
unfolding is_hex is_digit
all_hex [] = true
all_hex (c ∷ s) = is_hex c && all_hex s

-- `validUploadID`
unfoldable pub valid_upload_id : Bytes → Bool
unfolding all_hex
valid_upload_id id = length id == 32 && all_hex id

is_quote : ℕ → Bool
is_quote c = c == b'"'

-- `normalizeETag`
unfoldable pub normalize_etag : Bytes → Bytes
unfolding trim_left trim_right is_quote
normalize_etag etag = trim_right is_quote (trim_left is_quote etag)

-- `map[int]Part`: the last part of a number counts, and no number is staged twice.
unfoldable pub staged_part : ℕ → List Part → Option Part
staged_part n [] = none
staged_part n (p ∷ ps) = let rest = staged_part n ps in if p.part_number == n then some p else rest

unfoldable pub is_more : List CompletedPart → Bool
is_more [] = false
is_more (p ∷ ps) = true

-- The loop over the parts that a request lists; `last` is the number before. The parts that are
-- found, in order.
unfoldable pub check_parts : List Part → ℕ → List CompletedPart → Result Error (List Part)
check_parts staged last [] = ok []
check_parts staged last (want ∷ parts) =
    if leb want.part_number last
    then err invalid_part_meta
    else elim (staged_part want.part_number staged) [
      | none ↦ err invalid_part
      | some got ↦
          let rest = check_parts staged want.part_number parts in
          if not (beq (normalize_etag want.etag) got.etag)
          then err invalid_part
          else if is_more parts && ltb got.size min_part_size
          then err entity_too_small
          else elim rest [ ok found ↦ ok (got ∷ found) | err e ↦ err e ]
    ]

-- `fmt.Sprintf("%05d", n)` below 100000.
unfoldable pub five_digits : ℕ → Bytes
five_digits n =
    (b'0' + n / 10000 % 10)
    ∷ (b'0' + n / 1000 % 10)
    ∷ (b'0' + n / 100 % 10)
    ∷ (b'0' + n / 10 % 10)
    ∷ (b'0' + n % 10)
    ∷ []

abbrev pub uploads_dir : Env → Bytes
uploads_dir env = join_path env.root (meta_dir_name ++ codes "/uploads")

abbrev pub upload_dir : Env → Bytes → Bytes
upload_dir env id = join_path (uploads_dir env) id

abbrev pub manifest_name : Bytes
manifest_name = codes "manifest.json"

abbrev pub manifest_path : Env → Bytes → Bytes
manifest_path env id = join_path (upload_dir env id) manifest_name

unfoldable pub part_path : Env → Bytes → ℕ → Bytes
unfolding five_digits
part_path env id n = join_path (upload_dir env id) (five_digits n)

-- `json.Marshal` and `json.Unmarshal` of a manifest.
pub record Manifests : Type 0 where
  pub write : Upload → Bytes
  pub read : Bytes → Option Upload

-- `os.ReadFile` and `json.Unmarshal`, where every failure is answered alike.
unfoldable pub manifest_at : Manifests → Env → Bytes → Node → Option Upload
manifest_at ms env id n = elim (read_file n (segments (manifest_path env id))) [
  | err e ↦ none
  | ok b ↦ ms.read b
]

-- `loadUpload`: an id is good only for the bucket and key that it was made for.
unfoldable pub load_upload : Manifests → Env → Bytes → Bytes → Bytes → M Upload
load_upload ms env bucket key id n =
    if not (valid_upload_id id) then (err no_such_upload, n) else elim (manifest_at ms env id n) [
      | none ↦ (err no_such_upload, n)
      | some up ↦
          if not (beq up.bucket bucket) || not (beq up.key key)
          then (err no_such_upload, n)
          else (ok up, n)
    ]

-- `CreateMultipartUpload`; `id` is what `newUploadID` mints.
unfoldable pub create_multipart_upload :
    Manifests → Env → Bytes → Bytes → Bytes → Bytes → UserMeta → M Bytes
create_multipart_upload ms env id bucket key content_type user_meta = do
  bucket_exists env bucket
  lift (validate_key key)
  sys (λ n. mkdir_all env.now n (segments (upload_dir env id)))
  let up : Upload = record {
    bucket = bucket;
    key = key;
    content_type = if beq content_type [] then default_content_type else content_type;
    user_meta = user_meta;
    initiated = seconds env.now;
  }
  sys (λ n. write_file env.now (ms.write up) n (segments (manifest_path env id)))
  return id

-- `UploadPart`
unfoldable pub upload_part :
    Manifests → Env → Bytes → Bytes → Bytes → ℕ → Result Error Bytes → M Part
upload_part ms env bucket key id number body = do
  (if ltb number 1 || ltb max_parts number then fail invalid_part else return tt)
  up ← load_upload ms env bucket key id
  sys (λ n. write_file env.now [] n (segments (temp_path env)))
  finally
      (do
        content ← lift body
        sys (λ n. write_file env.now content n (segments (temp_path env)))
        sys (λ n. rename env.now n (segments (temp_path env)) (segments (part_path env id number)))
        fi ← ask (λ n. stat_node n (segments (part_path env id number)))
        return (record {
          part_number = number;
          etag = env.md5 content;
          size = length content;
          last_modified = seconds (mod_time fi);
        }))
      (drop_temp env)

-- `partInfo`
unfoldable pub part_info : Env → Bytes → ℕ → M Part
part_info env id number = do
  fi ← ask (λ n. stat_node n (segments (part_path env id number)))
  et ← file_etag env (part_path env id number)
  return (record {
    part_number = number;
    etag = et;
    size = size_of fi;
    last_modified = seconds (mod_time fi);
  })

-- The loop over the upload's directory: names that are no numbers are passed over.
unfoldable pub collect_parts : Env → Bytes → Entries → Node → List Part
unfolding is_directory
collect_parts env id end n = []
collect_parts env id (entry name fi es) n =
    let rest = collect_parts env id es n in
    if is_directory fi || beq name manifest_name then rest else elim (parse_int 10 name) [
      | none ↦ rest
      | some (negsuc k) ↦ rest
      | some (pos k) ↦ elim (part_info env id k n).0 [ ok p ↦ p ∷ rest | err e ↦ rest ]
    ]

unfoldable pub insert_part : Part → List Part → List Part
insert_part p [] = p ∷ []
insert_part p (q ∷ qs) =
    let rest = insert_part p qs in if ltb p.part_number q.part_number then p ∷ q ∷ qs else q ∷ rest

-- `sort.Slice` by part number.
unfoldable pub sort_parts : List Part → List Part
unfolding insert_part
sort_parts [] = []
sort_parts (p ∷ ps) = insert_part p (sort_parts ps)

-- `ListParts`
unfoldable pub list_parts : Manifests → Env → Bytes → Bytes → Bytes → M (List Part)
list_parts ms env bucket key id = do
  up ← load_upload ms env bucket key id
  entries ← ask (λ n. read_dir n (segments (upload_dir env id)))
  λ n. (ok (sort_parts (collect_parts env id entries n)), n)

-- `AbortMultipartUpload`
unfoldable pub abort_multipart_upload : Manifests → Env → Bytes → Bytes → Bytes → M (Unit {0})
abort_multipart_upload ms env bucket key id = do
  up ← load_upload ms env bucket key id
  sys (λ n. remove_all env.now n (segments (upload_dir env id)))
