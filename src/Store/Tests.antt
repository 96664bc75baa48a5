-- ===== src/Store/Tests.antt =====
-- The store's theorems at concrete inputs.
pub mod Codec
mod Multipart
pub mod PutGet
mod Deleted
use locals.Base.{
  Result, inl, inr, ℕ, ◌≤◌, ◌<◌, ◌≡◌, ◌≢◌, ◌↔◌, ◌⊎◌, refl, true, false, List, [], ◌∷◌, ◌++◌, none,
  some, arith, Bytes, codes, All, length, contains_byte, beq, trim_suffix, lt_text, ok, err, ◌>>=◌,
}
use locals.Store.Error.{not_exist, Error, os, not_dir, incomplete_body}
use locals.Store.Utf8.{valid_utf8}
use locals.Store.Key.{
  is_dir_marker, slash, max_key_length, meta_dir_name, validate_bucket_name, validate_key,
}
use locals.Store.Key.Valid.{IsPlain, KeyForm, validate_key_iff}
use locals.Store.Key.Bucket.{validate_bucket_name-IsPlain}
use locals.Store.Path.{bucket_path, key_to_path, path_to_key, segments, within_dir, join_path}
use locals.Store.Path.Clean.{abs}
use locals.Store.Path.RoundTrip.{key_to_path_lem, path_to_key-key_to_path, key_to_path_injective}
use locals.Store.Fs.{remove, Node, file, dir, end, entry, stat_node}
use locals.Store.Info.{Env, PutRequest}
use locals.Store.Bucket.{bucket_exists, is_dir_at}
use locals.Store.Object.{
  is_file_at, delete_object, delete_at, clear_away, prune_empty_dirs, head_object, put_object,
  temp_path,
}
use locals.Store.Object.Laws.{head_object_under_file}
use locals.Store.Object.Put.{put_object_frame, put_object_broken_body}
use locals.Store.Fs.Laws.{Apart}
use locals.Store.Meta.Fresh.{IsOf, without_digests, read_sidecar_fresh}
use locals.Store.Meta.{load_sidecar, read_sidecar, remove_sidecar, meta_path}
use locals.Store.Token.{encode_token, decode_token, decode_token-encode_token}
use locals.Store.Listing.{group_by_delimiter, ListEntry, page, sort_names}
use locals.Store.Listing.Sorted.{IsSorted, Reorders, sort_names_lem}
use mathlib.Core.List.{Memᴰ}
use locals.Store.Listing.Pages.{follow, follow_lem}
use locals.Store.Multipart.{Part, CompletedPart, check_parts}
use locals.Store.Multipart.Check.{Ascending, Staged, LargeButLast, check_parts_iff}
use locals.Store.Lock.{
  Lock, entry_for, holds, idle, writing, wants_write, acquire, count, Reach, here, next, ask_write,
  take_write,
}
use locals.Store.Lock.Exclusion.{start, IsOutside, is_busy, mutual_exclusion, entry_lives}

abbrev a_key : Bytes
a_key = codes "docs/a.txt"

abbrev a_bucket : Bytes
a_bucket = codes "bkt"

abbrev root_parts : List Bytes
root_parts = codes "srv" ∷ codes "data" ∷ []

abbrev a_path : Bytes
a_path = codes "/srv/data/bkt/docs/a.txt"

root_parts-IsPlain : All IsPlain root_parts
unfolding beq contains_byte
root_parts-IsPlain = ((refl, refl, refl, refl), ((refl, refl, refl, refl), tt))

a_bucket-IsPlain : IsPlain a_bucket
unfolding beq contains_byte
a_bucket-IsPlain = (refl, refl, refl, refl)

a_file : key_to_path (abs root_parts) a_bucket a_key ≡ ok a_path
unfolding key_to_path validate_key within_dir join_path bucket_path trim_suffix
a_file = refl

validate_key_iff_example : (validate_key a_key ≡ ok tt) ↔ (
    (length a_key ≤ max_key_length)
    × (valid_utf8 a_key ≡ true)
    × (contains_byte a_key 0 ≡ false)
    × KeyForm a_key)
validate_key_iff_example = validate_key_iff a_key

valid_bucket : validate_bucket_name a_bucket ≡ ok tt
unfolding validate_bucket_name
valid_bucket = refl

validate_bucket_name-IsPlain_example : IsPlain a_bucket × (a_bucket ≢ meta_dir_name)
validate_bucket_name-IsPlain_example = validate_bucket_name-IsPlain a_bucket valid_bucket

key_to_path_lem_example : key_to_path (abs root_parts) a_bucket a_key ≡ (
    validate_key a_key >>= λ _.
    ok (bucket_path (abs root_parts) a_bucket ++ (slash ∷ trim_suffix a_key (slash ∷ []))))
key_to_path_lem_example =
    key_to_path_lem root_parts root_parts-IsPlain a_bucket a_key a_bucket-IsPlain

path_to_key-key_to_path_example :
    path_to_key (abs root_parts) a_bucket a_path ≡ ok (trim_suffix a_key (slash ∷ []))
path_to_key-key_to_path_example =
    path_to_key-key_to_path root_parts root_parts-IsPlain a_bucket a_key a_path a_bucket-IsPlain
      a_file

key_to_path_injective_example : (a_bucket ≡ a_bucket) × (a_key ≡ a_key)
key_to_path_injective_example =
    key_to_path_injective root_parts root_parts-IsPlain a_bucket a_bucket a_key a_key a_path
      a_bucket-IsPlain a_bucket-IsPlain a_file a_file refl

-- A tree in which `docs` is an object.
abbrev docs_object : Node
docs_object = file (codes "hello") 7

abbrev a_tree : Node
a_tree = dir 1 (
    entry (codes "srv")
      (dir 1 (
        entry (codes "data")
          (dir 1 (entry a_bucket (dir 1 (entry (codes "docs") docs_object end)) end)) end))
      end)

abbrev an_env : Env
an_env = record {
  root = abs root_parts;
  auto_create = false;
  now = 9;
  temp_name = codes "put-1";
  md5 = λ s. s;
  marshal = λ sc. [];
  unmarshal = λ s. none;
  type_by_extension = λ s. [];
  detect_type = λ s. [];
}

a_bucket_exists : bucket_exists an_env a_bucket a_tree ≡ (ok tt, a_tree)
unfolding bucket_exists validate_bucket_name is_dir_at stat_node bucket_path join_path segments
a_bucket_exists = refl

a_path-segments :
    segments a_path ≡ (root_parts ++ (a_bucket ∷ codes "docs" ∷ [])) ++ (codes "a.txt" ∷ [])
unfolding segments
a_path-segments = refl

docs_found : stat_node a_tree (root_parts ++ (a_bucket ∷ codes "docs" ∷ [])) ≡ ok docs_object
unfolding stat_node
docs_found = refl

head_object_under_file_example :
    head_object an_env a_bucket a_key a_tree ≡ (err (os not_dir), a_tree)
head_object_under_file_example =
    head_object_under_file an_env a_bucket a_key a_path a_tree
      (root_parts ++ (a_bucket ∷ codes "docs" ∷ [])) (codes "a.txt") [] (codes "hello") 7
      a_bucket_exists a_file a_path-segments docs_found

token_bytes : All (λ c. c < 256) (codes "a/b")
token_bytes = (omega arith, (omega arith, (omega arith, tt)))

decode_token-encode_token_example : decode_token (encode_token (codes "a/b")) ≡ ok (codes "a/b")
decode_token-encode_token_example = decode_token-encode_token (codes "a/b") token_bytes

abbrev listed : Bytes → ListEntry
listed name = record { name = name; is_prefix = false; path = name; is_marker = false }

abbrev three_entries : List ListEntry
three_entries = listed (codes "a") ∷ listed (codes "b") ∷ listed (codes "b/c") ∷ []

follow_lem_example : follow 4 2 [] three_entries ≡ three_entries
unfolding beq lt_text
follow_lem_example =
    follow_lem 2 three_entries (omega arith) ((refl, (refl, tt)), ((refl, tt), (tt, tt)))
      (
        (refl, (omega arith, tt)),
        ((refl, (omega arith, tt)), ((refl, (omega arith, (omega arith, (omega arith, tt)))), tt)),
      )

-- Two goroutines, one of which takes the name for writing.
abbrev asked : Lock
asked = record (acquire (start 2)) { threads = wants_write 0 ∷ idle ∷ [] }

abbrev taken : Lock
taken = record asked { threads = writing 0 ∷ idle ∷ [] }

one_writes : Reach (start 2) taken
unfolding count acquire entry_for holds
one_writes =
    next (next here (ask_write [] (idle ∷ []) refl)) (take_write [] (idle ∷ []) 0 refl refl)

mutual_exclusion_example : All IsOutside (idle ∷ [])
mutual_exclusion_example = mutual_exclusion 2 taken [] (idle ∷ []) 0 one_writes refl

entry_lives_example :
    ((taken.slot ≡ none) × (count is_busy taken.threads ≡ 0))
    ⊎ ((e : ℕ) × (taken.slot ≡ some (e, count is_busy taken.threads))
        × (0 < count is_busy taken.threads))
entry_lives_example = entry_lives 2 taken one_writes

-- A put of another key beside `docs`.
abbrev a_put : Result Error Bytes → PutRequest
a_put body = record {
  bucket = a_bucket;
  key = codes "other";
  body = body;
  content_type = [];
  user_meta = [];
  checksum_algorithm = [];
  checksum_value = [];
}

abbrev docs_path : List Bytes
docs_path = codes "srv" ∷ codes "data" ∷ a_bucket ∷ codes "docs" ∷ []

docs_there : stat_node a_tree docs_path ≡ ok docs_object
unfolding stat_node
docs_there = refl

docs_sidecar :
    meta_path (abs root_parts) a_bucket a_key
    ≡ ok (codes "/srv/data/.locals3/meta/bkt/docs/a.txt.json")
unfolding meta_path key_to_path validate_key within_dir join_path bucket_path trim_suffix
    is_dir_marker
docs_sidecar = refl

off_temp : Apart docs_path (segments (temp_path an_env))
unfolding beq segments join_path
off_temp = inr (refl, inr (refl, inl refl))

-- The object `docs` stands above the key that is put.
off_below : docs_path ≢ segments a_path
unfolding segments
off_below e = cc

off_sidecar : docs_path ≢ segments (codes "/srv/data/.locals3/meta/bkt/docs/a.txt.json")
unfolding segments
off_sidecar e = cc

off_sidecar_tmp :
    Apart docs_path (segments (codes "/srv/data/.locals3/meta/bkt/docs/a.txt.json" ++ codes ".tmp"))
unfolding beq segments
off_sidecar_tmp = inr (refl, inr (refl, inl refl))

abbrev put_below : PutRequest
put_below = record (a_put (ok (codes "new"))) { key = a_key }

put_object_frame_example :
    stat_node (put_object an_env put_below a_tree).1 docs_path ≡ ok docs_object
put_object_frame_example =
    put_object_frame an_env put_below docs_path a_path
      (codes "/srv/data/.locals3/meta/bkt/docs/a.txt.json") a_file docs_sidecar off_temp off_below
      off_sidecar off_sidecar_tmp a_tree (codes "hello") 7 docs_there

no_marker : is_dir_marker (codes "other") ≡ false
unfolding is_dir_marker
no_marker = refl

put_object_broken_body_example :
    stat_node (put_object an_env (a_put (err incomplete_body)) a_tree).1 docs_path ≡ ok docs_object
put_object_broken_body_example =
    put_object_broken_body an_env (a_put (err incomplete_body)) incomplete_body docs_path refl
      no_marker off_temp a_tree (codes "hello") 7 docs_there

-- A deletion of `docs/a.txt`, which does not exist, deletes the object `docs`.
delete_below_docs :
    stat_node (delete_object an_env a_bucket a_key a_tree).1 docs_path ≡ err not_exist
unfolding stat_node delete_object delete_at clear_away bucket_exists validate_bucket_name is_dir_at
    key_to_path validate_key within_dir join_path bucket_path trim_suffix segments prune_empty_dirs
    remove remove_sidecar meta_path is_dir_marker is_file_at
delete_below_docs = refl

abbrev named_entry : Bytes → ListEntry
named_entry name = record { name = name; is_prefix = false; path = []; is_marker = false }

abbrev two_entries : List ListEntry
two_entries = named_entry (codes "b") ∷ named_entry (codes "a") ∷ []

sort_names_lem_example :
    IsSorted (sort_names two_entries) × Reorders (sort_names two_entries) two_entries
sort_names_lem_example = sort_names_lem two_entries

-- There is no sidecar of `docs`.
read_sidecar_fresh_example :
    (IsOf (load_sidecar an_env a_bucket (codes "docs") a_tree) docs_object
      × (read_sidecar an_env a_bucket (codes "docs") (some docs_object) a_tree
          ≡ load_sidecar an_env a_bucket (codes "docs") a_tree))
    ⊎ (¬ IsOf (load_sidecar an_env a_bucket (codes "docs") a_tree) docs_object
        × (read_sidecar an_env a_bucket (codes "docs") (some docs_object) a_tree
            ≡ without_digests (load_sidecar an_env a_bucket (codes "docs") a_tree) docs_object))
read_sidecar_fresh_example = read_sidecar_fresh an_env a_bucket (codes "docs") docs_object a_tree
