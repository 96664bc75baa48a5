-- ===== src/Store/Listing.antt =====
-- Listings (internal/store/list.go): `ListObjects`, `collectKeys`, `groupByDelimiter` and
-- `infoForListing`.
pub mod Keys
pub mod Pages
pub mod Sorted
use locals.Base.{
  ℕ, zero, suc, ◌+◌, ◌-◌, Bool, true, false, ◌&&◌, ◌||◌, not, List, [], ◌∷◌, ◌++◌, Option, none,
  some, Bytes, codes, ltb, ◌==◌, if◌then◌else◌, beq, lt_text, length, take, drop, has_prefix,
  trim_prefix, index, Result, ok, err,
}
use locals.Store.Error.{Error, os, OsError, not_exist}
use locals.Store.Key.{slash}
use locals.Store.Path.{bucket_path, join_path, within_dir, path_to_key, segments}
use locals.Store.Path.Clean.{abs}
use locals.Store.Fs.{Node, file, dir, Entries, end, entry, is_directory, mod_time, stat_node}
use locals.Store.Info.{Env, ObjectInfo}
use locals.Store.Monad.{M, ◌>>=◌, ◌>>◌, return, lift}
use locals.Store.Bucket.{bucket_exists, is_dir_at}
use locals.Store.Meta.{meta_path, read_sidecar, resolve_info}
use locals.Store.Object.{marker_info}
use locals.Store.Token.{encode_token, decode_token}

-- `MaxKeysLimit`
abbrev pub max_keys_limit : ℕ
max_keys_limit = 1000

-- `ListRequest`; a `max_keys` of 0 stands for every number that is not positive.
pub record ListRequest : Type 0 where
  pub bucket : Bytes
  pub prefix : Bytes
  pub delimiter : Bytes
  pub start_after : Bytes
  pub continuation_token : Bytes
  pub max_keys : ℕ

pub record ListResult : Type 0 where
  pub objects : List ObjectInfo
  pub common_prefixes : List Bytes
  pub is_truncated : Bool
  pub next_continuation_token : Bytes
  pub key_count : ℕ

-- `listEntry`
pub record ListEntry : Type 0 where
  pub name : Bytes
  pub is_prefix : Bool
  pub path : Bytes
  pub is_marker : Bool

-- `strings.LastIndex(s, "/")`
last_index : Bytes → Option ℕ
last_index [] = none
last_index (c ∷ s) = elim (last_index s) [
  | some i ↦ some (suc i)
  | none ↦ if c == slash then some 0 else none
]

-- The order of `filepath.WalkDir`: a directory, then what is in it. Each node with its path.
mutual
  walk : List Bytes → Node → List (List Bytes × Node)
  walk p (file body t) = (p, file body t) ∷ []
  walk p (dir t es) = (p, dir t es) ∷ walk_entries p es

  walk_entries : List Bytes → Entries → List (List Bytes × Node)
  walk_entries p end = []
  walk_entries p (entry s n es) = walk (p ++ (s ∷ [])) n ++ walk_entries p es

-- `hasMarker`
unfoldable pub has_marker : Env → Bytes → Bytes → Node → Bool
has_marker env bucket key root = elim (meta_path env.root bucket key) [
  | err e ↦ false
  | ok p ↦ elim (stat_node root (segments p)) [ ok fi ↦ true | err e ↦ false ]
]

-- What the walk adds at one node: a file with the prefix, or a directory with a marker.
unfoldable pub entry_of : Env → Bytes → Bytes → Node → Bytes → Node → List ListEntry
entry_of env bucket prefix root path n = elim (path_to_key env.root bucket path) [
  | err e ↦ []
  | ok key ↦
      if is_directory n
      then (if has_marker env bucket (key ++ (slash ∷ [])) root
            && has_prefix (key ++ (slash ∷ [])) prefix
          then record {
            name = key ++ (slash ∷ []);
            is_prefix = false;
            path = path;
            is_marker = true;
          }
            ∷ []
          else [])
      else if not (has_prefix key prefix)
      then []
      else record { name = key; is_prefix = false; path = path; is_marker = false } ∷ []
]

pub visit : Env → Bytes → Bytes → Node → List (List Bytes × Node) → List ListEntry
visit env bucket prefix root [] = []
visit env bucket prefix root ((p, n) ∷ rest) =
    (if beq (abs p) (bucket_path env.root bucket)
      then []
      else entry_of env bucket prefix root (abs p) n)
    ++ visit env bucket prefix root rest

-- Where the walk starts: the deepest directory that the prefix names; `none` where it is missing.
pub walk_start : Env → Bytes → Bytes → Node → Option Bytes
walk_start env bucket prefix root =
    let base = bucket_path env.root bucket in
    elim (last_index prefix) [
      | none ↦ some base
      | some i ↦
          let sub = join_path base (take i prefix) in
          if within_dir base sub
          then (if is_dir_at root (segments sub) then some sub else none)
          else some base
    ]

-- `collectKeys`. A start that is not there is no error to the walk.
unfoldable pub collect_keys : Env → Bytes → Bytes → Node → List ListEntry
unfolding walk_start walk visit last_index
collect_keys env bucket prefix root = elim (walk_start env bucket prefix root) [
  | none ↦ []
  | some start ↦ elim (stat_node root (segments start)) [
    | err e ↦ []
    | ok n ↦ visit env bucket prefix root (walk (segments start) n)
  ]
]

unfoldable pub seen_before : Bytes → List Bytes → Bool
unfolding beq
seen_before cp [] = false
seen_before cp (s ∷ seen) = beq s cp || seen_before cp seen

-- The common prefix that a key rolls up into, if it has one.
unfoldable pub rolled_up : Bytes → Bytes → Bytes → Option Bytes
unfolding trim_prefix index
rolled_up prefix delimiter name = elim (index (trim_prefix name prefix) delimiter) [
  | none ↦ none
  | some i ↦ some (prefix ++ take (i + length delimiter) (trim_prefix name prefix))
]

-- The loop over the keys, with the prefixes seen.
unfoldable pub group_loop : Bytes → Bytes → List Bytes → List ListEntry → List ListEntry
group_loop prefix delimiter seen [] = []
group_loop prefix delimiter seen (k ∷ keys) = elim (rolled_up prefix delimiter k.name) [
  | none ↦ k ∷ group_loop prefix delimiter seen keys
  | some cp ↦ elim (seen_before cp seen) [
    | true ↦ group_loop prefix delimiter seen keys
    | false ↦
        record { name = cp; is_prefix = true; path = []; is_marker = false }
        ∷ group_loop prefix delimiter (cp ∷ seen) keys
  ]
]

-- `groupByDelimiter`
unfoldable pub group_by_delimiter : List ListEntry → Bytes → Bytes → List ListEntry
group_by_delimiter keys prefix [] = keys
group_by_delimiter keys prefix (d ∷ delimiter) = group_loop prefix (d ∷ delimiter) [] keys

unfoldable pub insert_name : ListEntry → List ListEntry → List ListEntry
insert_name e [] = e ∷ []
insert_name e (f ∷ fs) =
    let rest = insert_name e fs in if lt_text f.name e.name then f ∷ rest else e ∷ f ∷ fs

-- `sort.Slice` by name. The names differ, so that there is one sorted order.
unfoldable pub sort_names : List ListEntry → List ListEntry
unfolding insert_name
sort_names [] = []
sort_names (e ∷ es) = insert_name e (sort_names es)

-- `entries[sort.Search(…):]`: from the first name beyond `after`.
unfoldable pub beyond : Bytes → List ListEntry → List ListEntry
beyond after [] = []
beyond after (e ∷ es) = let rest = beyond after es in if lt_text after e.name then e ∷ es else rest

unfoldable pub name_at : ℕ → List ListEntry → Bytes
name_at i [] = []
name_at zero (e ∷ es) = e.name
name_at (suc i) (e ∷ es) = name_at i es

-- A page: the entries beyond `after`, cut at `max_keys`, whether some were cut, and the token.
unfoldable pub page : ℕ → Bytes → List ListEntry → List ListEntry × Bool × Bytes
page max_keys after entries =
    let left = if beq after [] then entries else beyond after entries in
    if ltb max_keys (length left)
    then (take max_keys left, true, encode_token (name_at (max_keys - 1) left))
    else (left, false, [])

-- `after`: the token, where there is one, before `StartAfter`.
unfoldable pub resume_after : ListRequest → Result Error Bytes
resume_after req =
    if beq req.continuation_token []
    then ok req.start_after
    else decode_token req.continuation_token

unfoldable pub page_size : ℕ → ℕ
page_size max_keys =
    if max_keys == 0 || ltb max_keys_limit max_keys then max_keys_limit else max_keys

-- `infoForListing`
unfoldable pub info_for_listing : Env → Bytes → ListEntry → M ObjectInfo
info_for_listing env bucket e n = elim (stat_node n (segments e.path)) [
  | err x ↦ (err (os x), n)
  | ok fi ↦
      if e.is_marker
      then (ok (marker_info env bucket e.name fi n), n)
      else resolve_info env bucket e.name e.path fi (read_sidecar env bucket e.name (some fi) n) n
]

-- The loop over a page: objects and common prefixes, each in order. A file that vanished is left
-- out.
unfoldable pub fill_page : Env → Bytes → List ListEntry → M (List ObjectInfo × List Bytes)
fill_page env bucket [] n = (ok ([], []), n)
fill_page env bucket (e ∷ es) n = elim e.is_prefix [
  | true ↦ (fill_page env bucket es >>= λ (infos, names). return (infos, e.name ∷ names)) n
  | false ↦
      let (r, n') = info_for_listing env bucket e n in
      elim r [
        | ok info ↦ (fill_page env bucket es >>= λ (infos, names). return (info ∷ infos, names)) n'
        | err x ↦ elim (is_not_exist x) [ true ↦ fill_page env bucket es n' | false ↦ (err x, n') ]
      ]
]
  where
    is_not_exist : Error → Bool
    is_not_exist (os not_exist) = true
    is_not_exist e = false

unfoldable pub list_objects : Env → ListRequest → M ListResult
list_objects env req = do
  bucket_exists env req.bucket
  λ n.
      let entries =
        sort_names (
          group_by_delimiter (collect_keys env req.bucket req.prefix n) req.prefix req.delimiter) in
      (do
        after ← lift (resume_after req)
        let p = page (page_size req.max_keys) after entries
        filled ← fill_page env req.bucket p.0
        return (record {
          objects = filled.0;
          common_prefixes = filled.1;
          is_truncated = p.1;
          next_continuation_token = p.2;
          key_count = length filled.0 + length filled.1;
        }))
        n
