-- ===== src/Store/Listing/Keys.antt =====
-- What the walk of a listing yields (internal/store/list.go, `collectKeys`).
use locals.Base.{
  ◌≡◌, refl, false, List, [], ◌∷◌, Option, none, some, Bytes, All, All-append, ◌&&◌, not, ◌++◌,
  if◌then◌else◌, has_prefix, Result, ok, err, Bool-cases, inl, inr, beq,
}
use locals.Store.Error.{Error, OsError}
use locals.Store.Key.{slash}
use locals.Store.Path.{bucket_path, path_to_key, segments}
use locals.Store.Path.Clean.{abs}
use locals.Store.Fs.{Node, is_directory, stat_node}
use locals.Store.Info.{Env}
use locals.Store.Listing.{ListEntry, has_marker, entry_of, visit, walk, walk_start, collect_keys}

-- What is walked of a bucket holds no common prefix yet.
abbrev pub AreKeys : List ListEntry → Type 0
AreKeys keys = All (λ k. k.is_prefix ≡ false) keys

entry_of-AreKeys :
    (env : Env) (bucket prefix : Bytes) (root : Node) (path : Bytes) (n : Node)
    → AreKeys (entry_of env bucket prefix root path n)
unfolding entry_of
entry_of-AreKeys env bucket prefix root path n = named (path_to_key env.root bucket path) refl
  where
    named :
        (r : Result Error Bytes)
        → path_to_key env.root bucket path ≡ r
        → AreKeys (entry_of env bucket prefix root path n)
    named (err e) h = rw (entry_of, h) tt
    named (ok key) h = elim (Bool-cases (is_directory n)) [
      | inl directory ↦
          elim (Bool-cases (
            has_marker env bucket (key ++ (slash ∷ [])) root
            && has_prefix (key ++ (slash ∷ [])) prefix)) [
              | inl marker ↦ rw (entry_of, h, directory, marker) (refl, tt)
              | inr bare ↦ rw (entry_of, h, directory, bare) tt
            ]
      | inr a_file ↦ elim (Bool-cases (not (has_prefix key prefix))) [
        | inl other ↦ rw (entry_of, h, a_file, other) tt
        | inr asked ↦ rw (entry_of, h, a_file, asked) (refl, tt)
      ]
    ]

visit-AreKeys :
    (env : Env) (bucket prefix : Bytes) (root : Node) (nodes : List (List Bytes × Node))
    → AreKeys (visit env bucket prefix root nodes)
unfolding visit
visit-AreKeys env bucket prefix root [] = tt
visit-AreKeys env bucket prefix root ((p, n) ∷ rest) =
    All-append (λ k. k.is_prefix ≡ false)
      (if beq (abs p) (bucket_path env.root bucket)
        then []
        else entry_of env bucket prefix root (abs p) n)
      (visit env bucket prefix root rest)
      (elim (Bool-cases (beq (abs p) (bucket_path env.root bucket))) [
        | inl top ↦ rw top tt
        | inr below ↦ rw below (entry_of-AreKeys env bucket prefix root (abs p) n)
      ])
      (visit-AreKeys env bucket prefix root rest)

-- The walk over a bucket yields keys.
pub collect_keys-AreKeys :
    (env : Env) (bucket prefix : Bytes) (root : Node)
    → AreKeys (collect_keys env bucket prefix root)
unfolding collect_keys
collect_keys-AreKeys env bucket prefix root = started (walk_start env bucket prefix root) refl
  where
    found :
        (start : Bytes) (r : Result OsError Node)
        → walk_start env bucket prefix root ≡ some start
        → stat_node root (segments start) ≡ r
        → AreKeys (collect_keys env bucket prefix root)
    found start (err e) h k = rw (collect_keys, h, k) tt
    found start (ok n) h k =
        rw (collect_keys, h, k) (visit-AreKeys env bucket prefix root (walk (segments start) n))

    started :
        (o : Option Bytes)
        → walk_start env bucket prefix root ≡ o
        → AreKeys (collect_keys env bucket prefix root)
    started none h = rw (collect_keys, h) tt
    started (some start) h = found start (stat_node root (segments start)) h refl
