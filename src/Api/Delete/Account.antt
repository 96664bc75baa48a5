-- ===== src/Api/Delete/Account.antt =====
-- What a deletion of many objects reports (internal/s3api/delete.go).
use locals.Base.{
  ◌≤◌, ◌<◌, ◌≡◌, refl, ap, ◌∙◌, arith, Bool, true, false, List, [], ◌∷◌, some, Bytes, map, length,
  ltb, if◌then◌else◌, Result, ok, err,
}
use locals.Store.Error.{Error}
use locals.Store.Listing.{max_keys_limit}
use locals.Api.Error.{from_store}
use locals.Api.Xml.{DeleteRequest, DeleteResult, DeleteErrorEntry, delete_result}
use locals.Api.Response.{Call, write_xml}
use locals.Api.Body.{limited_body}
use locals.Api.Server.{Server}
use locals.Api.Delete.{max_delete_body, delete_loop, delete_named, delete_objects}

-- The third list is made of the members of the first two, each in its order.
pub data Interleaves {ℓ} (A : Type ℓ) : List A → List A → List A → Type ℓ where
  none_left : Interleaves A [] [] []
  from_first :
      {x : A} {xs ys zs : List A} → Interleaves A xs ys zs → Interleaves A (x ∷ xs) ys (x ∷ zs)
  from_second :
      {y : A} {xs ys zs : List A} → Interleaves A xs ys zs → Interleaves A xs (y ∷ ys) (y ∷ zs)

pub failed_key : DeleteErrorEntry → Bytes
failed_key e = e.key

-- The keys one after another, each with what the store's deletion of it answers, and the state behind
-- the last.
pub outcomes :
    {S : Type 0} → Server S → Bytes → List Bytes → S → List (Bytes × Result Error (Unit {0})) × S
outcomes sv bucket [] s = ([], s)
outcomes sv bucket (key ∷ keys) s =
    let (r, s') = sv.store.delete_object bucket key s in
    let (rest, s'') = outcomes sv bucket keys s' in ((key, r) ∷ rest, s'')

-- The keys whose deletion succeeded, and those whose deletion failed, with the code of the error.
pub gone : List (Bytes × Result Error (Unit {0})) → List Bytes
gone [] = []
gone ((key, ok u) ∷ os) = key ∷ gone os
gone ((key, err e) ∷ os) = gone os

pub failures : List (Bytes × Result Error (Unit {0})) → List DeleteErrorEntry
failures [] = []
failures ((key, ok u) ∷ os) = failures os
failures ((key, err e) ∷ os) = record { key = key; code = (from_store e).code } ∷ failures os

-- What is reported of the outcomes: a quiet request is told of the failures alone.
abbrev pub report : Bool → List (Bytes × Result Error (Unit {0})) → DeleteResult
report quiet os = record { deleted = if quiet then [] else gone os; errors = failures os }

outcomes-Interleaves :
    {S : Type 0} (sv : Server S) (bucket : Bytes) (keys : List Bytes) (s : S)
    → Interleaves Bytes
        (gone (outcomes sv bucket keys s).0)
        (map failed_key (failures (outcomes sv bucket keys s).0))
        keys
unfolding outcomes gone failures failed_key
outcomes-Interleaves sv bucket [] s = none_left
outcomes-Interleaves sv bucket (key ∷ keys) s =
    go (sv.store.delete_object bucket key s) (λ s'. outcomes-Interleaves sv bucket keys s')
  where
    go :
        (o : Result Error (Unit {0}) × _)
        → ((s' : _)
            → Interleaves Bytes
                (gone (outcomes sv bucket keys s').0)
                (map failed_key (failures (outcomes sv bucket keys s').0))
                keys)
        → let os = (key, o.0) ∷ (outcomes sv bucket keys o.1).0 in
          Interleaves Bytes (gone os) (map failed_key (failures os)) (key ∷ keys)
    go (ok u, s') reported = from_first (reported s')
    go (err e, s') reported = from_second (reported s')

module _ {S : Type 0} (sv : Server S) (bucket : Bytes) where
  delete_loop_lem :
      (quiet : Bool) (keys : List Bytes) (s : S)
      → delete_loop sv bucket quiet keys s
        ≡ (report quiet (outcomes sv bucket keys s).0, (outcomes sv bucket keys s).1)
  unfolding delete_loop outcomes gone failures
  delete_loop_lem true [] s = refl
  delete_loop_lem false [] s = refl
  delete_loop_lem quiet (key ∷ keys) s =
      go quiet (sv.store.delete_object bucket key s) (λ s'. delete_loop_lem quiet keys s')
    where
      go :
          (quiet : Bool) (o : Result Error (Unit {0}) × S)
          → ((s' : S)
              → delete_loop sv bucket quiet keys s'
                ≡ (report quiet (outcomes sv bucket keys s').0, (outcomes sv bucket keys s').1))
          → let more = delete_loop sv bucket quiet keys o.1 in
            let os = (key, o.0) ∷ (outcomes sv bucket keys o.1).0 in
            let all : DeleteResult = elim o.0 [
              | ok u ↦ if quiet then more.0 else record more.0 { deleted = key ∷ more.0.deleted }
              | err e ↦ record more.0 {
                errors = record { key = key; code = (from_store e).code } ∷ more.0.errors;
              }
            ] in
            let answered : DeleteResult × S = (all, more.1) in
            let told : DeleteResult × S = (report quiet os, (outcomes sv bucket keys o.1).1) in
            answered ≡ told
      go true (ok u, s') rest = ap (λ (x : DeleteResult × S). (x.0, x.1)) (rest s')
      go false (ok u, s') rest =
          ap (λ (x : DeleteResult × S). (record x.0 { deleted = key ∷ x.0.deleted }, x.1)) (rest s')
      go quiet (err e, s') rest =
          ap
            (λ (x : DeleteResult × S). (
              record x.0 { errors = record { key = key; code = (from_store e).code } ∷ x.0.errors },
              x.1,
            ))
            (rest s')

delete_named_lem :
    {S : Type 0} (sv : Server S) (c : Call) (req : DeleteRequest) (keys : List Bytes) (s : S)
    → req.keys ≡ keys
    → 0 < length keys
    → length keys ≤ max_keys_limit
    → delete_named sv c req s ≡ (
      write_xml sv.go 200 (delete_result (delete_loop sv c.bucket req.quiet keys s).0) c.base,
      (delete_loop sv c.bucket req.quiet keys s).1,
    )
unfolding delete_named
delete_named_lem sv c req [] s e some_key few = absurd (omega arith)
delete_named_lem sv c req (k ∷ ks) s e some_key few =
    let fits : ltb max_keys_limit (length (k ∷ ks)) ≡ false = ground arith in
    rw (e, delete_named, fits) refl

-- A DeleteObjects request whose body can be read, and names from 1 to 1000 keys, has the store delete
-- each key, in the order of the request, whatever becomes of those before it. The answer is 200 with the
-- keys whose deletion succeeded, unless the request is quiet, and those whose deletion failed, each
-- with the code of its error; the two share out the keys of the request, each in its order.
pub delete_objects_reports :
    {S : Type 0} (sv : Server S) (c : Call) (raw : Bytes) (req : DeleteRequest) (s : S)
    → limited_body max_delete_body c.request ≡ ok raw
    → sv.go.read_delete raw ≡ some req
    → 0 < length req.keys
    → length req.keys ≤ max_keys_limit
    → (delete_objects sv c s ≡ (
      write_xml sv.go 200
          (delete_result (report req.quiet (outcomes sv c.bucket req.keys s).0))
          c.base,
      (outcomes sv c.bucket req.keys s).1,
    ))
      × Interleaves Bytes
          (gone (outcomes sv c.bucket req.keys s).0)
          (map failed_key (failures (outcomes sv c.bucket req.keys s).0))
          req.keys
unfolding delete_objects
delete_objects_reports sv c raw req s body parsed some_key few = (
  rw (delete_objects, body, parsed)
      (delete_named_lem sv c req req.keys s refl some_key few
        ∙ ap (λ (x : DeleteResult × _). (write_xml sv.go 200 (delete_result x.0) c.base, x.1))
            (delete_loop_lem sv c.bucket req.quiet req.keys s)),
  outcomes-Interleaves sv c.bucket req.keys s,
)
