-- ===== src/Store/Object/Deleted.antt =====
-- A deletion and the reads that follow it (internal/store/fs.go).
use locals.Base.{
  ℕ, zero, suc, ◌≡◌, refl, sym, ap, ◌∙◌, subst, Bool, true, false, Bool-cases, List, [], ◌∷◌, ◌++◌,
  Bytes, All, if◌then◌else◌, beq, beq_sound, length, Result, ok, err, inl, inr,
}
use locals.Store.Error.{Error, OsError, not_exist, no_such_key, no_such_bucket, os}
use locals.Store.Key.{is_dir_marker, validate_bucket_name}
use locals.Store.Key.Valid.{IsPlain}
use locals.Store.Key.Bucket.{validate_bucket_name-IsPlain}
use locals.Store.Path.{bucket_path, key_to_path, segments}
use locals.Store.Path.Clean.{abs}
use locals.Store.Path.Layout.{bucket-above, bucket-sidecar, meta_path_total}
use locals.Store.Fs.{Node, stat_node, remove, is_directory}
use locals.Store.Fs.Laws.{Apart}
use locals.Store.Fs.Frame.{stat_node-remove}
use locals.Store.Fs.Gone.{stat_node-remove_self, stat_node-remove_gone, stat_node-remove_above}
use locals.Store.Info.{Env}
use locals.Store.Monad.{
  ◌>>=◌, lift, ignore, sys, bind_done, sys_done, return, ask_or, >>=-goes, >>=-stops,
}
use locals.Store.Bucket.{is_dir_at, bucket_dir, bucket_exists}
use locals.Store.Meta.{meta_path, parent, remove_sidecar}
use locals.Store.Object.{
  below, prune_empty_dirs, is_file_at, remove_object, delete_at, clear_away, delete_object,
  head_object, stat_object, stat_path, describe, not_found,
}

-- Nothing is at the path `p`, and a directory at `base`.
pub record IsAbsent (p base : List Bytes) (n : Node) : Type 0 where
  pub gone : stat_node n p ≡ err not_exist
  pub bucket : is_dir_at n base ≡ true

below_lem :
    (base q : List Bytes)
    → below base q ≡ true
    → (x : Bytes) × (r : List Bytes) × (q ≡ base ++ (x ∷ r))
unfolding below
below_lem [] [] h = absurd cc
below_lem [] (s ∷ q) h = (s, q, refl)
below_lem (b ∷ base) [] h = absurd cc
below_lem (b ∷ base) (s ∷ q) h = elim (Bool-cases (beq b s)) [
  | inl same ↦
      let (x, r, e) = below_lem base q (rw same at h) in
      (
        x,
        r,
        ap (λ (t : List Bytes). s ∷ t) e
            ∙ ap (λ (t : Bytes). t ∷ (base ++ (x ∷ r))) (sym (beq_sound b s same)),
      )
  | inr other ↦ absurd (no (rw other at h))
]
  where
    no : false ≡ true → ⊥
    no e = cc

is_dir_above :
    (now : ℕ) (n n' : Node) (base q : List Bytes) (x : Bytes)
    → remove now n (base ++ (x ∷ q)) ≡ ok n'
    → is_dir_at n' base ≡ true
unfolding is_dir_at is_directory
is_dir_above now n n' base q x h =
    let (t, es, there) = stat_node-remove_above now n n' base x q h in rw (is_dir_at, there) refl

prune-IsAbsent :
    (env : Env) (p base : List Bytes) (fuel : ℕ) (q : List Bytes) (n : Node)
    → IsAbsent p base n
    → IsAbsent p base (prune_empty_dirs env base fuel q n)
unfolding prune_empty_dirs
prune-IsAbsent env p base zero q n a = a
prune-IsAbsent env p base (suc fuel) q n a = elim (Bool-cases (below base q)) [
  | inr outside ↦ rw outside a
  | inl inside ↦ rw inside (
      go (remove env.now n q) inside refl
        (λ n' a'. prune-IsAbsent env p base fuel (parent q) n' a'))
]
  where
    go :
        (r : Result OsError Node)
        → below base q ≡ true
        → remove env.now n q ≡ r
        → ((n' : Node)
            → IsAbsent p base n'
            → IsAbsent p base (prune_empty_dirs env base fuel (parent q) n'))
        → IsAbsent p base (elim r as (λ x. Node) [
          | ok n' ↦ prune_empty_dirs env base fuel (parent q) n'
          | err e ↦ n
        ])
    go (err e) inside h rest = a
    go (ok n') inside h rest =
        let (x, r, shape) = below_lem base q inside in
        rest n' (record {
          gone = stat_node-remove_gone env.now n n' p q a.gone h;
          bucket = is_dir_above env.now n n' base r x (ap (remove env.now n) (sym shape) ∙ h);
        })

remove_sidecar-IsAbsent :
    (env : Env) (bucket key mp : Bytes) (p base : List Bytes) (n : Node)
    → meta_path env.root bucket key ≡ ok mp
    → Apart base (segments mp)
    → IsAbsent p base n
    → IsAbsent p base (remove_sidecar env bucket key n).1
unfolding remove_sidecar is_dir_at
remove_sidecar-IsAbsent env bucket key mp p base n recorded apart a =
    rw recorded (go (remove env.now n (segments mp)) refl)
  where
    go :
        (r : Result OsError Node)
        → remove env.now n (segments mp) ≡ r
        → IsAbsent p base (ignore (sys (λ m. r)) n).1
    go (err e) h = a
    go (ok n') h = record {
      gone = stat_node-remove_gone env.now n n' p (segments mp) a.gone h;
      bucket =
          subst (λ r. (elim r as (λ x. Bool) [ ok fi ↦ is_directory fi | err e ↦ false ]) ≡ true)
            (sym (stat_node-remove env.now n n' base (segments mp) apart h)) a.bucket;
    }

bucket_exists_done :
    (env : Env) (bucket : Bytes) (n k : Node) (u : Unit {0})
    → bucket_exists env bucket n ≡ (ok u, k)
    → (validate_bucket_name bucket ≡ ok tt) × (n ≡ k)
unfolding bucket_exists
bucket_exists_done env bucket n k u h =
    go (validate_bucket_name bucket) refl (is_dir_at n (bucket_dir env bucket)) h
  where
    go :
        (r : Result Error (Unit {0}))
        → validate_bucket_name bucket ≡ r
        → (there : Bool)
        → (lift r >>= λ _ m. if there then (ok tt, m) else (err no_such_bucket, m)) n ≡ (ok u, k)
        → (validate_bucket_name bucket ≡ ok tt) × (n ≡ k)
    go (err e) named there h = absurd cc
    go (ok v) named false h = absurd cc
    go (ok v) named true h = (named, cc)

-- What is left where a removal of the file succeeds.
delete_at_done :
    (env : Env) (bucket key path mp : Bytes) (x : Bytes) (q : List Bytes) (n n' : Node)
    → is_dir_marker key ≡ false
    → meta_path env.root bucket key ≡ ok mp
    → Apart (bucket_dir env bucket) (segments mp)
    → segments path ≡ bucket_dir env bucket ++ (x ∷ q)
    → is_file_at n (segments path) ≡ true
    → delete_at env bucket key path n ≡ (ok tt, n')
    → IsAbsent (segments path) (bucket_dir env bucket) n'
unfolding delete_at remove_object clear_away
delete_at_done env bucket key path mp x q n n' object recorded apart above file_there deleted =
    let p = segments path in
    let base = bucket_dir env bucket in
    let (u, k, gone, after) =
      bind_done (remove_object env key p) (λ _. clear_away env bucket key path) n n' tt deleted in
    let taken : remove env.now n p ≡ ok k =
      sys_done os (λ m. remove env.now m p) n k u (rw (object, file_there) at gone) in
    let a : IsAbsent p base k = record {
      gone = stat_node-remove_self env.now n k p taken;
      bucket = is_dir_above env.now n k base q x (ap (remove env.now n) (sym above) ∙ taken);
    } in
    subst (IsAbsent p base) (ap (λ (r : Result Error (Unit {0}) × Node). r.1) after) (
      prune-IsAbsent env p base (length (parent p)) (parent p) (remove_sidecar env bucket key k).1
        (remove_sidecar-IsAbsent env bucket key mp p base k recorded apart a))

found_bucket :
    (env : Env) (bucket : Bytes) (n : Node)
    → validate_bucket_name bucket ≡ ok tt
    → is_dir_at n (bucket_dir env bucket) ≡ true
    → bucket_exists env bucket n ≡ (ok tt, n)
unfolding bucket_exists
found_bucket env bucket n valid there = rw (valid, there)

missing :
    (env : Env) (bucket key path : Bytes) (n : Node)
    → stat_node n (segments path) ≡ err not_exist
    → stat_path env bucket key path n ≡ (err no_such_key, n)
unfolding stat_path not_found
missing env bucket key path n gone =
    >>=-stops (ask_or not_found (λ m. stat_node m (segments path))) (describe env bucket key path) n
      n no_such_key (rw (ask_or, gone) refl)

head_object_absent :
    (env : Env) (bucket key path : Bytes) (n : Node)
    → validate_bucket_name bucket ≡ ok tt
    → key_to_path env.root bucket key ≡ ok path
    → IsAbsent (segments path) (bucket_dir env bucket) n
    → head_object env bucket key n ≡ (err no_such_key, n)
unfolding head_object stat_object
head_object_absent env bucket key path n valid named a =
    >>=-stops (stat_object env bucket key) (λ found. return found.0) n n no_such_key
      (>>=-goes (bucket_exists env bucket)
          (λ _. lift (key_to_path env.root bucket key) >>= stat_path env bucket key) n n tt
          (found_bucket env bucket n valid a.bucket)
        ∙ rw named (missing env bucket key path n a.gone))

-- A server's root. The later call has its own time.
module _ (rs : List Bytes) (plain_root : All IsPlain rs) (env : Env)
    (rooted : env.root ≡ abs rs) where
  -- A deletion of an object that is there and that succeeds takes the object away and leaves its
  -- bucket: HeadObject of the key on the tree that it left, whenever it comes, answers that there is no
  -- such key, and changes nothing.
  pub head_object-delete_object :
      (bucket key path : Bytes) (n n' : Node) (later : ℕ)
      → is_dir_marker key ≡ false
      → key_to_path env.root bucket key ≡ ok path
      → is_file_at n (segments path) ≡ true
      → delete_object env bucket key n ≡ (ok tt, n')
      → head_object (record env { now = later }) bucket key n' ≡ (err no_such_key, n')
  unfolding delete_object
  head_object-delete_object bucket key path n n' later object named file_there deleted =
      let (u, k, exists, after) =
        bind_done (bucket_exists env bucket)
          (λ _. lift (key_to_path env.root bucket key) >>= delete_at env bucket key) n n' tt
          deleted in
      let (valid, same) = bucket_exists_done env bucket n k u exists in
      let (plain, other) = validate_bucket_name-IsPlain bucket valid in
      let named' : key_to_path (abs rs) bucket key ≡ ok path =
        subst (λ r. key_to_path r bucket key ≡ ok path) rooted named in
      let (mp, recorded) = meta_path_total rs plain_root bucket key path plain named' in
      let (x, q, above) = bucket-above rs plain_root bucket key path plain named' in
      let removed : delete_at env bucket key path n ≡ (ok tt, n') =
        subst (λ m. delete_at env bucket key path m ≡ (ok tt, n')) (sym same) (rw named at after) in
      head_object_absent (record env { now = later }) bucket key path n' valid named
        (delete_at_done env bucket key path mp x q n n' object
          (subst (λ r. meta_path r bucket key ≡ ok mp) (sym rooted) recorded)
          (subst (λ r. Apart (segments (bucket_path r bucket)) (segments mp)) (sym rooted)
            (bucket-sidecar rs plain_root bucket key mp plain other recorded))
          (subst (λ r. segments path ≡ segments (bucket_path r bucket) ++ (x ∷ q)) (sym rooted)
            above)
          file_there removed)
