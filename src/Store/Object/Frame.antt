-- ===== src/Store/Object/Frame.antt =====
-- What a write of an object leaves alone.
use locals.Base.{
  ◌&&◌, not, ℕ, ◌≡◌, ◌≢◌, refl, ◌∙◌, List, Bytes, codes, ◌++◌, if◌then◌else◌, Bool-cases, inl, inr,
  Result, ok, err, split,
}
use locals.Store.Error.{Error, OsError, os, bucket_already_exists, no_such_bucket, key_dir_conflict}
use locals.Store.Key.{slash, is_dir_marker, validate_bucket_name}
use locals.Store.Path.{bucket_path, rel, segments}
use locals.Store.Fs.{Node, file, stat_node, mkdir_all, write_file, rename}
use locals.Store.Fs.Laws.{Apart, stat_node-mkdir_all_file}
use locals.Store.Fs.Frame.{stat_node-write_file}
use locals.Store.Fs.Kept.{stat_node-rename_file}
use locals.Store.Info.{Env, Sidecar}
use locals.Store.Monad.{M, ◌>>=◌, ◌>>◌, lift, ask_or, sys, sys_or}
use locals.Store.Bucket.{is_dir_at, bucket_dir, bucket_exists, create_bucket}
use locals.Store.Meta.{meta_path, write_sidecar, parent}
use locals.Store.Object.{ensure_bucket, check_conflicts, make_missing, blocked}

-- Whatever becomes of the operation, a file that was at the path is there with its content and
-- its time.
abbrev pub Keeps {ℓ} : {A : Type ℓ} → List Bytes → M A → Type 0
Keeps p m =
    (n : Node) (body : Bytes) (t : ℕ)
    → stat_node n p ≡ ok (file body t)
    → stat_node (m n).1 p ≡ ok (file body t)

-- The same of a call that changes the tree.
abbrev pub CallKeeps : List Bytes → (Node → Result OsError Node) → Type 0
CallKeeps p call =
    (n n' : Node) (body : Bytes) (t : ℕ)
    → call n ≡ ok n'
    → stat_node n p ≡ ok (file body t)
    → stat_node n' p ≡ ok (file body t)

pub Keeps->>= {ℓ κ} :
    {A : Type ℓ} {B : Type κ} (p : List Bytes) (m : M A) (f : A → M B)
    → Keeps p m
    → ((a : A) → Keeps p (f a))
    → Keeps p (m >>= f)
Keeps->>= p m f first after n body t h = go (m n) (first n body t h)
  where
    go :
        (r : Result Error _ × Node)
        → stat_node r.1 p ≡ ok (file body t)
        → stat_node (((λ _. r) >>= f) n).1 p ≡ ok (file body t)
    go (ok a, n') k = after a n' body t k
    go (err e, n') k = k

pub Keeps-lift {ℓ κ} :
    {A : Type ℓ} {B : Type κ} (p : List Bytes) (r : Result Error A) (f : A → M B)
    → ((a : A) → r ≡ ok a → Keeps p (f a))
    → Keeps p (lift r >>= f)
Keeps-lift p (ok a) f after n body t h = after a refl n body t h
Keeps-lift p (err e) f after n body t h = h

pub Keeps-ask_or {ℓ κ} :
    {A : Type ℓ} {B : Type κ} (p : List Bytes) (g : OsError → Error)
    (call : Node → Result OsError A) (f : A → M B)
    → ((a : A) → Keeps p (f a))
    → Keeps p (ask_or g call >>= f)
Keeps-ask_or {A = A} p g call f after n body t h = go (call n)
  where
    go : (r : Result OsError A) → stat_node ((ask_or g (λ _. r) >>= f) n).1 p ≡ ok (file body t)
    go (ok a) = after a n body t h
    go (err e) = h

pub Keeps-sys_or :
    (p : List Bytes) (f : OsError → Error) (call : Node → Result OsError Node)
    → CallKeeps p call
    → Keeps p (sys_or f call)
Keeps-sys_or p f call keeps n body t h = go (call n) refl
  where
    go :
        (r : Result OsError Node)
        → call n ≡ r
        → stat_node (sys_or f (λ _. r) n).1 p ≡ ok (file body t)
    go (ok n') e = keeps n n' body t e h
    go (err x) e = h

pub mkdir_all-CallKeeps : (p q : List Bytes) (now : ℕ) → CallKeeps p (λ n. mkdir_all now n q)
mkdir_all-CallKeeps p q now n n' body t made h = stat_node-mkdir_all_file now n n' p q body t made h

pub write_file-CallKeeps :
    (p q : List Bytes) (now : ℕ) (content : Bytes)
    → Apart p q
    → CallKeeps p (λ n. write_file now content n q)
write_file-CallKeeps p q now content a n n' body t made h =
    stat_node-write_file now content n n' p q a made ∙ h

pub rename-CallKeeps :
    (p from to : List Bytes) (now : ℕ)
    → Apart p from
    → p ≢ to
    → CallKeeps p (λ n. rename now n from to)
rename-CallKeeps p from to now a b n n' body t made h =
    stat_node-rename_file now n n' p from to body t a b made h

-- One call after another.
pub Keeps-sys {ℓ} :
    {B : Type ℓ} (p : List Bytes) (f : OsError → Error) (call : Node → Result OsError Node)
    (rest : M B)
    → CallKeeps p call
    → Keeps p rest
    → Keeps p (sys_or f call >> rest)
Keeps-sys p f call rest keeps after =
    Keeps->>= p (sys_or f call) (λ _. rest) (Keeps-sys_or p f call keeps) (λ _. after)

pub Keeps-write_sidecar :
    (env : Env) (bucket key : Bytes) (sc : Sidecar) (p : List Bytes) (mp : Bytes)
    → meta_path env.root bucket key ≡ ok mp
    → p ≢ segments mp
    → Apart p (segments (mp ++ codes ".tmp"))
    → Keeps p (write_sidecar env bucket key sc)
unfolding write_sidecar
Keeps-write_sidecar env bucket key sc p mp found apart apart_tmp =
    let make : Node → Result OsError Node = λ n. mkdir_all env.now n (parent (segments mp)) in
    let put : Node → Result OsError Node =
      λ n. write_file env.now (env.marshal sc) n (segments (mp ++ codes ".tmp")) in
    let move : Node → Result OsError Node =
      λ n. rename env.now n (segments (mp ++ codes ".tmp")) (segments mp) in
    rw (found) (
      Keeps-sys p os make (sys put >> sys move)
        (mkdir_all-CallKeeps p (parent (segments mp)) env.now)
        (Keeps-sys p os put (sys move)
          (write_file-CallKeeps p (segments (mp ++ codes ".tmp")) env.now (env.marshal sc)
            apart_tmp)
          (Keeps-sys_or p os move (
            rename-CallKeeps p (segments (mp ++ codes ".tmp")) (segments mp) env.now apart_tmp
              apart))))

pub Keeps-check_conflicts :
    (env : Env) (bucket key path : Bytes) (p : List Bytes)
    → Keeps p (check_conflicts env bucket key path)
unfolding check_conflicts
Keeps-check_conflicts env bucket key path p =
    let base = segments (bucket_path env.root bucket) in
    Keeps-lift p (rel (bucket_path env.root bucket) path)
      (λ r n.
        if blocked n base (split r slash)
        then (err key_dir_conflict, n)
        else if is_dir_at n (segments path) && not (is_dir_marker key)
        then (err key_dir_conflict, n)
        else (ok tt, n))
      (λ r _ n body t h. elim (Bool-cases (blocked n base (split r slash))) [
        | inl file_above ↦ rw file_above h
        | inr free ↦
            rw free (elim (Bool-cases (is_dir_at n (segments path) && not (is_dir_marker key))) [
              | inl taken ↦ rw taken h
              | inr clear ↦ rw clear h
            ])
      ])

Keeps-create_bucket :
    (env : Env) (bucket : Bytes) (p : List Bytes) → Keeps p (create_bucket env bucket)
unfolding create_bucket
Keeps-create_bucket env bucket p =
    Keeps-lift p (validate_bucket_name bucket)
      (λ _ n.
        if is_dir_at n (bucket_dir env bucket)
        then (err bucket_already_exists, n)
        else sys (λ m. mkdir_all env.now m (bucket_dir env bucket)) n)
      (λ _ _ n body t h. elim (Bool-cases (is_dir_at n (bucket_dir env bucket))) [
        | inl there ↦ rw there h
        | inr missing ↦ rw missing (
            Keeps-sys_or p os (λ m. mkdir_all env.now m (bucket_dir env bucket))
              (mkdir_all-CallKeeps p (bucket_dir env bucket) env.now) n body t h)
      ])

Keeps-make_missing :
    (env : Env) (bucket : Bytes) (r : Result Error (Unit {0})) (p : List Bytes)
    → Keeps p (make_missing env bucket r)
unfolding make_missing create_bucket
Keeps-make_missing env bucket (ok u) p n body t h = h
Keeps-make_missing env bucket (err no_such_bucket) p n body t h =
    elim (Bool-cases env.auto_create) [
      | inl wanted ↦ rw wanted (Keeps-create_bucket env bucket p n body t h)
      | inr unwanted ↦ rw unwanted h
    ]
Keeps-make_missing env bucket (err e) p n body t h = h

pub Keeps-ensure_bucket :
    (env : Env) (bucket : Bytes) (p : List Bytes) → Keeps p (ensure_bucket env bucket)
unfolding ensure_bucket
Keeps-ensure_bucket env bucket p n body t h =
    Keeps-make_missing env bucket (bucket_exists env bucket n).0 p n body t h
