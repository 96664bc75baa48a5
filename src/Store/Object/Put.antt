-- ===== src/Store/Object/Put.antt =====
-- What `PutObject` leaves alone.
use locals.Base.{
  ℕ, ◌≡◌, ◌≢◌, refl, sym, ◌∙◌, subst, true, false, List, Bytes, codes, ◌++◌, [], if◌then◌else◌,
  Bool-cases, inl, inr, Result, ok, err,
}
use locals.Store.Error.{Error, OsError, os}
use locals.Store.Key.{is_dir_marker}
use locals.Store.Path.{key_to_path, segments}
use locals.Store.Fs.{Node, file, stat_node, mkdir_all, write_file, rename, remove}
use locals.Store.Fs.Laws.{Apart}
use locals.Store.Fs.Frame.{stat_node-remove}
use locals.Store.Info.{Env, ObjectInfo, PutRequest, Sidecar}
use locals.Store.Monad.{M, ◌>>=◌, ◌>>◌, return, lift, ask, sys, finally}
use locals.Store.Meta.{meta_path, write_sidecar, parent}
use locals.Store.Object.{
  classify_mkdir_err, temp_path, drop_temp, put_sidecar, put_info, marker_sidecar, marked_info,
  settle_marker, put_at, place, stage, settle, settle_at, commit, put_file, put_marker, put_object,
  ensure_bucket, check_conflicts,
}
use locals.Store.Object.Frame.{
  Keeps, Keeps->>=, Keeps-lift, Keeps-ask_or, Keeps-sys, mkdir_all-CallKeeps, write_file-CallKeeps,
  rename-CallKeeps, Keeps-write_sidecar, Keeps-check_conflicts, Keeps-ensure_bucket,
}

pub drop_temp-Keeps :
    (env : Env) (p : List Bytes) (n : Node) (body : Bytes) (t : ℕ)
    → Apart p (segments (temp_path env))
    → stat_node n p ≡ ok (file body t)
    → stat_node (drop_temp env n) p ≡ ok (file body t)
drop_temp-Keeps env p n body t apart h = go (remove env.now n (segments (temp_path env))) refl
  where
    go :
        (r : Result OsError Node)
        → remove env.now n (segments (temp_path env)) ≡ r
        → stat_node (elim r as (λ _. Node) [ ok n' ↦ n' | err e ↦ n ]) p ≡ ok (file body t)
    go (ok n') e = stat_node-remove env.now n n' p (segments (temp_path env)) apart e ∙ h
    go (err x) e = h

Keeps-put_file :
    (env : Env) (req : PutRequest) (path : Bytes) (p : List Bytes)
    → Apart p (segments (temp_path env))
    → Keeps p (commit env req path)
    → Keeps p (put_file env req path)
unfolding put_file
Keeps-put_file env req path p off_temp inner =
    let make : Node → Result OsError Node = λ n. mkdir_all env.now n (parent (segments path)) in
    let open_temp : Node → Result OsError Node =
      λ n. write_file env.now [] n (segments (temp_path env)) in
    let rest : M ObjectInfo = finally (commit env req path) (drop_temp env) in
    Keeps-sys p classify_mkdir_err make (sys open_temp >> rest)
      (mkdir_all-CallKeeps p (parent (segments path)) env.now)
      (Keeps-sys p os open_temp rest
        (write_file-CallKeeps p (segments (temp_path env)) env.now [] off_temp)
        (λ n body t h.
          drop_temp-Keeps env p (commit env req path n).1 body t off_temp (inner n body t h)))

Keeps-put_object :
    (env : Env) (req : PutRequest) (p : List Bytes)
    → ((path : Bytes)
        → key_to_path env.root req.bucket req.key ≡ ok path
        → Keeps p (put_at env req path))
    → Keeps p (put_object env req)
unfolding put_object
Keeps-put_object env req p inner =
    Keeps->>= p (ensure_bucket env req.bucket)
      (λ _. lift (key_to_path env.root req.bucket req.key) >>= put_at env req)
      (Keeps-ensure_bucket env req.bucket p)
      (λ _. Keeps-lift p (key_to_path env.root req.bucket req.key) (put_at env req) inner)

Keeps-put_at :
    (env : Env) (req : PutRequest) (path : Bytes) (p : List Bytes)
    → (is_dir_marker req.key ≡ true → Keeps p (put_marker env req path))
    → (is_dir_marker req.key ≡ false → Keeps p (put_file env req path))
    → Keeps p (put_at env req path)
unfolding put_at
Keeps-put_at env req path p marked written =
    Keeps->>= p (check_conflicts env req.bucket req.key path)
      (λ _. if is_dir_marker req.key then put_marker env req path else put_file env req path)
      (Keeps-check_conflicts env req.bucket req.key path p)
      (λ _. elim (Bool-cases (is_dir_marker req.key)) [
        | inl marker ↦ rw marker (marked marker)
        | inr object ↦ rw object (written object)
      ])

module _ (env : Env) (req : PutRequest) (p : List Bytes) (path mp : Bytes)
    (named : key_to_path env.root req.bucket req.key ≡ ok path)
    (recorded : meta_path env.root req.bucket req.key ≡ ok mp)
    (off_temp : Apart p (segments (temp_path env))) (off_object : p ≢ segments path)
    (off_sidecar : p ≢ segments mp)
    (off_sidecar_tmp : Apart p (segments (mp ++ codes ".tmp"))) where
  Keeps-place : (content : Bytes) → Keeps p (place env path content)
  unfolding place
  Keeps-place content =
      let put : Node → Result OsError Node =
        λ n. write_file env.now content n (segments (temp_path env)) in
      let move : Node → Result OsError Node =
        λ n. rename env.now n (segments (temp_path env)) (segments path) in
      Keeps-sys p os put (sys move >> return content)
        (write_file-CallKeeps p (segments (temp_path env)) env.now content off_temp)
        (Keeps-sys p os move (return content)
          (rename-CallKeeps p (segments (temp_path env)) (segments path) env.now off_temp
            off_object)
          (λ n body t h. h))

  Keeps-settle : (content : Bytes) (fi : Node) → Keeps p (settle env req content fi)
  unfolding settle
  Keeps-settle content fi =
      let sc : Sidecar = put_sidecar env req content fi in
      Keeps->>= p (write_sidecar env req.bucket req.key sc) (λ _. return (put_info req sc fi))
        (Keeps-write_sidecar env req.bucket req.key sc p mp recorded off_sidecar off_sidecar_tmp)
        (λ _ n body t h. h)

  Keeps-commit : Keeps p (commit env req path)
  unfolding commit stage settle_at
  Keeps-commit =
      Keeps->>= p (stage env req.body path) (settle_at env req path)
        (Keeps-lift p req.body (place env path) (λ content _. Keeps-place content))
        (λ content.
          Keeps-ask_or p os (λ n. stat_node n (segments path)) (settle env req content)
            (Keeps-settle content))

  Keeps-put_marker : Keeps p (put_marker env req path)
  unfolding put_marker settle_marker
  Keeps-put_marker =
      let make : Node → Result OsError Node = λ n. mkdir_all env.now n (segments path) in
      Keeps-sys p os make (ask (λ n. stat_node n (segments path)) >>= settle_marker env req)
        (mkdir_all-CallKeeps p (segments path) env.now)
        (Keeps-ask_or p os (λ n. stat_node n (segments path)) (settle_marker env req)
          (λ fi.
            Keeps->>= p (write_sidecar env req.bucket req.key (marker_sidecar req fi))
              (λ _. return (marked_info req fi))
              (Keeps-write_sidecar env req.bucket req.key (marker_sidecar req fi) p mp recorded
                off_sidecar off_sidecar_tmp)
              (λ _ n body t h. h)))

  -- Whatever becomes of PutObject, whether it succeeds, is refused or fails on the way, every file
  -- that is not the object's own or its sidecar, those above and below it among them, and whose
  -- path parts from those of the temporary files, keeps its content and its time.
  pub put_object_frame :
      (n : Node) (body : Bytes) (t : ℕ)
      → stat_node n p ≡ ok (file body t)
      → stat_node (put_object env req n).1 p ≡ ok (file body t)
  put_object_frame n body t h =
      Keeps-put_object env req p
        (λ found same.
          subst (λ q. Keeps p (put_at env req q)) (path_of found same)
            (Keeps-put_at env req path p (λ _. Keeps-put_marker)
              (λ _. Keeps-put_file env req path p off_temp Keeps-commit)))
        n body t h
    where
      path_of : (found : Bytes) → key_to_path env.root req.bucket req.key ≡ ok found → path ≡ found
      path_of found same = cc

-- A put of an object whose body cannot be read to its end leaves every file but the temporary one
-- with its content and its time, an earlier object of the same key and its sidecar among them.
pub put_object_broken_body :
    (env : Env) (req : PutRequest) (e : Error) (p : List Bytes)
    → req.body ≡ err e
    → is_dir_marker req.key ≡ false
    → Apart p (segments (temp_path env))
    → (n : Node) (body : Bytes) (t : ℕ) → stat_node n p ≡ ok (file body t)
    → stat_node (put_object env req n).1 p ≡ ok (file body t)
put_object_broken_body env req e p broken object off_temp n body t h =
    Keeps-put_object env req p
      (λ path _.
        Keeps-put_at env req path p (λ marker. absurd cc)
          (λ _. Keeps-put_file env req path p off_temp (Keeps-broken path)))
      n body t h
  where
    Keeps-broken : (path : Bytes) → Keeps p (commit env req path)
    Keeps-broken path n body t h =
        unfold commit in
        unfold stage in
        subst
          (λ r.
            stat_node (((lift r >>= place env path) >>= settle_at env req path) n).1 p
            ≡ ok (file body t))
          (sym broken) h
