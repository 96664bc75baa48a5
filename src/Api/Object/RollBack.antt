-- ===== src/Api/Object/RollBack.antt =====
-- A PUT whose digest does not match, over the store of files (internal/s3api/object.go,
-- internal/store/fs.go).
use locals.Base.{ℕ, suc, ◌≡◌, refl, sym, ap, ◌∙◌, subst, false, List, Bytes, All, Result, ok, err}
use locals.Store.Error.{Error, no_such_key}
use locals.Store.Key.{is_dir_marker, validate_bucket_name}
use locals.Store.Key.Valid.{IsPlain}
use locals.Store.Key.Bucket.{validate_bucket_name-IsPlain}
use locals.Store.Path.{key_to_path}
use locals.Store.Path.Clean.{abs}
use locals.Store.Path.Layout.{meta_path_total}
use locals.Store.Fs.{Node, is_directory}
use locals.Store.Info.{Env, ObjectInfo}
use locals.Store.Meta.{meta_path}
use locals.Store.Object
use locals.Store.Object.{is_file_at, head_object}
use locals.Store.Object.PutGet.{put_object-IsStored, put_object_named}
use locals.Store.Object.Deleted.{head_object-delete_object}
use locals.Store.Contract.{Served, fs_store}
use locals.Store.Multipart.{Manifests}
use locals.Api.Error.{ApiError, from_store}
use locals.Api.Packages.{Packages}
use locals.Api.Response.{Response, Call, write_error}
use locals.Api.Checksum.{new_validator, verify}
use locals.Api.Object.{put_object, finish_put, settle_put, put_request, received, trailers_met}
use locals.Api.Checksum.Accepted.{verify-refuses}
use locals.Api.Object.Digest.{write_error-status}
use locals.Api.Server.{Server}

-- A server over the store of files at one root. Each call of the store has its own time and name of a
-- temporary file.
module _ (rs : List Bytes) (plain_root : All IsPlain rs) (at : ℕ → Env)
    (rooted : (k : ℕ) → (at k).root ≡ abs rs) (plain_temp : (k : ℕ) → IsPlain (at k).temp_name)
    (ms : Manifests) (ids : ℕ → Bytes) (region domain : Bytes) (go : Packages) where
  abbrev pub over_files : Server Served
  over_files = record { store = fs_store ms at ids; region = region; domain = domain; go = go }

  rolled_back :
      (c : Call) (k : ℕ) (info : ObjectInfo) (n n' n'' : Node) (e : ApiError)
      → Object.put_object (at k) (put_request over_files c (new_validator go c.request)) n
        ≡ (ok info, n')
      → verify go (new_validator go c.request) (received over_files c) (trailers_met over_files c)
        ≡ err e
      → Object.delete_object (at (suc k)) c.bucket c.key n' ≡ (ok tt, n'')
      → put_object over_files c (k, n) ≡ (write_error go c e c.base, (suc (suc k), n''))
  unfolding put_object finish_put settle_put fs_store
  rolled_back c k info n n' n'' e put refused deleted =
      let v = new_validator go c.request in
      ap
        (λ (r : Result Error ObjectInfo × Node). elim r.0 as (λ x. Response × Served) [
          | ok i ↦ finish_put over_files c v i (suc k, r.1)
          | err x ↦ (write_error go c (from_store x) c.base, (suc k, r.1))
        ])
        put
      ∙ ap (λ (r : Result ApiError (Unit {0})). settle_put over_files c v info r (suc k, n'))
          refused
      ∙ ap (λ (r : Result Error (Unit {0}) × Node). (write_error go c e c.base, (suc (suc k), r.1)))
          deleted

  -- Where the store has taken a PUT for an object, a digest does not match, and the store can delete
  -- the object again, the request is answered 400 and there is no object of the key.
  pub put_object_rolled_back :
      (c : Call) (k later : ℕ) (info : ObjectInfo) (n n' n'' : Node) (e : ApiError)
      → validate_bucket_name c.bucket ≡ ok tt
      → is_dir_marker c.key ≡ false
      → Object.put_object (at k) (put_request over_files c (new_validator go c.request)) n
        ≡ (ok info, n')
      → verify go (new_validator go c.request) (received over_files c) (trailers_met over_files c)
        ≡ err e
      → Object.delete_object (at (suc k)) c.bucket c.key n' ≡ (ok tt, n'')
      → ((put_object over_files c (k, n)).0.status ≡ 400)
        × (head_object
              (record (at (suc k)) { now = later })
              c.bucket
              c.key
              (put_object over_files c (k, n)).1.1
            ≡ (err no_such_key, (put_object over_files c (k, n)).1.1))
  unfolding is_file_at is_directory
  put_object_rolled_back c k later info n n' n'' e valid object put refused deleted =
      let v = new_validator go c.request in
      let req = put_request over_files c v in
      let (path, named) = put_object_named (at k) req info n n' put in
      let (plain, other) = validate_bucket_name-IsPlain c.bucket valid in
      let (mp, recorded) =
        meta_path_total rs plain_root c.bucket c.key path plain
          (subst (λ r. key_to_path r c.bucket c.key ≡ ok path) (rooted k) named) in
      let (content, given, s) =
        put_object-IsStored rs plain_root (at k) (rooted k) (plain_temp k) req path mp info n n'
          valid object named
          (subst (λ r. meta_path r c.bucket c.key ≡ ok mp) (sym (rooted k)) recorded) put in
      let gone =
        head_object-delete_object rs plain_root (at (suc k)) (rooted (suc k)) c.bucket c.key path n'
          n'' later object
          (subst (λ r. key_to_path r c.bucket c.key ≡ ok path) (rooted k ∙ sym (rooted (suc k)))
            named)
          (rw (is_file_at, s.body) refl) deleted in
      let step = rolled_back c k info n n' n'' e put refused deleted in
      (
        ap (λ (o : Response × Served). o.0.status) step
            ∙ write_error-status go c e c.base
            ∙ verify-refuses go v (received over_files c) (trailers_met over_files c) e refused,
        subst
            (λ (o : Response × Served).
              head_object (record (at (suc k)) { now = later }) c.bucket c.key o.1.1
              ≡ (err no_such_key, o.1.1))
            (sym step) gone,
      )
