-- ===== src/Store/Object/Read.antt =====
-- Reads of an object whose file and sidecar belong together (internal/store/fs.go, meta.go).
use locals.Base.{
  ℕ, ◌≡◌, ap, ◌∙◌, true, false, [], Option, some, Bytes, beq, length, ==_refl, arith, ok,
}
use locals.Store.Key.{is_dir_marker, validate_bucket_name}
use locals.Store.Path.{key_to_path, segments}
use locals.Store.Fs.{Node, file, is_directory, size_of, mod_time, stat_node, read_file}
use locals.Store.Info.{Env, ObjectInfo, Sidecar}
use locals.Store.Monad.{◌>>=◌, return, lift, ask_or, >>=-goes}
use locals.Store.Bucket.{bucket_exists, is_dir_at, bucket_dir}
use locals.Store.Meta.{meta_path, load_sidecar, reconcile, read_sidecar, resolve_info, info_of}
use locals.Store.Object.{
  not_found, stat_object, stat_path, describe, head_object, get_object, get_object_range,
  open_found, section,
}

module _ (env : Env) (bucket key path mp : Bytes) (n : Node) (content record_bytes : Bytes)
    (t u : ℕ) (sc : Sidecar) (valid : validate_bucket_name bucket ≡ ok tt)
    (there : is_dir_at n (bucket_dir env bucket) ≡ true) (object : is_dir_marker key ≡ false)
    (named : key_to_path env.root bucket key ≡ ok path)
    (recorded : meta_path env.root bucket key ≡ ok mp)
    (body_there : stat_node n (segments path) ≡ ok (file content t))
    (sidecar_there : stat_node n (segments mp) ≡ ok (file record_bytes u))
    (readable : env.unmarshal record_bytes ≡ some sc) (sized : sc.size ≡ length content)
    (timed : sc.mod_time_nano ≡ t) (digest : beq sc.etag [] ≡ false)
    (typed : beq sc.content_type [] ≡ false) where
  found_bucket : bucket_exists env bucket n ≡ (ok tt, n)
  unfolding bucket_exists
  found_bucket = rw (valid, there)

  loaded : load_sidecar env bucket key n ≡ sc
  unfolding load_sidecar read_file
  loaded = rw (recorded, load_sidecar, sidecar_there, read_file, readable)

  kept : reconcile (some (file content t)) sc ≡ sc
  unfolding reconcile size_of mod_time
  kept = ground (arith, ==_refl t, ==_refl (length content))

  matched : read_sidecar env bucket key (some (file content t)) n ≡ sc
  unfolding read_sidecar
  matched = rw loaded kept

  abbrev pub stored_info : ObjectInfo
  stored_info = info_of bucket key (file content t) sc

  resolved : resolve_info env bucket key path (file content t) sc n ≡ (ok stored_info, n)
  unfolding resolve_info
  resolved = rw (digest, typed)

  described : describe env bucket key path (file content t) n ≡ (ok (stored_info, path), n)
  unfolding describe is_directory
  described =
      rw (object, matched)
        (>>=-goes (resolve_info env bucket key path (file content t) sc)
          (λ info. return (info, path)) n n stored_info resolved)

  found_object : stat_object env bucket key n ≡ (ok (stored_info, path), n)
  unfolding stat_object stat_path
  found_object =
      >>=-goes (bucket_exists env bucket)
        (λ _. lift (key_to_path env.root bucket key) >>= stat_path env bucket key) n n tt
        found_bucket
      ∙ ap (λ r. (lift r >>= stat_path env bucket key) n) named
      ∙ >>=-goes (ask_or not_found (λ m. stat_node m (segments path)))
          (describe env bucket key path) n n (file content t)
          (ap (λ r. ask_or not_found (λ _. r) n) body_there)
      ∙ described

  pub head_object_stored : head_object env bucket key n ≡ (ok stored_info, n)
  unfolding head_object
  head_object_stored =
      >>=-goes (stat_object env bucket key) (λ r. return r.0) n n (stored_info, path) found_object

  bytes_there : read_file n (segments path) ≡ ok content
  unfolding read_file
  bytes_there = rw (body_there, read_file)

  opened :
      (part : Bytes → Bytes)
      → open_found key part (stored_info, path) n ≡ (ok (part content, stored_info), n)
  unfolding open_found
  opened part = rw object (
      >>=-goes (ask_or not_found (λ m. read_file m (segments path)))
        (λ body. return (part body, stored_info)) n n content
        (ap (λ r. ask_or not_found (λ _. r) n) bytes_there))

  read_stored :
      (part : Bytes → Bytes)
      → (stat_object env bucket key >>= open_found key part) n ≡ (ok (part content, stored_info), n)
  read_stored part =
      >>=-goes (stat_object env bucket key) (open_found key part) n n (stored_info, path)
        found_object
      ∙ opened part

  pub get_object_stored : get_object env bucket key n ≡ (ok (content, stored_info), n)
  unfolding get_object
  get_object_stored = read_stored (λ body. body)

  pub get_object_range_stored :
      (offset : ℕ) (len : Option ℕ)
      → get_object_range env bucket key offset len n
        ≡ (ok (section offset len content, stored_info), n)
  unfolding get_object_range
  get_object_range_stored offset len = read_stored (section offset len)
