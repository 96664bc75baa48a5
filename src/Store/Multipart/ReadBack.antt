-- ===== src/Store/Multipart/ReadBack.antt =====
-- A completed upload and the reads after it (internal/store/multipart.go, fs.go).
use locals.Base.{
  ℕ, ◌≡◌, refl, sym, ap, ◌∙◌, subst, arith, Bool, true, false, not, ◌||◌, List, [], ◌∷◌, Option,
  Option-cases, some, Bytes, All, Bool-cases, if◌then◌else◌, inl, inr, beq, length-append, ok,
}
use locals.Store.Error.{invalid_part}
use locals.Store.Key.{is_dir_marker, validate_bucket_name}
use locals.Store.Key.Valid.{IsPlain}
use locals.Store.Key.Bucket.{validate_bucket_name-IsPlain}
use locals.Store.Path.{key_to_path, segments}
use locals.Store.Path.Clean.{abs}
use locals.Store.Path.Extension.{beq_of_longer}
use locals.Store.Path.Layout.{temp_of, AreApart_lem, meta_path_total}
use locals.Store.Fs.{Node, Entries, file, mod_time, size_of, read_dir}
use locals.Store.Fs.Laws.{Apart}
use locals.Store.Info.{Env, ObjectInfo}
use locals.Store.Json.{ReadsBack, IsAscii, IsText, IsMap}
use locals.Store.Monad.{M, ◌>>=◌, return, fail, lift, ask, bind_done, ask_done}
use locals.Store.Meta.{meta_path}
use locals.Store.Object.PutGet.{Answers, written-Answers}
use locals.Store.Multipart.{
  Manifests, Part, CompletedPart, Upload, valid_upload_id, check_parts, manifest_at, load_upload,
  upload_dir, collect_parts, sort_parts, list_parts,
}
use locals.Store.Multipart.Layout.{valid_upload_id-IsPlain, part-temp, path-upload, sidecar-upload}
use locals.Store.Multipart.Texts.{
  upload_sidecar-IsPrintable, load_upload-IsText, list_parts-IsDigest,
}
use locals.Store.Multipart.Joined.{Joined, assemble_at_done}
use locals.Store.Multipart.Complete.{
  multipart_etag, upload_sidecar, assemble_at, assemble, complete_listed, complete_loaded,
  complete_multipart_upload, is_none_listed,
}

-- The id of an upload that is loaded is one that the store may have made, and the tree is left alone.
load_upload_done :
    (ms : Manifests) (env : Env) (bucket key id : Bytes) (up : Upload) (n n' : Node)
    → load_upload ms env bucket key id n ≡ (ok up, n')
    → (valid_upload_id id ≡ true) × (n' ≡ n)
unfolding load_upload
load_upload_done ms env bucket key id up n n' h = elim (Bool-cases (valid_upload_id id)) [
  | inr bad ↦ absurd (cc (rw bad at h))
  | inl good ↦ elim (Option-cases (manifest_at ms env id n)) [
    | inl missing ↦ absurd (cc (rw (good, missing) at h))
    | inr (m, there) ↦ elim (Bool-cases (not (beq m.bucket bucket) || not (beq m.key key))) [
      | inl other ↦ absurd (cc (rw (good, there, other) at h))
      | inr same ↦ (good, cc (rw (good, there, same) at h))
    ]
  ]
]

list_parts_done :
    (ms : Manifests) (env : Env) (bucket key id : Bytes) (staged : List Part) (n n' : Node)
    → list_parts ms env bucket key id n ≡ (ok staged, n')
    → n' ≡ n
unfolding list_parts
list_parts_done ms env bucket key id staged n n' h =
    let list : Entries → M (List Part) = λ es m. (ok (sort_parts (collect_parts env id es m)), m) in
    let entries : Node → _ = λ m. read_dir m (segments (upload_dir env id)) in
    let (up, k, loaded, after) =
      bind_done (load_upload ms env bucket key id) (λ _. ask entries >>= list) n n' staged h in
    let (es, k', asked, listed) = bind_done (ask entries) list k n' staged after in
    let (found, same) = ask_done _ entries k k' es asked in
    cc (load_upload_done ms env bucket key id up n k loaded).1

-- A completed upload, taken apart.
complete_done :
    (ms : Manifests) (env : Env) (bucket key id : Bytes) (parts : List CompletedPart)
    (info : ObjectInfo) (n n' : Node)
    → complete_multipart_upload ms env bucket key id parts n ≡ (ok info, n')
    → (up : Upload) × (staged : List Part) × (found : List Part) × (path : Bytes) × (valid_upload_id
          id
        ≡ true)
      × (load_upload ms env bucket key id n ≡ (ok up, n))
      × (list_parts ms env bucket key id n ≡ (ok staged, n))
      × (check_parts staged 0 parts ≡ ok found)
      × (key_to_path env.root bucket key ≡ ok path)
      × (assemble_at env bucket key id up found path n ≡ (ok info, n'))
unfolding complete_multipart_upload complete_loaded complete_listed assemble
complete_done ms env bucket key id parts info n n' h =
    let (up, k, loaded, after) =
      bind_done (load_upload ms env bucket key id) (complete_loaded ms env bucket key id parts) n n'
        info h in
    let (good, same) = load_upload_done ms env bucket key id up n k loaded in
    let (u, k1, some_part, after1) =
      bind_done (if is_none_listed parts then fail invalid_part else return tt)
        (λ _. list_parts ms env bucket key id >>= complete_listed env bucket key id up parts) k n'
        info after in
    let (staged, k2, listed, after2) =
      bind_done (list_parts ms env bucket key id) (complete_listed env bucket key id up parts) k1 n'
        info after1 in
    let (found, k3, checked, after3) =
      bind_done (lift (check_parts staged 0 parts)) (assemble env bucket key id up) k2 n' info
        after2 in
    let (path, k4, named, after4) =
      bind_done (lift (key_to_path env.root bucket key)) (assemble_at env bucket key id up found) k3
        n' info after3 in
    let at_k1 : k1 ≡ k = some_part_done (is_none_listed parts) k k1 u some_part in
    let at_k2 : k2 ≡ k1 = list_parts_done ms env bucket key id staged k1 k2 listed in
    let at_k4 : k4 ≡ n = cc in
    let at_n : k1 ≡ n = cc in
    (
      up,
      staged,
      found,
      path,
      good,
      loaded ∙ ap (λ m. (ok up, m)) same,
      subst (λ m. list_parts ms env bucket key id m ≡ (ok staged, m)) at_n
          (listed ∙ ap (λ m. (ok staged, m)) at_k2),
      cc,
      cc,
      subst (λ m. assemble_at env bucket key id up found path m ≡ (ok info, n')) at_k4 after4,
    )
  where
    some_part_done :
        (b : Bool) (k k1 : Node) (u : Unit {0})
        → (if b then fail invalid_part else return tt) k ≡ (ok u, k1)
        → k1 ≡ k
    some_part_done true k k1 u e = absurd cc
    some_part_done false k k1 u e = cc

-- The digest of a completed upload is never empty.
multipart_etag-full : (env : Env) (ps : List Part) → beq (multipart_etag env ps) [] ≡ false
unfolding multipart_etag
multipart_etag-full env ps =
    beq_of_longer _ [] (omega (arith, length-append (env.md5 _) (b'-' ∷ _)))

-- A server's root, a name of a temporary file; and what is documented of the packages that the server
-- calls: digests are printed in ASCII, JSON reads texts back, and what it reads are texts.
module _ (rs : List Bytes) (plain_root : All IsPlain rs) (env : Env) (rooted : env.root ≡ abs rs)
    (plain_temp : IsPlain env.temp_name) (reads_back : ReadsBack env)
    (ascii : (s : Bytes) → IsAscii (env.md5 s)) (ms : Manifests)
    (reads_texts : (b : Bytes) (up : Upload)
      → ms.read b ≡ some up
      → IsText up.content_type × IsMap up.user_meta) where
  -- A CompleteMultipartUpload of an object that succeeds, and whose upload has a content type, has
  -- found the parts that it lists among those that were staged, and put the bytes of their files
  -- together in the order of the list: HeadObject, GetObject and GetObjectRange of the key on the
  -- tree that it left, whenever they come, answer those bytes, or the range of them that is asked
  -- for, with the info that the completion answered, and change nothing; given a valid name of the
  -- bucket, a rooted storage directory, a plain name of the temporary file, digests that are
  -- printed in ASCII, and JSON that gives texts where it reads a manifest and reads back valid
  -- texts and maps of them.
  pub get_object-complete_multipart_upload :
      (bucket key id : Bytes) (parts : List CompletedPart) (info : ObjectInfo) (n n' : Node)
      (later offset : ℕ) (len : Option ℕ) (name : Bytes)
      → validate_bucket_name bucket ≡ ok tt
      → is_dir_marker key ≡ false
      → beq info.content_type [] ≡ false
      → complete_multipart_upload ms env bucket key id parts n ≡ (ok info, n')
      → (staged : List Part) × (found : List Part) × (content : Bytes) × (list_parts ms env bucket
            key id n
          ≡ (ok staged, n))
        × (check_parts staged 0 parts ≡ ok found)
        × Joined env id found n content
        × Answers
            (record env { now = later; temp_name = name })
            bucket
            key
            offset
            len
            content
            info
            n'
  unfolding mod_time size_of
  get_object-complete_multipart_upload bucket key id parts info n n' later offset len name valid
        object typed completed =
      let (up, staged, found, path, good, loaded, listed, checked, named, assembled) =
        complete_done ms env bucket key id parts info n n' completed in
      let (plain, other) = validate_bucket_name-IsPlain bucket valid in
      let plain_id = valid_upload_id-IsPlain id good in
      let named' : key_to_path (abs rs) bucket key ≡ ok path =
        subst (λ r. key_to_path r bucket key ≡ ok path) rooted named in
      let (mp, recorded') = meta_path_total rs plain_root bucket key path plain named' in
      let recorded : meta_path env.root bucket key ≡ ok mp =
        subst (λ r. meta_path r bucket key ≡ ok mp) (sym rooted) recorded' in
      let apart =
        AreApart_lem rs plain_root bucket key env.temp_name path mp plain other plain_temp named'
          recorded' in
      let (content, joined, s) =
        assemble_at_done env bucket key id path mp up found recorded
          (subst (λ r. Apart (segments path) (segments (temp_of r env.temp_name))) (sym rooted)
            apart.path-temp)
          apart.path-sidecar apart.path-sidecar_tmp
          (subst (λ r. Apart (segments mp) (segments (temp_of r env.temp_name))) (sym rooted)
            apart.sidecar-temp)
          apart.sidecar-sidecar_tmp
          (path-upload rs plain_root env rooted id plain_id bucket key path plain other named')
          (sidecar-upload rs plain_root env rooted id plain_id bucket key mp plain recorded') info n
          n'
          (λ number. part-temp rs plain_root env rooted id plain_id number env.temp_name plain_temp)
          assembled in
      (
        staged,
        found,
        content,
        listed,
        checked,
        joined,
        written-Answers rs plain_root env rooted reads_back bucket key path mp content
            (upload_sidecar env up found content (file content env.now)) info n' env.now env.now
            later offset len name valid object named recorded s.body s.sidecar refl refl
            (multipart_etag-full env found)
            (subst (λ t. beq t [] ≡ false) (ap (λ (i : ObjectInfo). i.content_type) s.answer) typed)
            (upload_sidecar-IsPrintable env ascii up found content (file content env.now)
              (load_upload-IsText ms env bucket key id up n reads_texts loaded)
              (list_parts-IsDigest env ascii ms bucket key id staged found parts n listed checked))
            s.answer,
      )
