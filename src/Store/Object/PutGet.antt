-- ===== src/Store/Object/PutGet.antt =====
-- A put and the reads that follow it (internal/store/fs.go, meta.go).
use locals.Base.{
  ℕ, ◌≡◌, refl, sym, ap, ◌∙◌, subst, true, false, List, [], ◌∷◌, ◌++◌, Option, Option-cases, arith,
  Bytes, All, Bool-cases, inl, inr, beq, length, ok,
}
use locals.Store.Key.{is_dir_marker, validate_bucket_name}
use locals.Store.Key.Valid.{IsPlain}
use locals.Store.Key.Bucket.{validate_bucket_name-IsPlain}
use locals.Store.Path.{bucket_path, key_to_path, segments}
use locals.Store.Path.Clean.{abs}
use locals.Store.Fs.Laws.{Apart}
use locals.Store.Path.Layout.{temp_of, AreApart_lem, bucket-above, meta_path_total}
use locals.Store.Fs.{Node, file, dir, find, stat_node, mod_time, size_of}
use locals.Store.Info.{Env, ObjectInfo, PutRequest, Sidecar}
use locals.Store.Json.{ReadsBack, IsPrintable, IsAscii, put_sidecar-IsPrintable}
use locals.Store.Monad.{◌>>=◌, lift, bind_done}
use locals.Store.Bucket.{is_dir_at}
use locals.Store.Meta.{meta_path, info_of}
use locals.Store.Object.{
  declared, put_sidecar, put_info, put_at, put_object, ensure_bucket, head_object, get_object,
  get_object_range, section,
}
use locals.Store.Object.Read.{head_object_stored, get_object_stored, get_object_range_stored}
use locals.Store.Object.Stored.{IsStored, put_object_done}

-- Above whatever is there stand directories.
is_dir_above :
    (root m : Node) (p : List Bytes) (x : Bytes) (q : List Bytes)
    → stat_node root (p ++ (x ∷ q)) ≡ ok m
    → is_dir_at root p ≡ true
unfolding stat_node is_dir_at
is_dir_above (file b t) m [] x q h = absurd cc
is_dir_above (dir t es) m [] x q h = refl
is_dir_above (file b t) m (s ∷ p) x q h = absurd cc
is_dir_above (dir t es) m (s ∷ p) x q h = elim (Option-cases (find s es)) [
  | inl absent ↦ absurd (ground arith)
  | inr (n, found) ↦
      rw (found, is_dir_at, stat_node) (is_dir_above n m p x q (rw (found, stat_node) at h))
]

declared_type : (req : PutRequest) → beq (declared req).content_type [] ≡ false
unfolding beq
declared_type req = elim (Bool-cases (beq req.content_type [])) [
  | inl absent ↦ rw absent refl
  | inr given ↦ rw given given
]

pub put_object_named :
    (env : Env) (req : PutRequest) (info : ObjectInfo) (n n' : Node)
    → put_object env req n ≡ (ok info, n')
    → (path : Bytes) × (key_to_path env.root req.bucket req.key ≡ ok path)
unfolding put_object
put_object_named env req info n n' h =
    let (u, k, _, after) =
      bind_done (ensure_bucket env req.bucket)
        (λ _. lift (key_to_path env.root req.bucket req.key) >>= put_at env req) n n' info h in
    let (path, k', found, _) =
      bind_done (lift (key_to_path env.root req.bucket req.key)) (put_at env req) k n' info after in
    (path, cc)

-- What the reads of one object answer.
abbrev pub Answers : Env → Bytes → Bytes → ℕ → Option ℕ → Bytes → ObjectInfo → Node → Type 0
Answers env bucket key offset len content info n =
    (head_object env bucket key n ≡ (ok info, n))
    × (get_object env bucket key n ≡ (ok (content, info), n))
    × (get_object_range env bucket key offset len n ≡ (ok (section offset len content, info), n))

-- What is read of an object whose file and sidecar were written for each other.
module _ (rs : List Bytes) (plain_root : All IsPlain rs) (env : Env) (rooted : env.root ≡ abs rs)
    (reads_back : ReadsBack env) where
  pub written-Answers :
      (bucket key path mp content : Bytes) (sc : Sidecar) (info : ObjectInfo) (n : Node)
      (t u later offset : ℕ) (len : Option ℕ) (name : Bytes)
      → validate_bucket_name bucket ≡ ok tt
      → is_dir_marker key ≡ false
      → key_to_path env.root bucket key ≡ ok path
      → meta_path env.root bucket key ≡ ok mp
      → stat_node n (segments path) ≡ ok (file content t)
      → stat_node n (segments mp) ≡ ok (file (env.marshal sc) u)
      → sc.size ≡ length content
      → sc.mod_time_nano ≡ t
      → beq sc.etag [] ≡ false
      → beq sc.content_type [] ≡ false
      → IsPrintable sc
      → info ≡ info_of bucket key (file content t) sc
      → Answers (record env { now = later; temp_name = name }) bucket key offset len content info n
  written-Answers bucket key path mp content sc info n t u later offset len name valid object named
        recorded body sidecar sized timed digest typed texts answer =
      let (x, q, above) =
        bucket-above rs plain_root bucket key path (validate_bucket_name-IsPlain bucket valid).0
          (subst (λ r. key_to_path r bucket key ≡ ok path) rooted named) in
      let there : is_dir_at n (segments (bucket_path env.root bucket)) ≡ true =
        is_dir_above n (file content t) (segments (bucket_path env.root bucket)) x q (
          subst
            (λ r. stat_node n (segments (bucket_path r bucket) ++ (x ∷ q)) ≡ ok (file content t))
            (sym rooted) (ap (stat_node n) (sym above) ∙ body)) in
      let env' : Env = record env { now = later; temp_name = name } in
      (
        head_object_stored env' bucket key path mp n content (env.marshal sc) t u sc valid there
              object named recorded body sidecar (reads_back sc texts) sized timed digest typed
            ∙ ap (λ i. (ok i, n)) (sym answer),
        get_object_stored env' bucket key path mp n content (env.marshal sc) t u sc valid there
              object named recorded body sidecar (reads_back sc texts) sized timed digest typed
            ∙ ap (λ i. (ok (content, i), n)) (sym answer),
        get_object_range_stored env' bucket key path mp n content (env.marshal sc) t u sc valid
              there object named recorded body sidecar (reads_back sc texts) sized timed digest
              typed offset len
            ∙ ap (λ i. (ok (section offset len content, i), n)) (sym answer),
      )

-- A server's root and a name of a temporary file.
module _ (rs : List Bytes) (plain_root : All IsPlain rs) (env : Env) (rooted : env.root ≡ abs rs)
    (plain_temp : IsPlain env.temp_name) where
  -- What a put that succeeds has stored, and where.
  pub put_object-IsStored :
      (req : PutRequest) (path mp : Bytes) (info : ObjectInfo) (n n' : Node)
      → validate_bucket_name req.bucket ≡ ok tt
      → is_dir_marker req.key ≡ false
      → key_to_path env.root req.bucket req.key ≡ ok path
      → meta_path env.root req.bucket req.key ≡ ok mp
      → put_object env req n ≡ (ok info, n')
      → (content : Bytes) × (req.body ≡ ok content) × IsStored env req path mp content info n'
  put_object-IsStored req path mp info n n' valid object named recorded put =
      let (plain, other) = validate_bucket_name-IsPlain req.bucket valid in
      let apart =
        AreApart_lem rs plain_root req.bucket req.key env.temp_name path mp plain other plain_temp
          (subst (λ r. key_to_path r req.bucket req.key ≡ ok path) rooted named)
          (subst (λ r. meta_path r req.bucket req.key ≡ ok mp) rooted recorded) in
      put_object_done env req path mp recorded
        (subst (λ r. Apart (segments path) (segments (temp_of r env.temp_name))) (sym rooted)
          apart.path-temp)
        apart.path-sidecar apart.path-sidecar_tmp
        (subst (λ r. Apart (segments mp) (segments (temp_of r env.temp_name))) (sym rooted)
          apart.sidecar-temp)
        apart.sidecar-sidecar_tmp info n n' named object put

  -- The info that a put of these bytes answers.
  pub put_object_answer :
      (req : PutRequest) (info : ObjectInfo) (n n' : Node)
      → validate_bucket_name req.bucket ≡ ok tt
      → is_dir_marker req.key ≡ false
      → put_object env req n ≡ (ok info, n')
      → (content : Bytes) × (req.body ≡ ok content)
        × (info
            ≡ put_info req
                (put_sidecar env req content (file content env.now))
                (file content env.now))
  put_object_answer req info n n' valid object put =
      let (path, named) = put_object_named env req info n n' put in
      let (mp, recorded) =
        meta_path_total rs plain_root req.bucket req.key path
          (validate_bucket_name-IsPlain req.bucket valid).0
          (subst (λ r. key_to_path r req.bucket req.key ≡ ok path) rooted named) in
      let (content, given, s) =
        put_object-IsStored req path mp info n n' valid object named
          (subst (λ r. meta_path r req.bucket req.key ≡ ok mp) (sym rooted) recorded) put in
      (content, given, s.answer)

-- A server's root, a bucket's valid name and a name of a temporary file; and what is documented of
-- the packages that the server calls: a digest is printed in ASCII and not empty, and JSON reads texts
-- back.
module _ (rs : List Bytes) (plain_root : All IsPlain rs) (env : Env) (rooted : env.root ≡ abs rs)
    (plain_temp : IsPlain env.temp_name) (reads_back : ReadsBack env)
    (digests : (s : Bytes) → beq (env.md5 s) [] ≡ false)
    (ascii : (s : Bytes) → IsAscii (env.md5 s)) where
  -- A put of an object that succeeds, and whose content type, user metadata and checksum are valid
  -- texts, had a body that could be read to its end, and HeadObject, GetObject and GetObjectRange
  -- of the key on the tree that it left, whenever they come, answer the info that the put
  -- answered, with that body or the range of it that is asked for, and change nothing; given a
  -- rooted storage directory, a plain name of the temporary file, digests that are printed in
  -- ASCII and are not empty, and JSON that reads back valid texts and maps of them.
  pub get_object-put_object :
      (req : PutRequest) (info : ObjectInfo) (n n' : Node) (later offset : ℕ) (len : Option ℕ)
      (name : Bytes)
      → validate_bucket_name req.bucket ≡ ok tt
      → is_dir_marker req.key ≡ false
      → IsPrintable (declared req)
      → put_object env req n ≡ (ok info, n')
      → (content : Bytes) × (req.body ≡ ok content)
        × Answers
            (record env { now = later; temp_name = name })
            req.bucket
            req.key
            offset
            len
            content
            info
            n'
  unfolding mod_time size_of
  get_object-put_object req info n n' later offset len name valid object texts put =
      let (plain, other) = validate_bucket_name-IsPlain req.bucket valid in
      let (path, named) = put_object_named env req info n n' put in
      let named' : key_to_path (abs rs) req.bucket req.key ≡ ok path =
        subst (λ r. key_to_path r req.bucket req.key ≡ ok path) rooted named in
      let (mp, recorded') = meta_path_total rs plain_root req.bucket req.key path plain named' in
      let recorded : meta_path env.root req.bucket req.key ≡ ok mp =
        subst (λ r. meta_path r req.bucket req.key ≡ ok mp) (sym rooted) recorded' in
      let (content, given, s) =
        put_object-IsStored rs plain_root env rooted plain_temp req path mp info n n' valid object
          named recorded put in
      let fi : Node = file content env.now in
      (
        content,
        given,
        written-Answers rs plain_root env rooted reads_back req.bucket req.key path mp content
            (put_sidecar env req content fi) info n' env.now env.now later offset len name valid
            object named recorded s.body s.sidecar refl refl (digests content) (declared_type req)
            (put_sidecar-IsPrintable env req content fi texts (ascii content)) s.answer,
      )
