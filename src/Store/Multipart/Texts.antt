-- ===== src/Store/Multipart/Texts.antt =====
-- What a completed upload records are texts (internal/store/multipart.go): digests are in ASCII, as
-- is the number of the parts.
use locals.Base.{
  ℕ, zero, suc, ◌<◌, ◌≡◌, refl, ap, subst, List, [], ◌∷◌, Option, Option-cases, none, some, arith,
  Bytes, All, All-append, Bool-cases, inl, inr, beq, ltb, ◌==◌, ok, err, Result, length, not, ◌||◌,
}
use locals.Base.Int.{ℤ, pos, negsuc, parse_int}
use locals.Store.Error.{Error, OsError}
use locals.Store.Fs.{
  Node, Entries, end, entry, is_directory, mod_time, size_of, read_file, stat_node, read_dir,
}
use locals.Store.Path.{segments}
use locals.Store.Utf8.{valid_utf8-ascii}
use locals.Store.Info.{Env, seconds}
use locals.Store.Json.{IsText, IsAscii, IsMap, IsPrintable}
use locals.Store.Monad.{M, ◌>>=◌, ask, return, bind_done}
use locals.Store.Meta.{file_etag}
use locals.Store.Multipart.{
  Manifests, Part, CompletedPart, Upload, part_info, part_path, collect_parts, insert_part,
  sort_parts, list_parts, staged_part, check_parts, manifest_at, manifest_path, load_upload,
  manifest_name, upload_dir, valid_upload_id, five_digits,
}
use locals.Store.Multipart.Check.{Staged, check_parts_iff}
use locals.Store.Multipart.Complete.{
  skip_zeros, show_count, raw_digests, multipart_etag, part_etags_of, upload_sidecar,
}

abbrev pub IsDigest : Part → Type 0
IsDigest p = IsAscii p.etag

module _ (env : Env) (ascii : (s : Bytes) → IsAscii (env.md5 s)) where
  skip_zeros-IsAscii : (k : ℕ) (s : Bytes) → IsAscii s → IsAscii (skip_zeros k s)
  unfolding skip_zeros
  skip_zeros-IsAscii zero s h = h
  skip_zeros-IsAscii (suc k) [] h = tt
  skip_zeros-IsAscii (suc k) (c ∷ s) (low, h) = elim (Bool-cases (c == b'0')) [
    | inl skip ↦ rw (skip_zeros, skip) (skip_zeros-IsAscii k s h)
    | inr keep ↦ rw (skip_zeros, keep) (low, h)
  ]

  five_digits-IsAscii : (n : ℕ) → IsAscii (five_digits n)
  unfolding five_digits
  five_digits-IsAscii n =
      (omega arith, (omega arith, (omega arith, (omega arith, (omega arith, tt)))))

  multipart_etag-IsAscii : (ps : List Part) → IsAscii (multipart_etag env ps)
  unfolding multipart_etag show_count
  multipart_etag-IsAscii ps =
      All-append (λ (c : ℕ). c < 0x80) (env.md5 (raw_digests ps)) (b'-' ∷ show_count (length ps))
        (ascii (raw_digests ps))
        (
          omega arith,
          skip_zeros-IsAscii 4 (five_digits (length ps)) (five_digits-IsAscii (length ps)),
        )

  part_etags_of-IsText : (ps : List Part) → All IsDigest ps → All IsText (part_etags_of ps)
  part_etags_of-IsText [] h = tt
  part_etags_of-IsText (p ∷ ps) (d, h) = (valid_utf8-ascii p.etag d, part_etags_of-IsText ps h)

  pub upload_sidecar-IsPrintable :
      (up : Upload) (ps : List Part) (content : Bytes) (fi : Node)
      → IsText up.content_type × IsMap up.user_meta
      → All IsDigest ps
      → IsPrintable (upload_sidecar env up ps content fi)
  upload_sidecar-IsPrintable up ps content fi (typed, meta) digests = record {
    content_type = typed;
    user_meta = meta;
    etag = valid_utf8-ascii (multipart_etag env ps) (multipart_etag-IsAscii ps);
    part_etags = part_etags_of-IsText ps digests;
    checksum_algorithm = valid_utf8-ascii [] tt;
    checksum_value = valid_utf8-ascii [] tt;
  }

  file_etag-IsAscii : (path s : Bytes) (n n' : Node) → file_etag env path n ≡ (ok s, n') → IsAscii s
  unfolding file_etag
  file_etag-IsAscii path s n n' h =
      let (body, k, _, made) =
        bind_done (ask (λ n. read_file n (segments path))) (λ body. return (env.md5 body)) n n' s
          h in
      let same : env.md5 body ≡ s = cc in subst IsAscii same (ascii body)

  part_info-IsDigest :
      (id : Bytes) (k : ℕ) (p : Part) (n n' : Node) → part_info env id k n ≡ (ok p, n') → IsDigest p
  unfolding part_info
  part_info-IsDigest id k p n n' h =
      let path = part_path env id k in
      let part_of : Node → Bytes → Part = λ fi et. record {
        part_number = k;
        etag = et;
        size = size_of fi;
        last_modified = seconds (mod_time fi);
      } in
      let (fi, m, _, after) =
        bind_done (ask (λ n. stat_node n (segments path)))
          (λ fi. file_etag env path >>= λ et. return (part_of fi et)) n n' p h in
      let (et, m', printed, made) =
        bind_done (file_etag env path) (λ et. return (part_of fi et)) m n' p after in
      let same : et ≡ p.etag =
        ap (λ (r : Result Error Part). digest_of et r)
          (ap (λ (r : Result Error Part × Node). r.0) made) in
      subst IsAscii same (file_etag-IsAscii path et m m' printed)
    where
      digest_of : Bytes → Result Error Part → Bytes
      digest_of et (ok p) = p.etag
      digest_of et (err e) = et

  found_or_skipped :
      (r : Result Error Part × Node) (rest : List Part)
      → ((p : Part) → r ≡ (ok p, r.1) → IsDigest p)
      → All IsDigest rest
      → All IsDigest (elim r.0 [ ok p ↦ p ∷ rest | err e ↦ rest ])
  found_or_skipped (ok p, n) rest one h = (one p refl, h)
  found_or_skipped (err e, n) rest one h = h

  collect_parts-IsDigest :
      (id : Bytes) (es : Entries) (n : Node) → All IsDigest (collect_parts env id es n)
  unfolding collect_parts
  collect_parts-IsDigest id end n = tt
  collect_parts-IsDigest id (entry name fi es) n =
      elim (Bool-cases (is_directory fi || beq name manifest_name)) [
        | inl other ↦ rw other (collect_parts-IsDigest id es n)
        | inr file ↦ rw file (numbered (parse_int 10 name) (collect_parts-IsDigest id es n))
      ]
    where
      numbered :
          (number : Option ℤ)
          → All IsDigest (collect_parts env id es n)
          → All IsDigest (elim number [
            | none ↦ collect_parts env id es n
            | some (negsuc k) ↦ collect_parts env id es n
            | some (pos k) ↦ elim (part_info env id k n).0 [
              | ok p ↦ p ∷ collect_parts env id es n
              | err e ↦ collect_parts env id es n
            ]
          ])
      numbered none h = h
      numbered (some (negsuc k)) h = h
      numbered (some (pos k)) h =
          found_or_skipped (part_info env id k n) (collect_parts env id es n)
            (λ p e. part_info-IsDigest id k p n _ e) h

  insert_part-IsDigest :
      (p : Part) (ps : List Part) → IsDigest p → All IsDigest ps → All IsDigest (insert_part p ps)
  unfolding insert_part
  insert_part-IsDigest p [] d h = (d, tt)
  insert_part-IsDigest p (q ∷ qs) d (e, h) = elim (Bool-cases (ltb p.part_number q.part_number)) [
    | inl first ↦ rw (insert_part, first) (d, (e, h))
    | inr later ↦ rw (insert_part, later) (e, insert_part-IsDigest p qs d h)
  ]

  sort_parts-IsDigest : (ps : List Part) → All IsDigest ps → All IsDigest (sort_parts ps)
  unfolding sort_parts
  sort_parts-IsDigest [] h = tt
  sort_parts-IsDigest (p ∷ ps) (d, h) =
      insert_part-IsDigest p (sort_parts ps) d (sort_parts-IsDigest ps h)

  staged_part-IsDigest :
      (n : ℕ) (ps : List Part) (got : Part)
      → All IsDigest ps
      → staged_part n ps ≡ some got
      → IsDigest got
  unfolding staged_part
  staged_part-IsDigest n [] got h e = absurd cc
  staged_part-IsDigest n (p ∷ ps) got (d, h) e = elim (Bool-cases (p.part_number == n)) [
    | inl this ↦ let same : p ≡ got = cc (rw (staged_part, this) at e) in subst IsDigest same d
    | inr other ↦ staged_part-IsDigest n ps got h (rw (staged_part, other) at e)
  ]

  Staged-IsDigest :
      (staged : List Part) (parts : List CompletedPart) (found : List Part)
      → All IsDigest staged
      → Staged staged parts found
      → All IsDigest found
  Staged-IsDigest staged [] [] h s = tt
  Staged-IsDigest staged [] (g ∷ found) h s = elim s [ ]
  Staged-IsDigest staged (want ∷ parts) [] h s = elim s [ ]
  Staged-IsDigest staged (want ∷ parts) (got ∷ found) h (there, _, s) = (
    staged_part-IsDigest want.part_number staged got h there,
    Staged-IsDigest staged parts found h s,
  )

  pub list_parts-IsDigest :
      (ms : Manifests) (bucket key id : Bytes) (staged found : List Part)
      (parts : List CompletedPart) (n : Node)
      → list_parts ms env bucket key id n ≡ (ok staged, n)
      → check_parts staged 0 parts ≡ ok found
      → All IsDigest found
  unfolding list_parts
  list_parts-IsDigest ms bucket key id staged found parts n listed checked =
      let list : Entries → M (List Part) =
        λ es m. (ok (sort_parts (collect_parts env id es m)), m) in
      let entries : Node → _ = λ m. read_dir m (segments (upload_dir env id)) in
      let (up, k, _, after) =
        bind_done (load_upload ms env bucket key id) (λ _. ask entries >>= list) n n staged
          listed in
      let (es, k', _, made) = bind_done (ask entries) list k n staged after in
      let same : sort_parts (collect_parts env id es k') ≡ staged = cc in
      let (_, all_staged, _) = (check_parts_iff staged parts found).0 checked in
      Staged-IsDigest staged parts found
        (subst (All IsDigest) same
          (sort_parts-IsDigest (collect_parts env id es k') (collect_parts-IsDigest id es k')))
        all_staged

manifest_at-read :
    (ms : Manifests) (env : Env) (id : Bytes) (up : Upload) (n : Node)
    → manifest_at ms env id n ≡ some up
    → (b : Bytes) × (ms.read b ≡ some up)
unfolding manifest_at
manifest_at-read ms env id up n h = go (read_file n (segments (manifest_path env id))) h
  where
    go :
        (r : Result OsError Bytes)
        → elim r [ err e ↦ none | ok b ↦ ms.read b ] ≡ some up
        → (b : Bytes) × (ms.read b ≡ some up)
    go (err e) h = absurd cc
    go (ok b) h = (b, h)

-- The content type and the metadata of an upload that is loaded are those that its manifest gives.
pub load_upload-IsText :
    (ms : Manifests) (env : Env) (bucket key id : Bytes) (up : Upload) (n : Node)
    → ((b : Bytes) (up : Upload)
        → ms.read b ≡ some up
        → IsText up.content_type × IsMap up.user_meta)
    → load_upload ms env bucket key id n ≡ (ok up, n)
    → IsText up.content_type × IsMap up.user_meta
unfolding load_upload
load_upload-IsText ms env bucket key id up n texts h = elim (Bool-cases (valid_upload_id id)) [
  | inr bad ↦ absurd (cc (rw bad at h))
  | inl good ↦ elim (Option-cases (manifest_at ms env id n)) [
    | inl missing ↦ absurd (cc (rw (good, missing) at h))
    | inr (m, there) ↦ elim (Bool-cases (not (beq m.bucket bucket) || not (beq m.key key))) [
      | inl other ↦ absurd (cc (rw (good, there, other) at h))
      | inr same ↦
          let is_up : m ≡ up = cc (rw (good, there, same) at h) in
          let (b, given) = manifest_at-read ms env id m n there in
          subst (λ (u : Upload). IsText u.content_type × IsMap u.user_meta) is_up (texts b m given)
    ]
  ]
]
