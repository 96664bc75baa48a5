-- ===== src/Store/Multipart/Layout.antt =====
-- Where the files of an upload lie (internal/store/multipart.go, `uploadDir` and `partPath`).
use locals.Base.{
  ℕ, ◌≡◌, ◌≢◌, refl, ap, ◌∙◌, subst, true, List, [], ◌∷◌, ◌++◌, append_assoc, arith, Bytes, codes,
  All, All-append, beq, beq_refl, inl, inr, join, contains_byte, Lacks, ok,
}
use locals.Store.Key.{slash, meta_dir_name}
use locals.Store.Key.Valid.{IsPlain}
use locals.Store.Key.Bucket.{name-IsPlain}
use locals.Store.Path.{join_path, key_to_path, segments}
use locals.Store.Path.Extension.{Apart-append, Apart-last}
use locals.Store.Path.Clean.{abs, join_path-abs}
use locals.Store.Path.RoundTrip.{segments-abs, append_ne_nil}
use locals.Store.Path.Layout.{temp_of, sidecar_segments, other_dir, file_parts, temp_parts}
use locals.Store.Fs.Laws.{Apart}
use locals.Store.Info.{Env}
use locals.Store.Meta.{meta_path}
use locals.Store.Multipart.{is_hex, all_hex, valid_upload_id, five_digits, upload_dir, part_path}

all_hex-Lacks : (s : Bytes) → all_hex s ≡ true → Lacks slash s
unfolding all_hex is_hex contains_byte
all_hex-Lacks [] h = refl
all_hex-Lacks (c ∷ s) h = ground (arith, all_hex-Lacks s)

pub valid_upload_id-IsPlain : (id : Bytes) → valid_upload_id id ≡ true → IsPlain id
unfolding valid_upload_id
valid_upload_id-IsPlain id h = name-IsPlain id (all_hex-Lacks id (ground arith)) (ground arith)

five_digits-IsPlain : (n : ℕ) → IsPlain (five_digits n)
unfolding five_digits
five_digits-IsPlain n =
    name-IsPlain (five_digits n) (unfold contains_byte in ground arith) (omega arith)

uploads_names : All IsPlain (meta_dir_name ∷ codes "uploads" ∷ [])
unfolding beq contains_byte
uploads_names = ((refl, refl, refl, refl), ((refl, refl, refl, refl), tt))

module _ (rs : List Bytes) (plain_root : All IsPlain rs) (env : Env) (rooted : env.root ≡ abs rs)
    (id : Bytes) (plain_id : IsPlain id) where
  abbrev upload_parts : List Bytes
  upload_parts = meta_dir_name ∷ codes "uploads" ∷ id ∷ []

  upload_parts-IsPlain : All IsPlain (rs ++ upload_parts)
  upload_parts-IsPlain =
      All-append IsPlain rs upload_parts plain_root
        (uploads_names.0, (uploads_names.1.0, (plain_id, tt)))

  upload_dir-abs : upload_dir env id ≡ abs (rs ++ upload_parts)
  unfolding join
  upload_dir-abs =
      ap (λ (r : Bytes). join_path (join_path r (meta_dir_name ++ codes "/uploads")) id) rooted
      ∙ ap (λ (d : Bytes). join_path d id)
          (join_path-abs rs (meta_dir_name ∷ codes "uploads" ∷ []) (λ e. cc) plain_root
            uploads_names)
      ∙ join_path-abs (rs ++ (meta_dir_name ∷ codes "uploads" ∷ [])) (id ∷ []) (λ e. cc)
          (All-append IsPlain rs (meta_dir_name ∷ codes "uploads" ∷ []) plain_root uploads_names)
          (plain_id, tt)
      ∙ ap abs (append_assoc rs (meta_dir_name ∷ codes "uploads" ∷ []) (id ∷ []))

  upload_dir-segments : segments (upload_dir env id) ≡ rs ++ upload_parts
  upload_dir-segments =
      ap segments upload_dir-abs
      ∙ segments-abs (rs ++ upload_parts) (append_ne_nil rs upload_parts (λ e. cc))
          upload_parts-IsPlain

  part_path-segments :
      (n : ℕ) → segments (part_path env id n) ≡ rs ++ (upload_parts ++ (five_digits n ∷ []))
  unfolding part_path join
  part_path-segments n =
      ap (λ (d : Bytes). segments (join_path d (five_digits n))) upload_dir-abs
      ∙ ap segments (
          join_path-abs (rs ++ upload_parts) (five_digits n ∷ []) (λ e. cc) upload_parts-IsPlain
            (five_digits-IsPlain n, tt))
      ∙ ap (λ (l : List Bytes). segments (abs l))
          (append_assoc rs upload_parts (five_digits n ∷ []))
      ∙ segments-abs (rs ++ (upload_parts ++ (five_digits n ∷ [])))
          (append_ne_nil rs (upload_parts ++ (five_digits n ∷ [])) (λ e. cc))
          (subst (All IsPlain) (append_assoc rs upload_parts (five_digits n ∷ [])) (
            All-append IsPlain (rs ++ upload_parts) (five_digits n ∷ []) upload_parts-IsPlain
              (five_digits-IsPlain n, tt)))

  -- A part is staged apart from the temporary files.
  pub part-temp :
      (n : ℕ) (name : Bytes)
      → IsPlain name
      → Apart (segments (part_path env id n)) (segments (temp_of env.root name))
  unfolding beq
  part-temp n name plain =
      rw
        (
          part_path-segments n,
          ap (λ (r : Bytes). segments (temp_of r name)) rooted,
          temp_parts rs plain_root name plain,
        )
        (Apart-append rs (upload_parts ++ (five_digits n ∷ []))
          (meta_dir_name ∷ codes "tmp" ∷ name ∷ []) (inr (beq_refl meta_dir_name, inl refl)))

  -- The directory of an upload lies apart from every object and from every sidecar.
  pub path-upload :
      (bucket key path : Bytes)
      → IsPlain bucket
      → bucket ≢ meta_dir_name
      → key_to_path (abs rs) bucket key ≡ ok path
      → Apart (segments path) (segments (upload_dir env id))
  path-upload bucket key path plain other named =
      let (ks, at_path, _) = file_parts rs plain_root bucket key path plain named in
      rw (at_path, upload_dir-segments)
        (Apart-last rs ks (codes "uploads" ∷ id ∷ []) bucket meta_dir_name
          (other_dir rs plain_root bucket other))

  pub sidecar-upload :
      (bucket key mp : Bytes)
      → IsPlain bucket
      → meta_path (abs rs) bucket key ≡ ok mp
      → Apart (segments mp) (segments (upload_dir env id))
  unfolding beq
  sidecar-upload bucket key mp plain recorded =
      let (init, l, at_sidecar, _) = sidecar_segments rs plain_root bucket key mp plain recorded in
      rw (at_sidecar, upload_dir-segments)
        (Apart-append rs _ upload_parts (inr (beq_refl meta_dir_name, inl refl)))
