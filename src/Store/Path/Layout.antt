-- ===== src/Store/Path/Layout.antt =====
-- Where the files of one object lie: the object's own, its sidecar, and the temporary ones.
use locals.Base.{
  ◌≤◌, ◌≡◌, ◌≢◌, refl, sym, ap, ◌∙◌, subst, false, List, [], ◌∷◌, ◌++◌, append_assoc, arith, Bytes,
  codes, All, All-append, length, length-append, beq, beq_refl, beq_sound, Bool-cases, inl, inr,
  join, trim_suffix, ◌>>=◌, contains_byte, Lacks, Result, ok, err, if◌then◌else◌,
}
use locals.Store.Error.{Error}
use locals.Store.Key.{slash, is_dir_marker, meta_dir_name}
use locals.Store.Key.Valid.{IsPlain}
use locals.Store.Path.{bucket_path, join_path, key_to_path, segments}
use locals.Store.Path.Extension.{Apart-append, Apart-last, beq_of_longer, unsnoc, segments-ext}
use locals.Store.Path.Clean.{abs, join_path-abs}
use locals.Store.Path.RoundTrip.{
  file_of_ok, key_to_path_lem, key_to_path-abs, base-abs, base_segments, segments-abs,
  append_ne_nil,
}
use locals.Store.Fs.Laws.{Apart}
use locals.Store.Meta.{meta_root, meta_path}

abbrev pub temp_of : Bytes → Bytes → Bytes
temp_of root name = join_path (join_path root (meta_dir_name ++ codes "/tmp")) name

-- The files of one object and the temporary ones lie apart from each other.
pub record AreApart (temp path mp : Bytes) : Type 0 where
  pub path-temp : Apart (segments path) (segments temp)
  pub path-sidecar : Apart (segments path) (segments mp)
  pub path-sidecar_tmp : Apart (segments path) (segments (mp ++ codes ".tmp"))
  pub sidecar-temp : Apart (segments mp) (segments temp)
  pub sidecar-sidecar_tmp : Apart (segments mp) (segments (mp ++ codes ".tmp"))

tmp_names : All IsPlain (meta_dir_name ∷ codes "tmp" ∷ [])
unfolding beq contains_byte
tmp_names = ((refl, refl, refl, refl), ((refl, refl, refl, refl), tt))

meta_names : All IsPlain (meta_dir_name ∷ codes "meta" ∷ [])
unfolding beq contains_byte
meta_names = ((refl, refl, refl, refl), ((refl, refl, refl, refl), tt))

module _ (rs : List Bytes) (plain_root : All IsPlain rs) where
  temp_of-abs :
      (name : Bytes)
      → IsPlain name
      → temp_of (abs rs) name ≡ abs (rs ++ (meta_dir_name ∷ codes "tmp" ∷ name ∷ []))
  unfolding join
  temp_of-abs name plain =
      ap (λ d. join_path d name)
        (join_path-abs rs (meta_dir_name ∷ codes "tmp" ∷ []) (λ e. cc) plain_root tmp_names)
      ∙ join_path-abs (rs ++ (meta_dir_name ∷ codes "tmp" ∷ [])) (name ∷ []) (λ e. cc)
          (All-append IsPlain rs (meta_dir_name ∷ codes "tmp" ∷ []) plain_root tmp_names)
          (plain, tt)
      ∙ ap abs (append_assoc rs (meta_dir_name ∷ codes "tmp" ∷ []) (name ∷ []))

  meta_root-abs : meta_root (abs rs) ≡ abs (rs ++ (meta_dir_name ∷ codes "meta" ∷ []))
  unfolding join
  meta_root-abs =
      join_path-abs rs (meta_dir_name ∷ codes "meta" ∷ []) (λ e. cc) plain_root meta_names

  abbrev ext_of : Bytes → Bytes
  ext_of key = if is_dir_marker key then codes ".dirmarker.json" else codes ".json"

  ext_lem :
      (key : Bytes)
      → Lacks slash (ext_of key)
        × (3 ≤ length (ext_of key))
        × Lacks slash (ext_of key ++ codes ".tmp")
  unfolding contains_byte
  ext_lem key = elim (Bool-cases (is_dir_marker key)) [
    | inl marker ↦ rw marker (refl, omega arith, refl)
    | inr object ↦ rw object (refl, omega arith, refl)
  ]

  meta_path_parts :
      (bucket key mp : Bytes)
      → meta_path (abs rs) bucket key ≡ ok mp
      → (p : Bytes) × (key_to_path (meta_root (abs rs)) bucket key ≡ ok p) × (mp ≡ p ++ ext_of key)
  unfolding meta_path
  meta_path_parts bucket key mp h = go (key_to_path (meta_root (abs rs)) bucket key) refl h
    where
      go :
          (r : Result Error Bytes)
          → key_to_path (meta_root (abs rs)) bucket key ≡ r
          → (elim r as (λ _. Result Error Bytes) [ ok p ↦ ok (p ++ ext_of key) | err e ↦ err e ])
            ≡ ok mp
          → (p : Bytes) × (key_to_path (meta_root (abs rs)) bucket key ≡ ok p)
            × (mp ≡ p ++ ext_of key)
      go (ok p) e h = (p, e, cc)
      go (err x) e h = absurd cc

  -- The segments of a sidecar's path and of its temporary file's.
  pub sidecar_segments :
      (bucket key mp : Bytes)
      → IsPlain bucket
      → meta_path (abs rs) bucket key ≡ ok mp
      → (init : List Bytes) × (l : Bytes) × (segments mp
          ≡ rs ++ (meta_dir_name ∷ codes "meta" ∷ bucket ∷ (init ++ ((l ++ ext_of key) ∷ []))))
        × (segments (mp ++ codes ".tmp")
            ≡ rs
              ++ (meta_dir_name
                  ∷ codes "meta"
                  ∷ bucket
                  ∷ (init ++ ((l ++ (ext_of key ++ codes ".tmp")) ∷ []))))
  sidecar_segments bucket key mp plain h =
      let metas : List Bytes = meta_dir_name ∷ codes "meta" ∷ [] in
      let (p, found, same) = meta_path_parts bucket key mp h in
      let found' : key_to_path (abs (rs ++ metas)) bucket key ≡ ok p =
        subst (λ r. key_to_path r bucket key ≡ ok p) meta_root-abs found in
      let plain_meta : All IsPlain (rs ++ metas) =
        All-append IsPlain rs metas plain_root meta_names in
      let (f, shape) = key_to_path-abs (rs ++ metas) plain_meta bucket key p plain found' in
      let (init, l, last) = unsnoc f.parts f.some_part in
      let big : List Bytes = ((rs ++ metas) ++ (bucket ∷ [])) ++ init in
      let shape' : p ≡ abs (big ++ (l ∷ [])) =
        shape
        ∙ ap (λ ks. abs (((rs ++ metas) ++ (bucket ∷ [])) ++ ks)) last
        ∙ ap abs (sym (append_assoc ((rs ++ metas) ++ (bucket ∷ [])) init (l ∷ []))) in
      let all_plain : All IsPlain (big ++ (l ∷ [])) =
        subst (All IsPlain) (sym (append_assoc ((rs ++ metas) ++ (bucket ∷ [])) init (l ∷ []))) (
          All-append IsPlain ((rs ++ metas) ++ (bucket ∷ [])) (init ++ (l ∷ []))
            (All-append IsPlain (rs ++ metas) (bucket ∷ []) plain_meta (plain, tt))
            (subst (All IsPlain) last f.plain)) in
      let (lacks, long, lacks_tmp) = ext_lem key in
      let regroup : (x : Bytes)
          → big ++ (x ∷ []) ≡ rs ++ (meta_dir_name ∷ codes "meta" ∷ bucket ∷ (init ++ (x ∷ []))) =
        λ x. simp append_assoc in
      (
        init,
        l,
        ap segments (same ∙ ap (λ (t : Bytes). t ++ ext_of key) shape')
            ∙ segments-ext big l (ext_of key) all_plain lacks long
            ∙ regroup (l ++ ext_of key),
        ap segments (
              ap (λ (t : Bytes). t ++ codes ".tmp")
                (same ∙ ap (λ (t : Bytes). t ++ ext_of key) shape')
              ∙ append_assoc (abs (big ++ (l ∷ []))) (ext_of key) (codes ".tmp"))
            ∙ segments-ext big l (ext_of key ++ codes ".tmp") all_plain lacks_tmp
                (omega (arith, length-append (ext_of key) (codes ".tmp")))
            ∙ regroup (l ++ (ext_of key ++ codes ".tmp")),
      )

  pub other_dir : (bucket : Bytes) → bucket ≢ meta_dir_name → beq meta_dir_name bucket ≡ false
  other_dir bucket other = elim (Bool-cases (beq meta_dir_name bucket)) [
    | inl same ↦ absurd (other (sym (beq_sound meta_dir_name bucket same)))
    | inr differs ↦ differs
  ]

  pub file_parts :
      (bucket key path : Bytes)
      → IsPlain bucket
      → key_to_path (abs rs) bucket key ≡ ok path
      → (ks : List Bytes) × (segments path ≡ rs ++ (bucket ∷ ks)) × (ks ≢ [])
  file_parts bucket key path plain h =
      let (f, shape) = key_to_path-abs rs plain_root bucket key path plain h in
      (
        f.parts,
        ap segments shape
            ∙ segments-abs ((rs ++ (bucket ∷ [])) ++ f.parts)
                (append_ne_nil (rs ++ (bucket ∷ [])) f.parts f.some_part)
                (All-append IsPlain (rs ++ (bucket ∷ [])) f.parts
                  (All-append IsPlain rs (bucket ∷ []) plain_root (plain, tt)) f.plain)
            ∙ append_assoc rs (bucket ∷ []) f.parts,
        f.some_part,
      )

  pub temp_parts :
      (name : Bytes)
      → IsPlain name
      → segments (temp_of (abs rs) name) ≡ rs ++ (meta_dir_name ∷ codes "tmp" ∷ name ∷ [])
  temp_parts name plain =
      ap segments (temp_of-abs name plain)
      ∙ segments-abs (rs ++ (meta_dir_name ∷ codes "tmp" ∷ name ∷ []))
          (append_ne_nil rs (meta_dir_name ∷ codes "tmp" ∷ name ∷ []) (λ e. cc))
          (All-append IsPlain rs (meta_dir_name ∷ codes "tmp" ∷ name ∷ []) plain_root
            (tmp_names.0, (tmp_names.1.0, (plain, tt))))

  pub AreApart_lem :
      (bucket key name path mp : Bytes)
      → IsPlain bucket
      → bucket ≢ meta_dir_name
      → IsPlain name
      → key_to_path (abs rs) bucket key ≡ ok path
      → meta_path (abs rs) bucket key ≡ ok mp
      → AreApart (temp_of (abs rs) name) path mp
  unfolding beq
  AreApart_lem bucket key name path mp plain other plain_name named recorded =
      let (ks, at_path, _) = file_parts bucket key path plain named in
      let (init, l, at_sidecar, at_sidecar_tmp) = sidecar_segments bucket key mp plain recorded in
      let at_temp = temp_parts name plain_name in
      let differs = other_dir bucket other in
      let longer : beq (l ++ (ext_of key ++ codes ".tmp")) (l ++ ext_of key) ≡ false =
        beq_of_longer (l ++ (ext_of key ++ codes ".tmp")) (l ++ ext_of key) (
          omega (
            arith,
            length-append l (ext_of key ++ codes ".tmp"),
            length-append l (ext_of key),
            length-append (ext_of key) (codes ".tmp"),
          )) in
      let before : List Bytes = meta_dir_name ∷ codes "meta" ∷ bucket ∷ init in
      record {
        path-temp =
            rw (at_path, at_temp)
              (Apart-last rs ks (codes "tmp" ∷ name ∷ []) bucket meta_dir_name differs);
        path-sidecar =
            rw (at_path, at_sidecar)
              (Apart-last rs ks (codes "meta" ∷ bucket ∷ (init ++ ((l ++ ext_of key) ∷ []))) bucket
                meta_dir_name differs);
        path-sidecar_tmp =
            rw (at_path, at_sidecar_tmp)
              (Apart-last rs ks
                (codes "meta" ∷ bucket ∷ (init ++ ((l ++ (ext_of key ++ codes ".tmp")) ∷ [])))
                bucket meta_dir_name differs);
        sidecar-temp =
            rw (at_sidecar, at_temp)
              (Apart-append rs
                (meta_dir_name ∷ codes "meta" ∷ bucket ∷ (init ++ ((l ++ ext_of key) ∷ [])))
                (meta_dir_name ∷ codes "tmp" ∷ name ∷ []) (inr (beq_refl meta_dir_name, inl refl)));
        sidecar-sidecar_tmp =
            rw (at_sidecar, at_sidecar_tmp)
              (Apart-append rs (before ++ ((l ++ ext_of key) ∷ []))
                (before ++ ((l ++ (ext_of key ++ codes ".tmp")) ∷ []))
                (Apart-last before [] [] (l ++ ext_of key) (l ++ (ext_of key ++ codes ".tmp"))
                  longer));
      }

  bucket_segments :
      (bucket : Bytes)
      → IsPlain bucket
      → segments (bucket_path (abs rs) bucket) ≡ rs ++ (bucket ∷ [])
  bucket_segments bucket plain =
      ap segments (base-abs rs plain_root bucket plain)
      ∙ segments-abs (rs ++ (bucket ∷ [])) (append_ne_nil rs (bucket ∷ []) (λ e. cc))
          (base_segments rs plain_root bucket plain)

  -- No sidecar lies in a bucket.
  pub bucket-sidecar :
      (bucket key mp : Bytes)
      → IsPlain bucket
      → bucket ≢ meta_dir_name
      → meta_path (abs rs) bucket key ≡ ok mp
      → Apart (segments (bucket_path (abs rs) bucket)) (segments mp)
  bucket-sidecar bucket key mp plain other recorded =
      let (init, l, at_sidecar, _) = sidecar_segments bucket key mp plain recorded in
      rw (bucket_segments bucket plain, at_sidecar)
        (Apart-last rs [] (codes "meta" ∷ bucket ∷ (init ++ ((l ++ ext_of key) ∷ []))) bucket
          meta_dir_name (other_dir bucket other))

  -- Above the file of a key stands its bucket.
  pub bucket-above :
      (bucket key path : Bytes)
      → IsPlain bucket
      → key_to_path (abs rs) bucket key ≡ ok path
      → (x : Bytes) × (q : List Bytes) × (segments path
          ≡ segments (bucket_path (abs rs) bucket) ++ (x ∷ q))
  bucket-above bucket key path plain named =
      let (ks, at_path, some_part) = file_parts bucket key path plain named in
      go ks some_part (
        at_path
        ∙ sym (append_assoc rs (bucket ∷ []) ks)
        ∙ ap (λ (b : List Bytes). b ++ ks) (sym (bucket_segments bucket plain)))
    where
      go :
          (ks : List Bytes)
          → ks ≢ []
          → segments path ≡ segments (bucket_path (abs rs) bucket) ++ ks
          → (x : Bytes) × (q : List Bytes) × (segments path
              ≡ segments (bucket_path (abs rs) bucket) ++ (x ∷ q))
      go [] h e = absurd (h refl)
      go (x ∷ q) h e = (x, q, e)

  -- A key that has a file has a sidecar.
  pub meta_path_total :
      (bucket key path : Bytes)
      → IsPlain bucket
      → key_to_path (abs rs) bucket key ≡ ok path
      → (mp : Bytes) × (meta_path (abs rs) bucket key ≡ ok mp)
  unfolding meta_path
  meta_path_total bucket key path plain named =
      let metas : List Bytes = meta_dir_name ∷ codes "meta" ∷ [] in
      let valid = (file_of_ok rs plain_root bucket key path plain named).0 in
      let p : Bytes =
        bucket_path (abs (rs ++ metas)) bucket ++ (slash ∷ trim_suffix key (slash ∷ [])) in
      let found : key_to_path (abs (rs ++ metas)) bucket key ≡ ok p =
        key_to_path_lem (rs ++ metas) (All-append IsPlain rs metas plain_root meta_names) bucket key
          plain
        ∙ ap (λ r. r >>= λ _. ok p) valid in
      let found' : key_to_path (meta_root (abs rs)) bucket key ≡ ok p =
        subst (λ r. key_to_path r bucket key ≡ ok p) (sym meta_root-abs) found in
      (p ++ ext_of key, rw (found', meta_path))
