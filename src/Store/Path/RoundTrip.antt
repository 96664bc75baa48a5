-- ===== src/Store/Path/RoundTrip.antt =====
-- Where a key's file lies, and the way back from the file to the key.
use mathlib.Core.List.{append_cancel_left}
use locals.Base.{
  ℕ, ◌≡◌, ◌≢◌, refl, sym, ap, ap₂, ◌∙◌, subst, true, false, List, [], ◌∷◌, ◌++◌, append_assoc,
  arith, Bytes, All, All-append, length, length-append, beq, beq_refl, beq_sound, Bool-cases, join,
  split-join, trim_suffix, has_prefix, has_prefix-append, Result, ok, err, ◌>>=◌, inl, inr,
}
use locals.Store.Error.{Error}
use locals.Store.Key.{slash, validate_key, is_dir_marker}
use locals.Store.Key.Valid.{
  IsPlain, plain-Lacks, KeyForm, tail, validate_key_iff, trim_suffix-key, is_dir_marker-marker,
}
use locals.Store.Path.{
  dot, bucket_path, join_path, within_dir, rel, key_to_path, path_to_key, segments, diverge, climb,
  is_rooted,
}
use locals.Store.Path.Clean.{abs, join_path-abs, join-append, clean-abs}

longer : (base x : Bytes) → beq (base ++ (slash ∷ x)) base ≡ false
longer base x = elim (Bool-cases (beq (base ++ (slash ∷ x)) base)) [
  | inl same ↦
      absurd
        (omega (arith, length-append base (slash ∷ x), ap (length {A = ℕ}) (beq_sound _ base same)))
  | inr other ↦ other
]

within_dir-append : (base x : Bytes) → within_dir base (base ++ (slash ∷ x)) ≡ true
unfolding within_dir
within_dir-append base x = rw (longer base x) (
    subst (λ t. has_prefix t (base ++ (slash ∷ [])) ≡ true) (append_assoc base (slash ∷ []) x)
      (has_prefix-append (base ++ (slash ∷ [])) x))

pub append_ne_nil : (rs ks : List Bytes) → ks ≢ [] → rs ++ ks ≢ []
append_ne_nil [] ks h = h
append_ne_nil (r ∷ rs) ks h = λ e. cc

pub segments-abs : (segs : List Bytes) → segs ≢ [] → All IsPlain segs → segments (abs segs) ≡ segs
unfolding segments
segments-abs [] h _ = absurd (h refl)
segments-abs ([] ∷ segs) h ((full, _, _, _), _) = absurd (unfold beq in cc)
segments-abs ((c ∷ s) ∷ []) h plain =
    unfold join in split-join ((c ∷ s) ∷ []) slash h (plain-Lacks ((c ∷ s) ∷ []) plain)
segments-abs ((c ∷ s) ∷ q ∷ segs) h plain =
    unfold join in split-join ((c ∷ s) ∷ q ∷ segs) slash h (plain-Lacks ((c ∷ s) ∷ q ∷ segs) plain)

diverge-append : (bs ks : List Bytes) → diverge bs (bs ++ ks) ≡ ([], ks)
unfolding diverge
diverge-append [] ks = refl
diverge-append (b ∷ bs) ks = rw (beq_refl b) (diverge-append bs ks)

is_rooted-abs : (segs : List Bytes) → is_rooted (abs segs) ≡ true
unfolding is_rooted
is_rooted-abs segs = refl

abs-ne-dot : (segs : List Bytes) → beq (abs segs) dot ≡ false
unfolding beq
abs-ne-dot segs = refl

climb-nil : (ks : List Bytes) → climb ([], ks) ≡ ok (join ks slash)
unfolding climb
climb-nil ks = refl

below-ne : (bs ks : List Bytes) → bs ≢ [] → ks ≢ [] → beq (abs (bs ++ ks)) (abs bs) ≡ false
below-ne bs ks hb hk = rw (join-append bs ks slash hb hk) (longer (abs bs) (join ks slash))

rel-abs :
    (bs ks : List Bytes)
    → bs ≢ []
    → ks ≢ []
    → All IsPlain bs
    → All IsPlain ks
    → rel (abs bs) (abs (bs ++ ks)) ≡ ok (join ks slash)
unfolding rel
rel-abs bs ks hb hk pb pk =
    let pbk = All-append IsPlain bs ks pb pk in
    rw
      (
        clean-abs bs hb pb,
        clean-abs (bs ++ ks) (append_ne_nil bs ks hk) pbk,
        below-ne bs ks hb hk,
        is_rooted-abs bs,
        is_rooted-abs (bs ++ ks),
        abs-ne-dot bs,
        segments-abs bs hb pb,
        segments-abs (bs ++ ks) (append_ne_nil bs ks hk) pbk,
        diverge-append bs ks,
      )
      (climb-nil ks)

-- A storage root, as `filepath.Abs` returns it, and a bucket's name that was validated.
module _ (rs : List Bytes) (plain_root : All IsPlain rs) where
  pub base_segments : (bucket : Bytes) → IsPlain bucket → All IsPlain (rs ++ (bucket ∷ []))
  base_segments bucket h = All-append IsPlain rs (bucket ∷ []) plain_root (h, tt)

  pub base-abs :
      (bucket : Bytes) → IsPlain bucket → bucket_path (abs rs) bucket ≡ abs (rs ++ (bucket ∷ []))
  unfolding bucket_path
  base-abs bucket h = join_path-abs rs (bucket ∷ []) (λ e. cc) plain_root (h, tt)

  file_segments :
      (bucket key : Bytes)
      → IsPlain bucket
      → (f : KeyForm key)
      → abs ((rs ++ (bucket ∷ [])) ++ f.parts)
        ≡ bucket_path (abs rs) bucket ++ (slash ∷ trim_suffix key (slash ∷ []))
  file_segments bucket key h f =
      rw (base-abs bucket h, trim_suffix-key key f)
        (ap (λ (t : Bytes). slash ∷ t)
          (join-append (rs ++ (bucket ∷ [])) f.parts slash (append_ne_nil rs _ (λ e. cc))
            f.some_part))

  join_path-key :
      (bucket key : Bytes)
      → IsPlain bucket
      → KeyForm key
      → join_path (bucket_path (abs rs) bucket) (trim_suffix key (slash ∷ []))
        ≡ bucket_path (abs rs) bucket ++ (slash ∷ trim_suffix key (slash ∷ []))
  join_path-key bucket key h f =
      ap₂ join_path (base-abs bucket h) (trim_suffix-key key f)
      ∙ join_path-abs (rs ++ (bucket ∷ [])) f.parts f.some_part (base_segments bucket h) f.plain
      ∙ file_segments bucket key h f

  -- A key is refused exactly where `ValidateKey` refuses it, with its error. Any other key is the
  -- file whose path is the bucket's directory, a slash, and the key less its trailing slash.
  pub key_to_path_lem :
      (bucket key : Bytes)
      → IsPlain bucket
      → key_to_path (abs rs) bucket key ≡ (
          validate_key key >>= λ _.
          ok (bucket_path (abs rs) bucket ++ (slash ∷ trim_suffix key (slash ∷ []))))
  unfolding key_to_path
  key_to_path_lem bucket key h = go (validate_key key) refl
    where
      go :
          (r : Result Error (Unit {0}))
          → validate_key key ≡ r
          → key_to_path (abs rs) bucket key ≡ (
              r >>= λ _. ok (bucket_path (abs rs) bucket ++ (slash ∷ trim_suffix key (slash ∷ []))))
      go (ok u) e =
          let f = ((validate_key_iff key).0 e).3 in
          rw (e, join_path-key bucket key h f, within_dir-append)
      go (err x) e = rw e

  path_to_key-file :
      (bucket key : Bytes)
      → IsPlain bucket
      → KeyForm key
      → path_to_key
          (abs rs)
          bucket
          (bucket_path (abs rs) bucket ++ (slash ∷ trim_suffix key (slash ∷ [])))
        ≡ ok (trim_suffix key (slash ∷ []))
  unfolding path_to_key
  path_to_key-file bucket key h f =
      let bs = rs ++ (bucket ∷ []) in
      let below =
        rel-abs bs f.parts (append_ne_nil rs _ (λ e. cc)) f.some_part (base_segments bucket h)
          f.plain in
      let e : rel (bucket_path (abs rs) bucket)
            (bucket_path (abs rs) bucket ++ (slash ∷ trim_suffix key (slash ∷ [])))
          ≡ ok (trim_suffix key (slash ∷ [])) =
        ap₂ rel (base-abs bucket h) (sym (file_segments bucket key h f))
        ∙ below
        ∙ ap ok (sym (trim_suffix-key key f)) in
      rw (e, within_dir-append (bucket_path (abs rs) bucket) (trim_suffix key (slash ∷ [])))

  pub file_of_ok :
      (bucket key p : Bytes)
      → IsPlain bucket
      → key_to_path (abs rs) bucket key ≡ ok p
      → (validate_key key ≡ ok tt)
        × (p ≡ bucket_path (abs rs) bucket ++ (slash ∷ trim_suffix key (slash ∷ [])))
  file_of_ok bucket key p h e = go (validate_key key) refl
    where
      go :
          (r : Result Error (Unit {0}))
          → validate_key key ≡ r
          → (validate_key key ≡ ok tt)
            × (p ≡ bucket_path (abs rs) bucket ++ (slash ∷ trim_suffix key (slash ∷ [])))
      go (ok tt) v = (v, ground (arith, key_to_path_lem bucket key h))
      go (err x) v = absurd (ground (arith, key_to_path_lem bucket key h))

  split_file :
      (bucket : Bytes) (ks : List Bytes)
      → IsPlain bucket
      → ks ≢ []
      → All IsPlain ks
      → segments (abs ((rs ++ (bucket ∷ [])) ++ ks)) ≡ (rs ++ (bucket ∷ [])) ++ ks
  split_file bucket ks h n pk =
      segments-abs _ (append_ne_nil (rs ++ (bucket ∷ [])) ks n)
        (All-append IsPlain (rs ++ (bucket ∷ [])) ks (base_segments bucket h) pk)

  -- The file that `KeyToPath` gives for a key leads `PathToKey` back to the key, less the slash
  -- that marks a directory.
  pub path_to_key-key_to_path :
      (bucket key p : Bytes)
      → IsPlain bucket
      → key_to_path (abs rs) bucket key ≡ ok p
      → path_to_key (abs rs) bucket p ≡ ok (trim_suffix key (slash ∷ []))
  path_to_key-key_to_path bucket key p h e =
      let (v, same) = file_of_ok bucket key p h e in
      ap (path_to_key (abs rs) bucket) same
      ∙ path_to_key-file bucket key h ((validate_key_iff key).0 v).3

  parts_of_file :
      (bucket bucket' : Bytes) (ks ks' : List Bytes)
      → IsPlain bucket
      → IsPlain bucket'
      → ks ≢ []
      → ks' ≢ []
      → All IsPlain ks
      → All IsPlain ks'
      → abs ((rs ++ (bucket ∷ [])) ++ ks) ≡ abs ((rs ++ (bucket' ∷ [])) ++ ks')
      → (bucket ≡ bucket') × (ks ≡ ks')
  parts_of_file bucket bucket' ks ks' h h' n n' pk pk' e =
      let all_parts = split_file bucket ks h n pk in
      let all_parts' = split_file bucket' ks' h' n' pk' in
      let together : (rs ++ (bucket ∷ [])) ++ ks ≡ (rs ++ (bucket' ∷ [])) ++ ks' =
        sym all_parts ∙ ap segments e ∙ all_parts' in
      let behind : bucket ∷ ks ≡ bucket' ∷ ks' =
        append_cancel_left rs (bucket ∷ ks) (bucket' ∷ ks') (
          sym (append_assoc rs (bucket ∷ []) ks) ∙ together ∙ append_assoc rs (bucket' ∷ []) ks') in
      (cc, cc)

  -- The path of a key's file, by its segments.
  pub key_to_path-abs :
      (bucket key p : Bytes)
      → IsPlain bucket
      → key_to_path (abs rs) bucket key ≡ ok p
      → (f : KeyForm key) × (p ≡ abs ((rs ++ (bucket ∷ [])) ++ f.parts))
  key_to_path-abs bucket key p h e =
      let (v, same) = file_of_ok bucket key p h e in
      let f = ((validate_key_iff key).0 v).3 in (f, same ∙ sym (file_segments bucket key h f))

  -- Two keys, both or neither of them marking a directory, that share a file are one key in one
  -- bucket.
  pub key_to_path_injective :
      (bucket bucket' key key' p : Bytes)
      → IsPlain bucket
      → IsPlain bucket'
      → key_to_path (abs rs) bucket key ≡ ok p
      → key_to_path (abs rs) bucket' key' ≡ ok p
      → is_dir_marker key ≡ is_dir_marker key'
      → (bucket ≡ bucket') × (key ≡ key')
  key_to_path_injective bucket bucket' key key' p h h' e e' m =
      let (v, same) = file_of_ok bucket key p h e in
      let (v', same') = file_of_ok bucket' key' p h' e' in
      let f = ((validate_key_iff key).0 v).3 in
      let f' = ((validate_key_iff key').0 v').3 in
      let (one_bucket, one_list) =
        parts_of_file bucket bucket' f.parts f'.parts h h' f.some_part f'.some_part f.plain f'.plain
          (file_segments bucket key h f
            ∙ sym same
            ∙ same'
            ∙ sym (file_segments bucket' key' h' f')) in
      (
        one_bucket,
        f.spelled
            ∙ ap₂ (λ ks b. join ks slash ++ tail b) one_list
                (sym (is_dir_marker-marker key f) ∙ m ∙ is_dir_marker-marker key' f')
            ∙ sym f'.spelled,
      )
