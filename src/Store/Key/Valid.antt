-- ===== src/Store/Key/Valid.antt =====
-- The keys that `ValidateKey` accepts: plain segments joined by slashes, and at most one slash
-- behind them.
use locals.Base.{
  ℕ, suc, ◌+◌, ◌-◌, ◌≤◌, ◌<◌, ◌≡◌, ◌≢◌, ◌↔◌, ◌⊎◌, inl, inr, refl, sym, ap, ◌∙◌, subst, Bool, true,
  false, List, [], ◌∷◌, ◌++◌, append_assoc, append-nil, arith, Bytes, codes, ◌==◌, Bool-cases,
  length, All, beq, beq_sound, contains_byte, split, join, Lacks, split-Lacks, split-ne-nil,
  split-append, split_of_Lacks, join-split, has_suffix, trim_suffix, has_suffix-append,
  trim_suffix-append, drop-length_append, length-append, ok,
}
use locals.Store.Key.{slash, check_segments, validate_key, is_dir_marker, max_key_length}
use locals.Store.Utf8.{valid_utf8}

-- A segment that names an entry of a directory.
abbrev pub IsPlain : Bytes → Type 0
IsPlain seg =
    (beq seg [] ≡ false)
    × (beq seg (codes ".") ≡ false)
    × (beq seg (codes "..") ≡ false)
    × Lacks slash seg

abbrev pub tail : Bool → Bytes
tail true = slash ∷ []
tail false = []

abbrev tail_segment : Bool → List Bytes
tail_segment true = [] ∷ []
tail_segment false = []

-- An empty segment passes only at the end, and not as the first.
last_empty :
    (i n : ℕ) (segs : List Bytes)
    → n ≡ i + suc (length segs)
    → check_segments i n ([] ∷ segs) ≡ ok tt
    → (segs ≡ []) × (0 < i)
unfolding check_segments
last_empty i n [] e h = (refl, ground arith)
last_empty i n (s ∷ segs) e h = absurd (ground arith)

plain_step :
    (i n : ℕ) (seg : Bytes) (segs : List Bytes)
    → beq seg [] ≡ false
    → check_segments i n (seg ∷ segs) ≡ ok tt
    → (beq seg (codes ".") ≡ false)
      × (beq seg (codes "..") ≡ false)
      × (check_segments (suc i) n segs ≡ ok tt)
unfolding check_segments
plain_step i n seg segs full h = ground arith

-- Where the loop passes, the segments are plain but for an empty one at the end.
check_segments_sound :
    (i n : ℕ) (segs : List Bytes)
    → n ≡ i + length segs
    → All (Lacks slash) segs
    → check_segments i n segs ≡ ok tt
    → (ks : List Bytes) × (m : Bool) × All IsPlain ks
      × (segs ≡ ks ++ tail_segment m)
      × (0 < i + length ks ⊎ segs ≡ [])
check_segments_sound i n [] e lacks h = ([], false, tt, refl, inr refl)
check_segments_sound i n (seg ∷ segs) e (hs, lacks) h = elim (Bool-cases (beq seg [])) [
  | inl empty ↦
      let e' = beq_sound seg [] empty in
      let (none_left, later) =
        last_empty i n segs e (subst (λ s. check_segments i n (s ∷ segs) ≡ ok tt) e' h) in
      ([], true, tt, rw (e', none_left), inl (omega arith))
  | inr full ↦
      let (no_dot, no_dots, rest) = plain_step i n seg segs full h in
      let (ks, m, plain, same, pos) =
        check_segments_sound (suc i) n segs (omega arith) lacks rest in
      (
        seg ∷ ks,
        m,
        ((full, no_dot, no_dots, hs), plain),
        ap (λ (t : List Bytes). seg ∷ t) same,
        inl (omega arith),
      )
]

check_segments_complete :
    (i n : ℕ) (ks : List Bytes) (m : Bool)
    → n ≡ i + length (ks ++ tail_segment m)
    → 0 < i + length ks
    → All IsPlain ks
    → check_segments i n (ks ++ tail_segment m) ≡ ok tt
unfolding check_segments
check_segments_complete i n [] true e pos h = ground arith
check_segments_complete i n [] false e pos h = refl
check_segments_complete i n (k ∷ ks) m e pos ((full, no_dot, no_dots, _), h) =
    rw (full, no_dot, no_dots)
      (check_segments_complete (suc i) n ks m (omega arith) (omega arith) h)

-- What a key is: plain segments, at least one, and whether a slash marks a directory.
pub record KeyForm (key : Bytes) : Type 0 where
  pub parts : List Bytes
  pub marker : Bool
  pub some_part : parts ≢ []
  pub plain : All IsPlain parts
  pub spelled : key ≡ join parts slash ++ tail marker

pub plain-Lacks : (ks : List Bytes) → All IsPlain ks → All (Lacks slash) ks
plain-Lacks [] _ = tt
plain-Lacks (k ∷ ks) ((_, _, _, h), hs) = (h, plain-Lacks ks hs)

split-tail :
    (ks : List Bytes) (m : Bool)
    → ks ≢ []
    → All (Lacks slash) ks
    → split (join ks slash ++ tail m) slash ≡ ks ++ tail_segment m
unfolding join
split-tail [] m h _ = absurd (h refl)
split-tail (k ∷ []) true h (hk, _) = split-append k [] slash hk ∙ unfold split in refl
split-tail (k ∷ []) false h (hk, _) = rw append-nil (split_of_Lacks k slash hk)
split-tail (k ∷ l ∷ ks) m h (hk, hs) = rw append_assoc (
    split-append k _ slash hk ∙ ap (λ (t : List Bytes). k ∷ t) (split-tail (l ∷ ks) m (λ e. cc) hs))

join-tail :
    (ks : List Bytes) (m : Bool)
    → ks ≢ []
    → join (ks ++ tail_segment m) slash ≡ join ks slash ++ tail m
unfolding join
join-tail [] m h = absurd (h refl)
join-tail (k ∷ []) true h = refl
join-tail (k ∷ []) false h = rw append-nil
join-tail (k ∷ l ∷ ks) m h = rw (append_assoc, join-tail (l ∷ ks) m (λ e. cc))

nonempty_of_length : (ks : List Bytes) → 0 < length ks → ks ≢ []
nonempty_of_length [] h = absurd (omega arith)
nonempty_of_length (k ∷ ks) h = λ e. cc

segments_sound :
    (key : Bytes)
    → check_segments 0 (length (split key slash)) (split key slash) ≡ ok tt
    → KeyForm key
segments_sound key h =
    let (ks, m, plain, same, pos) =
      check_segments_sound 0 _ (split key slash) (omega arith) (split-Lacks key slash) h in
    let nonempty : ks ≢ [] = elim pos [
      | inl p ↦ nonempty_of_length ks (omega arith)
      | inr e ↦ absurd (split-ne-nil key slash e)
    ] in
    record {
      parts = ks;
      marker = m;
      some_part = nonempty;
      plain = plain;
      spelled = sym (join-split key slash) ∙ ap (λ t. join t slash) same ∙ join-tail ks m nonempty;
    }

segments_complete :
    (key : Bytes)
    → KeyForm key
    → check_segments 0 (length (split key slash)) (split key slash) ≡ ok tt
segments_complete key f =
    let e =
      ap (λ t. split t slash) f.spelled
      ∙ split-tail f.parts f.marker f.some_part (plain-Lacks f.parts f.plain) in
    subst (λ t. check_segments 0 (length t) t ≡ ok tt) (sym e)
      (check_segments_complete 0 _ f.parts f.marker (omega arith) (positive f.parts f.some_part)
        f.plain)
  where
    positive : (ks : List Bytes) → ks ≢ [] → 0 < 0 + length ks
    positive [] h = absurd (h refl)
    positive (k ∷ ks) h = omega arith

-- Plain segments end in a byte that is no slash.
seg_last :
    (seg : Bytes)
    → beq seg [] ≡ false
    → Lacks slash seg
    → (init : Bytes) × (c : ℕ) × (seg ≡ init ++ (c ∷ [])) × ((c == slash) ≡ false)
unfolding beq contains_byte
seg_last [] full h = cc
seg_last (c ∷ []) full h = ([], c, refl, ground arith)
seg_last (c ∷ d ∷ s) full h =
    let (init, e, same, other) = seg_last (d ∷ s) refl (ground arith) in
    (c ∷ init, e, ap (λ (t : Bytes). c ∷ t) same, other)

join_last :
    (ks : List Bytes)
    → ks ≢ []
    → All IsPlain ks
    → (init : Bytes) × (c : ℕ) × (join ks slash ≡ init ++ (c ∷ [])) × ((c == slash) ≡ false)
unfolding join
join_last [] h _ = absurd (h refl)
join_last (k ∷ []) h ((full, _, _, lacks), _) = seg_last k full lacks
join_last (k ∷ l ∷ ks) h (_, hs) =
    let (init, c, same, other) = join_last (l ∷ ks) (λ e. cc) hs in
    (k ++ (slash ∷ init), c, rw same (sym (append_assoc k (slash ∷ init) (c ∷ []))), other)

has_suffix_snoc :
    (init : Bytes) (c : ℕ)
    → (c == slash) ≡ false
    → has_suffix (init ++ (c ∷ [])) (slash ∷ []) ≡ false
unfolding has_suffix beq
has_suffix_snoc init c h =
    let e : length (init ++ (c ∷ [])) - 1 ≡ length init =
      omega (arith, length-append init (c ∷ [])) in
    rw (e, drop-length_append init (c ∷ []), h) (ground arith)

pub has_suffix-join :
    (ks : List Bytes) → ks ≢ [] → All IsPlain ks → has_suffix (join ks slash) (slash ∷ []) ≡ false
has_suffix-join ks h plain =
    let (init, c, same, other) = join_last ks h plain in rw same (has_suffix_snoc init c other)

-- `IsDirMarker` tells the keys with the slash behind.
pub is_dir_marker-marker : (key : Bytes) (f : KeyForm key) → is_dir_marker key ≡ f.marker
unfolding is_dir_marker
is_dir_marker-marker key f = ap (λ t. has_suffix t (slash ∷ [])) f.spelled ∙ go f.marker
  where
    go : (m : Bool) → has_suffix (join f.parts slash ++ tail m) (slash ∷ []) ≡ m
    go true = has_suffix-append (join f.parts slash) (slash ∷ [])
    go false =
        ap (λ t. has_suffix t (slash ∷ [])) (append-nil (join f.parts slash))
        ∙ has_suffix-join f.parts f.some_part f.plain

-- Without the slash behind, a key is its segments.
pub trim_suffix-key :
    (key : Bytes) (f : KeyForm key) → trim_suffix key (slash ∷ []) ≡ join f.parts slash
trim_suffix-key key f = ap (λ t. trim_suffix t (slash ∷ [])) f.spelled ∙ go f.marker
  where
    go : (m : Bool) → trim_suffix (join f.parts slash ++ tail m) (slash ∷ []) ≡ join f.parts slash
    go true = trim_suffix-append (join f.parts slash) (slash ∷ [])
    go false =
        ap (λ t. trim_suffix t (slash ∷ [])) (append-nil (join f.parts slash))
        ∙ unfold trim_suffix in rw (has_suffix-join f.parts f.some_part f.plain, trim_suffix)

append-ne-nil : (s t : Bytes) (c : ℕ) → beq ((s ++ (c ∷ [])) ++ t) [] ≡ false
unfolding beq
append-ne-nil [] t c = refl
append-ne-nil (d ∷ s) t c = refl

key_nonempty : (key : Bytes) → KeyForm key → beq key [] ≡ false
key_nonempty key f =
    let (init, c, same, _) = join_last f.parts f.some_part f.plain in
    rw (f.spelled, same) (append-ne-nil init (tail f.marker) c)

-- A key is accepted exactly when it has at most 1024 bytes, is valid UTF-8, holds no NUL byte, and
-- is one or more plain segments (not empty, `.` or `..`) joined by slashes with at most one slash
-- behind them.
pub validate_key_iff :
    (key : Bytes)
    → (validate_key key ≡ ok tt) ↔ (
        (length key ≤ max_key_length)
        × (valid_utf8 key ≡ true)
        × (contains_byte key 0 ≡ false)
        × KeyForm key)
unfolding validate_key
validate_key_iff key = (
  (λ h. (ground arith, ground arith, ground arith, segments_sound key (ground arith))),
  (λ (short, utf8, no_nul, f). ground (arith, key_nonempty key f, segments_complete key f)),
)
