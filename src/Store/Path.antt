-- ===== src/Store/Path.antt =====
-- From keys to files and back (internal/store/keypath.go): `BucketPath`, `KeyToPath`, `PathToKey`,
-- `withinDir`, over the functions of package path/filepath that they call (on Unix, where
-- `FromSlash` and `ToSlash` change nothing).
pub mod Clean
pub mod RoundTrip
pub mod Extension
pub mod Layout
use mathlib.Core.List.{reverse}
use locals.Base.{
  ◌≡◌, Bool, true, false, ◌||◌, not, List, [], ◌∷◌, ◌++◌, Bytes, codes, ◌==◌, if◌then◌else◌, beq,
  split, join, has_prefix, trim_suffix, map, Result, ok, err, ◌>>=◌, ◌>>◌,
}
use locals.Store.Error.{Error, invalid_key}
use locals.Store.Key.{slash, validate_key}

abbrev pub dot : Bytes
dot = codes "."

abbrev pub dot_dot : Bytes
dot_dot = codes ".."

-- A `..` takes the last segment back; above the root of a rooted path there is nothing.
pub step_back : Bool → List Bytes → List Bytes
unfolding beq
step_back true [] = []
step_back false [] = dot_dot ∷ []
step_back rooted (top ∷ done) = if beq top dot_dot then dot_dot ∷ top ∷ done else done

-- The loop of `filepath.Clean`; `done` holds the segments that stand so far, last first.
pub clean_segments : Bool → List Bytes → List Bytes → List Bytes
unfolding beq step_back
clean_segments rooted done [] = reverse done
clean_segments rooted done (seg ∷ segs) =
    clean_segments rooted
      (if beq seg [] || beq seg dot
        then done
        else if beq seg dot_dot
        then step_back rooted done
        else seg ∷ done)
      segs

unfoldable pub is_rooted : Bytes → Bool
is_rooted [] = false
is_rooted (c ∷ p) = c == slash

-- `filepath.Clean`
pub clean : Bytes → Bytes
unfolding clean_segments is_rooted split join
clean [] = dot
clean (c ∷ p) = elim (is_rooted (c ∷ p)) [
  | true ↦ slash ∷ join (clean_segments true [] (split (c ∷ p) slash)) slash
  | false ↦ elim (clean_segments false [] (split (c ∷ p) slash)) [
    | [] ↦ dot
    | seg ∷ segs ↦ join (seg ∷ segs) slash
  ]
]

-- `filepath.Join(a, b)`: empty elements are left out.
unfoldable pub join_path : Bytes → Bytes → Bytes
unfolding clean
join_path [] [] = []
join_path [] (d ∷ b) = clean (d ∷ b)
join_path (c ∷ a) b = clean ((c ∷ a) ++ (slash ∷ b))

-- The segments of a cleaned path, without the root.
unfoldable pub segments : Bytes → List Bytes
unfolding split
segments [] = []
segments (c ∷ p) = elim (c == slash) [
  | true ↦ elim p [ [] ↦ [] | d ∷ q ↦ split (d ∷ q) slash ]
  | false ↦ split (c ∷ p) slash
]

-- What is left of two lists of segments behind their common front.
unfoldable pub diverge : List Bytes → List Bytes → List Bytes × List Bytes
unfolding beq
diverge [] ts = ([], ts)
diverge (b ∷ bs) [] = (b ∷ bs, [])
diverge (b ∷ bs) (t ∷ ts) = let rest = diverge bs ts in if beq b t then rest else (b ∷ bs, t ∷ ts)

unfoldable pub climb : List Bytes × List Bytes → Result Error Bytes
unfolding beq join
climb ([], ts) = ok (join ts slash)
climb (b ∷ bs, ts) =
    if beq b dot_dot
    then err invalid_key
    else ok (join (dot_dot ∷ (map (λ _. dot_dot) bs ++ ts)) slash)

abbrev pub differ : Bool → Bool → Bool
differ true r = not r
differ false r = r

-- `filepath.Rel(base, target)`, whose error the callers turn into `ErrInvalidKey`.
unfoldable pub rel : Bytes → Bytes → Result Error Bytes
rel base target =
    let b = clean base in
    let t = clean target in
    if beq t b
    then ok dot
    else if differ (is_rooted b) (is_rooted t)
    then err invalid_key
    else climb (diverge (if beq b dot then [] else segments b) (segments t))

unfoldable pub bucket_path : Bytes → Bytes → Bytes
unfolding join_path
bucket_path root bucket = join_path root bucket

-- Whether `p` lies strictly below `dir`.
unfoldable pub within_dir : Bytes → Bytes → Bool
unfolding beq has_prefix
within_dir dir p = if beq p dir then false else has_prefix p (dir ++ (slash ∷ []))

unfoldable pub key_to_path : Bytes → Bytes → Bytes → Result Error Bytes
key_to_path root bucket key = do
  validate_key key
  let base = bucket_path root bucket
  let p = join_path base (trim_suffix key (slash ∷ []))
  if within_dir base p then ok p else err invalid_key

unfoldable pub path_to_key : Bytes → Bytes → Bytes → Result Error Bytes
path_to_key root bucket path = do
  let base = bucket_path root bucket
  r ← rel base path
  if within_dir base path then ok r else err invalid_key
