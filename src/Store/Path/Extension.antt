-- ===== src/Store/Path/Extension.antt =====
-- Paths with an extension behind the last segment, and paths that part at a segment
-- (internal/store/meta.go, metaPath).
use locals.Base.{
  ℕ, ◌+◌, ◌≤◌, ◌≡◌, ◌≢◌, refl, ap, ◌∙◌, false, List, [], ◌∷◌, ◌++◌, append_assoc, arith, Bytes,
  codes, All, All-append, All-append_left, All-append_right, length, length-append, beq, beq_refl,
  beq_sound, Bool-cases, inl, inr, join, contains_byte, Lacks,
}
use locals.Store.Key.{slash}
use locals.Store.Key.Valid.{IsPlain}
use locals.Store.Path.{segments}
use locals.Store.Path.Clean.{abs}
use locals.Store.Path.RoundTrip.{segments-abs, append_ne_nil}
use locals.Store.Fs.Laws.{Apart}

pub Apart-append : (rs p q : List Bytes) → Apart p q → Apart (rs ++ p) (rs ++ q)
Apart-append [] p q h = h
Apart-append (r ∷ rs) p q h = inr (beq_refl r, Apart-append rs p q h)

-- Paths of files with different names in one directory.
pub Apart-last :
    (rs p q : List Bytes) (s k : Bytes) → beq k s ≡ false → Apart (rs ++ (s ∷ p)) (rs ++ (k ∷ q))
Apart-last rs p q s k h = Apart-append rs (s ∷ p) (k ∷ q) (inl h)

Lacks-append : (c : ℕ) (s t : Bytes) → Lacks c s → Lacks c t → Lacks c (s ++ t)
unfolding contains_byte
Lacks-append c [] t h k = k
Lacks-append c (d ∷ s) t h k = ground (arith, Lacks-append c s t)

pub beq_of_longer : (s t : Bytes) → length t + 1 ≤ length s → beq s t ≡ false
beq_of_longer s t h = elim (Bool-cases (beq s t)) [
  | inl same ↦ absurd (omega (arith, ap (length {A = ℕ}) (beq_sound s t same)))
  | inr other ↦ other
]

-- A segment with an extension behind it.
IsPlain-append : (s ext : Bytes) → IsPlain s → Lacks slash ext → 3 ≤ length ext → IsPlain (s ++ ext)
IsPlain-append s ext (_, _, _, lacks) h long = (
  beq_of_longer (s ++ ext) [] (omega (arith, length-append s ext)),
  beq_of_longer (s ++ ext) (codes ".") (omega (arith, length-append s ext)),
  beq_of_longer (s ++ ext) (codes "..") (omega (arith, length-append s ext)),
  Lacks-append slash s ext lacks h,
)

pub unsnoc :
    (ks : List Bytes) → ks ≢ [] → (init : List Bytes) × (l : Bytes) × (ks ≡ init ++ (l ∷ []))
unsnoc [] h = absurd (h refl)
unsnoc (k ∷ []) h = ([], k, refl)
unsnoc (k ∷ q ∷ ks) h =
    let (init, l, e) = unsnoc (q ∷ ks) (λ e. cc) in (k ∷ init, l, ap (λ (t : List Bytes). k ∷ t) e)

join-snoc :
    (init : List Bytes) (l ext : Bytes) (sep : ℕ)
    → join (init ++ (l ∷ [])) sep ++ ext ≡ join (init ++ ((l ++ ext) ∷ [])) sep
unfolding join
join-snoc [] l ext sep = refl
join-snoc (k ∷ []) l ext sep = append_assoc k (sep ∷ l) ext
join-snoc (k ∷ q ∷ init) l ext sep =
    append_assoc k (sep ∷ join (q ∷ (init ++ (l ∷ []))) sep) ext
    ∙ ap (λ (t : Bytes). k ++ (sep ∷ t)) (join-snoc (q ∷ init) l ext sep)

-- The segments of a path of plain ones with an extension behind it.
pub segments-ext :
    (init : List Bytes) (l ext : Bytes)
    → All IsPlain (init ++ (l ∷ []))
    → Lacks slash ext
    → 3 ≤ length ext
    → segments (abs (init ++ (l ∷ [])) ++ ext) ≡ init ++ ((l ++ ext) ∷ [])
segments-ext init l ext plain h long =
    let plain_last = (All-append_right IsPlain init (l ∷ []) plain).0 in
    ap (λ (t : Bytes). segments (slash ∷ t)) (join-snoc init l ext slash)
    ∙ segments-abs (init ++ ((l ++ ext) ∷ [])) (append_ne_nil init _ (λ e. cc)) (
        All-append IsPlain init ((l ++ ext) ∷ []) (All-append_left IsPlain init (l ∷ []) plain)
          (IsPlain-append l ext plain_last h long, tt))
