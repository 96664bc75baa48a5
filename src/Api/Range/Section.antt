-- ===== src/Api/Range/Section.antt =====
-- What a ranged read makes of a range that the header gives (internal/store/fs.go, `GetObjectRange`;
-- internal/s3api/ranges.go).
use locals.Base.{
  ℕ, zero, suc, ◌≡◌, refl, sym, ap, ◌∙◌, Bool-cases, [], ◌++◌, some, arith, Bytes, length, take,
  drop, take-append-drop, length-take, length-drop, inl, inr, Result, ok, err,
}
use locals.Store.Error.{Error}
use locals.Store.Path.{segments}
use locals.Store.Key.{is_dir_marker}
use locals.Store.Fs.{Node, read_file}
use locals.Store.Info.{Env, ObjectInfo}
use locals.Store.Monad.{M, ◌>>=◌, return, ask_or, bind_done}
use locals.Store.Object.{not_found, open_found, section, stat_object, get_object, get_object_range}
use locals.Api.Range.{ByteRange, parse_range}
use locals.Api.Range.Laws.{inside_at}

section-nil : (offset len : ℕ) → section offset (some len) [] ≡ []
unfolding section
section-nil zero zero = refl
section-nil zero (suc len) = refl
section-nil (suc offset) zero = refl
section-nil (suc offset) (suc len) = refl

-- The two reads of a file differ in the part that they take of it.
open_found_part :
    (key : Bytes) (part : Bytes → Bytes) (found : ObjectInfo × Bytes) (body : Bytes)
    (info : ObjectInfo) (k n' : Node)
    → part [] ≡ []
    → open_found key (λ b. b) found k ≡ (ok (body, info), n')
    → open_found key part found k ≡ (ok (part body, info), n')
unfolding open_found
open_found_part key part found body info k n' none h = elim (Bool-cases (is_dir_marker key)) [
  | inl marker ↦ rw marker (
      ap (λ (t : Bytes). (ok (t, found.0), k)) (sym none)
      ∙ ap
          (λ (r : Result Error (Bytes × ObjectInfo) × Node).
            (elim r.0 [ ok x ↦ ok (part x.0, x.1) | err e ↦ err e ], r.1))
          (rw marker at h))
  | inr object ↦
      let of : Bytes → M Bytes = λ p. ask_or not_found (λ n. read_file n (segments p)) in
      let (b, m, asked, made) =
        bind_done (of found.1) (λ b. return (b, found.0)) k n' (body, info) (rw object at h) in
      rw object (
        ap (λ (r : Result Error Bytes × Node). ((λ _. r) >>= λ b. return (part b, found.0)) k) asked
        ∙ ap
            (λ (r : Result Error (Bytes × ObjectInfo) × Node).
              (elim r.0 [ ok x ↦ ok (part x.0, x.1) | err e ↦ err e ], r.1))
            made)
]

get_object_range-section :
    (env : Env) (bucket key body : Bytes) (info : ObjectInfo) (offset len : ℕ) (n n' : Node)
    → get_object env bucket key n ≡ (ok (body, info), n')
    → get_object_range env bucket key offset (some len) n
      ≡ (ok (section offset (some len) body, info), n')
unfolding get_object get_object_range
get_object_range-section env bucket key body info offset len n n' h =
    let (found, k, there, opened) =
      bind_done (stat_object env bucket key) (open_found key (λ b. b)) n n' (body, info) h in
    ap
      (λ (r : Result Error (ObjectInfo × Bytes) × Node).
        ((λ _. r) >>= open_found key (section offset (some len))) n)
      there
    ∙ open_found_part key (section offset (some len)) found body info k n' (section-nil offset len)
        opened

-- Where GetObject of a key answers some bytes, and parseRange gives a range of a whole of their length,
-- GetObjectRange of that range answers, with the same info, the bytes that lie in the whole at the
-- range's offset, as many as the range says.
pub get_object_range-inside :
    (env : Env) (bucket key header body : Bytes) (info : ObjectInfo) (br : ByteRange) (n n' : Node)
    → get_object env bucket key n ≡ (ok (body, info), n')
    → parse_range header (length body) ≡ ok (some br)
    → (before : Bytes) × (got : Bytes) × (after : Bytes) × (get_object_range env bucket key
          br.offset
          (some br.len)
          n
        ≡ (ok (got, info), n'))
      × (body ≡ before ++ (got ++ after))
      × (length before ≡ br.offset)
      × (length got ≡ br.len)
unfolding section
get_object_range-inside env bucket key header body info br n n' h given =
    let rest = drop br.offset body in
    let fits = inside_at header (length body) br given in
    (
      take br.offset body,
      take br.len rest,
      drop br.len rest,
      get_object_range-section env bucket key body info br.offset br.len n n' h,
      sym (
          ap (λ (t : Bytes). take br.offset body ++ t) (take-append-drop br.len rest)
          ∙ take-append-drop br.offset body),
      omega (arith, fits, length-take br.offset body),
      omega (arith, fits, length-take br.len rest, length-drop br.offset body),
    )
