-- ===== src/Store/Path/Clean.antt =====
-- `filepath.Clean` and `filepath.Join` on paths of plain segments.
use mathlib.Core.List.{reverse, reverse-cons}
use locals.Base.{
  ℕ, ◌≡◌, ◌≢◌, refl, sym, ap, ◌∙◌, arith, Bool, true, List, [], ◌∷◌, ◌++◌, append_assoc, append-nil,
  Bytes, All, All-append, All-reverse, Bool-cases, inl, inr, beq, split, split-Lacks, join,
  split-join, split-append, Lacks, contains_byte,
}
use locals.Store.Key.{slash}
use locals.Store.Key.Valid.{IsPlain, plain-Lacks}
use locals.Store.Path.{dot, dot_dot, is_rooted, step_back, clean_segments, clean, join_path}

-- The absolute path of some segments.
abbrev pub abs : List Bytes → Bytes
abs segs = slash ∷ join segs slash

clean_segments-plain :
    (rooted : Bool) (done segs : List Bytes)
    → All IsPlain segs
    → clean_segments rooted done segs ≡ reverse done ++ segs
unfolding clean_segments
clean_segments-plain rooted done [] h = sym (append-nil (reverse done))
clean_segments-plain rooted done (seg ∷ segs) ((full, no_dot, no_dots, _), h) =
    rw (full, no_dot, no_dots)
      (clean_segments-plain rooted (seg ∷ done) segs h
        ∙ ap (λ (t : List Bytes). t ++ segs) (reverse-cons seg done)
        ∙ append_assoc (reverse done) (seg ∷ []) segs)

pub join-append :
    (ps qs : List Bytes) (sep : ℕ)
    → ps ≢ []
    → qs ≢ []
    → join (ps ++ qs) sep ≡ join ps sep ++ (sep ∷ join qs sep)
unfolding join
join-append [] qs sep h k = absurd (h refl)
join-append (p ∷ []) [] sep h k = absurd (k refl)
join-append (p ∷ []) (q ∷ qs) sep h k = refl
join-append (p ∷ r ∷ ps) qs sep h k = rw (append_assoc, join-append (r ∷ ps) qs sep (λ e. cc) k)

-- An empty segment is dropped.
clean_segments-empty :
    (rooted : Bool) (done segs : List Bytes)
    → clean_segments rooted done ([] ∷ segs) ≡ clean_segments rooted done segs
unfolding clean_segments
clean_segments-empty rooted done segs = refl

-- Cleaning a rooted path, from its split.
clean_rooted :
    (p : Bytes) (segs : List Bytes)
    → clean_segments true [] (split p slash) ≡ segs
    → clean (slash ∷ p) ≡ abs segs
unfolding clean
clean_rooted p segs h = rw (clean_segments-empty true [] (split p slash), h)

-- A path of plain segments is clean.
pub clean-abs : (segs : List Bytes) → segs ≢ [] → All IsPlain segs → clean (abs segs) ≡ abs segs
clean-abs segs h plain = clean_rooted _ segs (
    rw (split-join segs slash h (plain-Lacks segs plain)) (clean_segments-plain true [] segs plain))

empty-Lacks : Lacks slash []
unfolding contains_byte
empty-Lacks = refl

-- Joining goes down by segments.
pub join_path-abs :
    (rs ks : List Bytes)
    → ks ≢ []
    → All IsPlain rs
    → All IsPlain ks
    → join_path (abs rs) (join ks slash) ≡ abs (rs ++ ks)
unfolding join_path
join_path-abs [] ks h _ pk = clean_rooted (slash ∷ join ks slash) ks (
    rw (split-append [] (join ks slash) slash empty-Lacks) (
      clean_segments-empty true [] (split (join ks slash) slash)
      ∙ ap (clean_segments true []) (split-join ks slash h (plain-Lacks ks pk))
      ∙ clean_segments-plain true [] ks pk))
join_path-abs (r ∷ rs) ks h pr pk =
    clean_rooted (join (r ∷ rs) slash ++ (slash ∷ join ks slash)) (r ∷ rs ++ ks) (
      rw (← join-append (r ∷ rs) ks slash (λ e. cc) h) (
        rw
          (split-join (r ∷ rs ++ ks) slash (λ e. cc)
            (plain-Lacks (r ∷ rs ++ ks) (All-append IsPlain (r ∷ rs) ks pr pk)))
          (clean_segments-plain true [] (r ∷ rs ++ ks) (All-append IsPlain (r ∷ rs) ks pr pk))))

step_back-IsPlain : (done : List Bytes) → All IsPlain done → All IsPlain (step_back true done)
unfolding step_back
step_back-IsPlain [] _ = tt
step_back-IsPlain (top ∷ done) ((_, _, no_dots, _), plain) = rw no_dots plain

-- Whatever segments are met, those that stand are plain: the root is never stepped over.
clean_segments-IsPlain :
    (done segs : List Bytes)
    → All IsPlain done
    → All (Lacks slash) segs
    → All IsPlain (clean_segments true done segs)
unfolding clean_segments
clean_segments-IsPlain done [] plain _ = All-reverse IsPlain done plain
clean_segments-IsPlain done (seg ∷ segs) plain (lacks, h) = elim (Bool-cases (beq seg [])) [
  | inl empty ↦ rw empty (clean_segments-IsPlain done segs plain h)
  | inr full ↦ elim (Bool-cases (beq seg dot)) [
    | inl here ↦ rw (full, here) (clean_segments-IsPlain done segs plain h)
    | inr on ↦ elim (Bool-cases (beq seg dot_dot)) [
      | inl back ↦
          rw (full, on, back)
            (clean_segments-IsPlain (step_back true done) segs (step_back-IsPlain done plain) h)
      | inr down ↦
          rw (full, on, down)
            (clean_segments-IsPlain (seg ∷ done) segs ((full, on, down, lacks), plain) h)
    ]
  ]
]

-- A rooted path is cleaned to one of plain segments, whatever stands in it.
pub clean-IsPlain :
    (p : Bytes) → is_rooted p ≡ true → (rs : List Bytes) × (clean p ≡ abs rs) × All IsPlain rs
unfolding is_rooted
clean-IsPlain [] h = absurd cc
clean-IsPlain (c ∷ p) h =
    let leading : c ≡ slash = ground arith in
    (
      clean_segments true [] (split p slash),
      ap (λ (d : ℕ). clean (d ∷ p)) leading ∙ clean_rooted p _ refl,
      clean_segments-IsPlain [] (split p slash) tt (split-Lacks p slash),
    )
