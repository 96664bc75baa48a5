-- ===== src/Store/Listing/Sorted.antt =====
-- The order of a listing (internal/store/list.go): what the sort by name yields.
use locals.Base.{◌≡◌, false, Bool-cases, inl, inr, List, [], ◌∷◌, lt_text, lt_text_asymm}
use locals.Store.Listing.{ListEntry, insert_name, sort_names}

-- Each name is not less than the one before it.
abbrev pub IsSorted : List ListEntry → Type 0
IsSorted [] = Unit
IsSorted (e ∷ []) = Unit
IsSorted (e ∷ f ∷ es) = (lt_text f.name e.name ≡ false) × IsSorted (f ∷ es)

-- The same entries in another order.
pub data Reorders : List ListEntry → List ListEntry → Type 0 where
  nothing : Reorders [] []
  keep : {e : ListEntry} {es fs : List ListEntry} → Reorders es fs → Reorders (e ∷ es) (e ∷ fs)
  swap : {e f : ListEntry} {es : List ListEntry} → Reorders (e ∷ f ∷ es) (f ∷ e ∷ es)
  after : {es fs gs : List ListEntry} → Reorders es fs → Reorders fs gs → Reorders es gs

insert_name-IsSorted :
    (e : ListEntry) (es : List ListEntry) → IsSorted es → IsSorted (insert_name e es)
unfolding insert_name
insert_name-IsSorted e [] h = tt
insert_name-IsSorted e (f ∷ es) h = elim (Bool-cases (lt_text f.name e.name)) [
  | inr first ↦ rw first (first, h)
  | inl later ↦
      rw later
        (behind es (lt_text_asymm f.name e.name later) h (insert_name-IsSorted e es (tail es h)))
]
  where
    tail : (es : List ListEntry) → IsSorted (f ∷ es) → IsSorted es
    tail [] h = tt
    tail (g ∷ es) h = h.1

    behind :
        (es : List ListEntry)
        → lt_text e.name f.name ≡ false
        → IsSorted (f ∷ es)
        → IsSorted (insert_name e es)
        → IsSorted (f ∷ insert_name e es)
    behind [] le h k = (le, tt)
    behind (g ∷ es) le h k = elim (Bool-cases (lt_text g.name e.name)) [
      | inl later ↦ rw later (h.0, rw later at k)
      | inr first ↦ rw first (le, (first, h.1))
    ]

Reorders-refl : (es : List ListEntry) → Reorders es es
Reorders-refl [] = nothing
Reorders-refl (e ∷ es) = keep (Reorders-refl es)

insert_name-Reorders : (e : ListEntry) (es : List ListEntry) → Reorders (insert_name e es) (e ∷ es)
unfolding insert_name
insert_name-Reorders e [] = keep nothing
insert_name-Reorders e (f ∷ es) = elim (Bool-cases (lt_text f.name e.name)) [
  | inl later ↦ rw later (after (keep (insert_name-Reorders e es)) swap)
  | inr first ↦ rw first (Reorders-refl (e ∷ f ∷ es))
]

-- The sort by name lists the entries that it is given, each as often as it was given, and no name
-- before a smaller one.
pub sort_names_lem : (es : List ListEntry) → IsSorted (sort_names es) × Reorders (sort_names es) es
unfolding sort_names
sort_names_lem [] = (tt, nothing)
sort_names_lem (e ∷ es) =
    let (sorted, same) = sort_names_lem es in
    (
      insert_name-IsSorted e (sort_names es) sorted,
      after (insert_name-Reorders e (sort_names es)) (keep same),
    )
