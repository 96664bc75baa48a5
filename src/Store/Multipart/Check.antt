-- ===== src/Store/Multipart/Check.antt =====
-- Which lists of parts `CompleteMultipartUpload` accepts.
use locals.Base.{
  ℕ, ◌≤◌, ◌<◌, ◌≡◌, ◌↔◌, inl, inr, ◌≢◌, refl, sym, ◌∙◌, subst, true, false, ◌&&◌, List, [], ◌∷◌,
  none, some, Option-cases, arith, ltb, leb, beq, beq_sound, beq_iff, ok, err,
}
use locals.Store.Multipart.{
  Part, CompletedPart, min_part_size, normalize_etag, staged_part, check_parts, is_more,
}

-- The part numbers grow strictly from `last`.
abbrev pub Ascending : ℕ → List CompletedPart → Type 0
Ascending last [] = Unit
Ascending last (want ∷ parts) = (last < want.part_number) × Ascending want.part_number parts

-- Each listed part is the staged one of its number, with its digest.
abbrev pub Staged : List Part → List CompletedPart → List Part → Type 0
Staged staged [] [] = Unit
Staged staged [] (got ∷ found) = ⊥
Staged staged (want ∷ parts) [] = ⊥
Staged staged (want ∷ parts) (got ∷ found) =
    (staged_part want.part_number staged ≡ some got)
    × (normalize_etag want.etag ≡ got.etag)
    × Staged staged parts found

-- Every part but the last has the least size.
abbrev pub LargeButLast : List Part → Type 0
LargeButLast [] = Unit
LargeButLast (got ∷ []) = Unit
LargeButLast (got ∷ next ∷ found) = (min_part_size ≤ got.size) × LargeButLast (next ∷ found)

-- One round of the loop that passes.
check_parts_step :
    (staged : List Part) (last : ℕ) (want : CompletedPart) (parts : List CompletedPart) (got : Part)
    → leb want.part_number last ≡ false
    → staged_part want.part_number staged ≡ some got
    → beq (normalize_etag want.etag) got.etag ≡ true
    → (is_more parts && ltb got.size min_part_size) ≡ false
    → check_parts staged last (want ∷ parts) ≡ elim (check_parts staged want.part_number parts) [
      | ok found ↦ ok (got ∷ found)
      | err e ↦ err e
    ]
unfolding check_parts
check_parts_step staged last want parts got a b c d = rw (a, b, c, d, check_parts)

check_parts_order :
    (staged : List Part) (last : ℕ) (want : CompletedPart) (parts : List CompletedPart)
    (found : List Part)
    → check_parts staged last (want ∷ parts) ≡ ok found
    → leb want.part_number last ≡ false
unfolding check_parts
check_parts_order staged last want parts found h = ground arith

check_parts_found :
    (staged : List Part) (last : ℕ) (want : CompletedPart) (parts : List CompletedPart)
    (found : List Part)
    → check_parts staged last (want ∷ parts) ≡ ok found
    → staged_part want.part_number staged ≢ none
unfolding check_parts
check_parts_found staged last want parts found h e = ground arith

check_parts_rest :
    (staged : List Part) (last : ℕ) (want : CompletedPart) (parts : List CompletedPart)
    (found : List Part) (got : Part)
    → check_parts staged last (want ∷ parts) ≡ ok found
    → staged_part want.part_number staged ≡ some got
    → (beq (normalize_etag want.etag) got.etag ≡ true)
      × ((is_more parts && ltb got.size min_part_size) ≡ false)
      × ((rest : List Part) × (check_parts staged want.part_number parts ≡ ok rest)
          × (found ≡ got ∷ rest))
unfolding check_parts
check_parts_rest staged last want parts found got h e = ground arith

-- A part that more parts follow is large.
large_step :
    (staged : List Part) (want : CompletedPart) (parts : List CompletedPart) (got : Part)
    (rest : List Part)
    → (is_more parts && ltb got.size min_part_size) ≡ false
    → Staged staged parts rest
    → LargeButLast rest
    → LargeButLast (got ∷ rest)
unfolding is_more
large_step staged want parts got [] h s l = tt
large_step staged want [] got (g ∷ rest) h s l = elim s [ ]
large_step staged want (w ∷ parts) got (g ∷ rest) h s l = (ground arith, l)

large_back :
    (staged : List Part) (parts : List CompletedPart) (got : Part) (rest : List Part)
    → Staged staged parts rest
    → LargeButLast (got ∷ rest)
    → ((is_more parts && ltb got.size min_part_size) ≡ false) × LargeButLast rest
unfolding is_more
large_back staged [] got [] s l = (refl, tt)
large_back staged [] got (g ∷ rest) s l = elim s [ ]
large_back staged (w ∷ parts) got [] s l = elim s [ ]
large_back staged (w ∷ parts) got (g ∷ rest) s l = (ground arith, l.1)

check_parts_sound :
    (staged : List Part) (last : ℕ) (parts : List CompletedPart) (found : List Part)
    → check_parts staged last parts ≡ ok found
    → Ascending last parts × Staged staged parts found × LargeButLast found
check_parts_sound staged last [] [] h = (tt, tt, tt)
check_parts_sound staged last [] (g ∷ found) h = absurd (unfold check_parts in cc)
check_parts_sound staged last (want ∷ parts) found h =
    elim (Option-cases (staged_part want.part_number staged)) [
      | inl none_there ↦ absurd (check_parts_found staged last want parts found h none_there)
      | inr (got, there) ↦
          let (digest, large, (rest, checked, whole)) =
            check_parts_rest staged last want parts found got h there in
          let (up, all_staged, sizes) =
            check_parts_sound staged want.part_number parts rest checked in
          let order = check_parts_order staged last want parts found h in
          (
            (ground arith, up),
            subst (Staged staged (want ∷ parts)) (sym whole)
                (there, beq_sound _ _ digest, all_staged),
            subst LargeButLast (sym whole)
                (large_step staged want parts got rest large all_staged sizes),
          )
    ]

check_parts_complete :
    (staged : List Part) (last : ℕ) (parts : List CompletedPart) (found : List Part)
    → Ascending last parts
    → Staged staged parts found
    → LargeButLast found
    → check_parts staged last parts ≡ ok found
check_parts_complete staged last [] [] a s l = unfold check_parts in refl
check_parts_complete staged last [] (g ∷ found) a s l = elim s [ ]
check_parts_complete staged last (want ∷ parts) [] a s l = elim s [ ]
check_parts_complete staged last (want ∷ parts) (got ∷ found) (low, a) (there, digest, s) l =
    let (large, sizes) = large_back staged parts got found s l in
    check_parts_step staged last want parts got (ground arith) there ((beq_iff _ _).1 digest) large
    ∙ rw (check_parts_complete staged want.part_number parts found a s sizes)

-- The parts of a request are accepted, and `found` is what is assembled, exactly when their numbers
-- grow strictly from 1 on, each is the staged part of its number with its digest (quotes aside),
-- and every part but the last has at least 5 MiB.
pub check_parts_iff :
    (staged : List Part) (parts : List CompletedPart) (found : List Part)
    → (check_parts staged 0 parts ≡ ok found)
      ↔ (Ascending 0 parts × Staged staged parts found × LargeButLast found)
check_parts_iff staged parts found = (
  check_parts_sound staged 0 parts found,
  λ (a, s, l). check_parts_complete staged 0 parts found a s l,
)
