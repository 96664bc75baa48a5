-- ===== src/Api/Range/Laws.antt =====
-- Where the ranges of `parseRange` lie, and what `GetObjectRange` reads of them.
use locals.Base.{
  subst, ℕ, ◌+◌, ◌-◌, ◌≤◌, ◌<◌, ◌≡◌, refl, Option, none, some, arith, Bytes, codes, ltb, leb, ◌==◌,
  if◌then◌else◌, Bool-cases, ◌⊎◌, beq, cut, cut_prefix, contains, trim_space, inl, inr, ok, err, [],
}
use locals.Base.Int.{ℤ, pos, negsuc, parse_int}
use locals.Api.Error.{err_unsatisfiable_range}
use locals.Api.Range.{
  ByteRange, RangeResult, suffix_range, closed_range, end_of_range, start_of_range, range_of_ends,
  range_of_spec, parse_range,
}

-- A range that is answered lies inside the object, and is not empty unless the object is. The
-- other two outcomes are the whole object and the status 416.
abbrev pub IsInside : ℕ → RangeResult → Type 0
IsInside size (ok (some br)) = (br.offset + br.len ≤ size) × ((size ≡ 0) ⊎ (0 < br.len))
IsInside size (ok none) = Unit
IsInside size (err e) = e ≡ err_unsatisfiable_range

suffix_range-IsInside : (n : Option ℤ) (size : ℕ) → IsInside size (suffix_range n size)
unfolding suffix_range
suffix_range-IsInside none size = refl
suffix_range-IsInside (some (negsuc n)) size = refl
suffix_range-IsInside (some (pos n)) size = elim (Bool-cases (n == 0)) [
  | inl zero ↦ rw zero refl
  | inr other ↦ rw other (elim (Bool-cases (ltb size n)) [
    | inl cut ↦ rw cut (omega arith, ground arith)
    | inr short ↦ rw short (ground arith, ground arith)
  ])
]

closed_range-IsInside :
    (start stop size : ℕ)
    → start < size
    → start ≤ stop
    → IsInside size (closed_range start stop size)
unfolding closed_range
closed_range-IsInside start stop size h k = elim (Bool-cases (ltb (size - 1) stop)) [
  | inl cut ↦ rw cut (omega arith, ground arith)
  | inr short ↦ rw short (ground arith, ground arith)
]

end_of_range-IsInside :
    (start : ℕ) (s : Bytes) (size : ℕ) → start < size → IsInside size (end_of_range start s size)
unfolding end_of_range
end_of_range-IsInside start s size h = elim (Bool-cases (beq s [])) [
  | inl empty ↦ rw empty (closed_range-IsInside start (size - 1) size h (omega arith))
  | inr given ↦ rw given (go (parse_int 10 s))
]
  where
    go :
        (n : Option ℤ)
        → IsInside size (elim n [
          | none ↦ err err_unsatisfiable_range
          | some (negsuc n) ↦ err err_unsatisfiable_range
          | some (pos stop) ↦
              if ltb stop start then err err_unsatisfiable_range else closed_range start stop size
        ])
    go none = refl
    go (some (negsuc n)) = refl
    go (some (pos stop)) = elim (Bool-cases (ltb stop start)) [
      | inl low ↦ rw low refl
      | inr fits ↦ rw fits (closed_range-IsInside start stop size h (ground arith))
    ]

start_of_range-IsInside :
    (n : Option ℤ) (s : Bytes) (size : ℕ) → IsInside size (start_of_range n s size)
unfolding start_of_range
start_of_range-IsInside none s size = refl
start_of_range-IsInside (some (negsuc n)) s size = refl
start_of_range-IsInside (some (pos start)) s size = elim (Bool-cases (leb size start)) [
  | inl high ↦ rw high refl
  | inr fits ↦ rw fits (end_of_range-IsInside start s size (ground arith))
]

range_of_ends-IsInside : (a b : Bytes) (size : ℕ) → IsInside size (range_of_ends a b size)
unfolding range_of_ends
range_of_ends-IsInside a b size = elim (Bool-cases (beq a [])) [
  | inl empty ↦ rw empty (elim (Bool-cases (beq b [])) [
    | inl none_given ↦ rw none_given refl
    | inr given ↦ rw given (suffix_range-IsInside (parse_int 10 b) size)
  ])
  | inr given ↦ rw given (start_of_range-IsInside (parse_int 10 a) b size)
]

range_of_spec-IsInside : (spec : Bytes) (size : ℕ) → IsInside size (range_of_spec spec size)
unfolding range_of_spec
range_of_spec-IsInside spec size = elim (Bool-cases (contains spec (codes ","))) [
  | inl several ↦ rw several tt
  | inr single ↦ rw single (elim (Bool-cases ((cut spec b'-').2)) [
    | inl dash ↦
        rw dash (
          range_of_ends-IsInside (trim_space (cut spec b'-').0) (trim_space (cut spec b'-').1) size)
    | inr no_dash ↦ rw no_dash refl
  ])
]

-- Whatever the header says, the answer is the whole object, the status 416, or a range that lies
-- inside the object and is not empty unless the object is.
pub parse_range-IsInside : (header : Bytes) (size : ℕ) → IsInside size (parse_range header size)
unfolding parse_range
parse_range-IsInside header size = elim (Bool-cases (beq header [])) [
  | inl absent ↦ rw absent tt
  | inr given ↦ rw given (go (cut_prefix (trim_space header) (codes "bytes=")))
]
  where
    go :
        (o : Option Bytes)
        → IsInside size (elim o [ none ↦ ok none | some spec ↦ range_of_spec spec size ])
    go none = tt
    go (some spec) = range_of_spec-IsInside spec size

pub inside_at :
    (header : Bytes) (size : ℕ) (br : ByteRange)
    → parse_range header size ≡ ok (some br)
    → br.offset + br.len ≤ size
inside_at header size br h = (subst (IsInside size) h (parse_range-IsInside header size)).0
