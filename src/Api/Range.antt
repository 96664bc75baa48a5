-- ===== src/Api/Range.antt =====
-- Range headers (internal/s3api/rangehdr.go): `parseRange`.
pub mod Laws
pub mod Section
use locals.Base.{
  ℕ, ◌+◌, ◌-◌, Bool, true, false, List, [], ◌∷◌, Option, none, some, Bytes, codes, ltb, leb, ◌==◌,
  if◌then◌else◌, beq, cut, cut_prefix, contains, trim_space, Result, ok, err,
}
use locals.Base.Int.{ℤ, pos, negsuc, parse_int}
use locals.Api.Error.{ApiError, err_unsatisfiable_range}

-- `byteRange`
pub record ByteRange : Type 0 where
  pub offset : ℕ
  pub len : ℕ

-- `ok none` stands for `ok == false` with no error: the whole object is answered.
abbrev pub RangeResult : Type 0
RangeResult = Result ApiError (Option ByteRange)

-- The last `n` bytes.
unfoldable pub suffix_range : Option ℤ → ℕ → RangeResult
suffix_range none size = err err_unsatisfiable_range
suffix_range (some (negsuc n)) size = err err_unsatisfiable_range
suffix_range (some (pos n)) size =
    if n == 0
    then err err_unsatisfiable_range
    else let last = if ltb size n then size else n in
      ok (some (record { offset = size - last; len = last }))

-- From `start` to `end`, both included; an end beyond the object is cut.
unfoldable pub closed_range : ℕ → ℕ → ℕ → RangeResult
closed_range start stop size =
    let last = if ltb (size - 1) stop then size - 1 else stop in
    ok (some (record { offset = start; len = last - start + 1 }))

unfoldable pub end_of_range : ℕ → Bytes → ℕ → RangeResult
end_of_range start end_str size =
    if beq end_str [] then closed_range start (size - 1) size else elim (parse_int 10 end_str) [
      | none ↦ err err_unsatisfiable_range
      | some (negsuc n) ↦ err err_unsatisfiable_range
      | some (pos stop) ↦
          if ltb stop start then err err_unsatisfiable_range else closed_range start stop size
    ]

unfoldable pub start_of_range : Option ℤ → Bytes → ℕ → RangeResult
start_of_range none end_str size = err err_unsatisfiable_range
start_of_range (some (negsuc n)) end_str size = err err_unsatisfiable_range
start_of_range (some (pos start)) end_str size =
    if leb size start then err err_unsatisfiable_range else end_of_range start end_str size

unfoldable pub range_of_ends : Bytes → Bytes → ℕ → RangeResult
range_of_ends start_str end_str size =
    if beq start_str []
    then (if beq end_str []
        then err err_unsatisfiable_range
        else suffix_range (parse_int 10 end_str) size)
    else start_of_range (parse_int 10 start_str) end_str size

unfoldable pub range_of_spec : Bytes → ℕ → RangeResult
range_of_spec spec size =
    if contains spec (codes ",")
    then ok none
    else let (start_str, end_str, found) = cut spec b'-' in
      if found
      then range_of_ends (trim_space start_str) (trim_space end_str) size
      else err err_unsatisfiable_range

unfoldable pub parse_range : Bytes → ℕ → RangeResult
parse_range header size =
    if beq header [] then ok none else elim (cut_prefix (trim_space header) (codes "bytes=")) [
      | none ↦ ok none
      | some spec ↦ range_of_spec spec size
    ]
