-- ===== src/Base/Text.antt =====
-- Go strings as lists of bytes, with the functions of package strings that the program calls.
pub mod Equality
pub mod Prefix
pub mod Parts
use Prim.Native.Nat.{ℕ, suc, ◌+◌, ◌-◌}
use Prim.Native.Char.{code}
use Prim.Native.String.{String}
use mathlib.Core.Bool.{Bool, true, false, ◌&&◌, ◌||◌}
use mathlib.Core.List.{List, [], ◌∷◌, ◌++◌, reverse}
use mathlib.Core.Option
use mathlib.Core.Option.{Option, none, some}
use locals.Base.Tests.{ltb, leb, ◌==◌, if◌then◌else◌}
use locals.Base.Lists.{length, take, drop}

abbrev pub Bytes : Type 0
Bytes = List ℕ

-- The code points of a literal: its bytes, since the program's literals are ASCII.
abbrev pub codes : String → Bytes
codes String.[] = []
codes (String.◌∷◌ c s) = code c ∷ codes s

-- `a == b` on strings.
unfoldable pub beq : Bytes → Bytes → Bool
beq [] [] = true
beq [] (d ∷ t) = false
beq (c ∷ s) [] = false
beq (c ∷ s) (d ∷ t) = c == d && beq s t

-- `a < b` on strings: bytewise, left to right.
unfoldable pub lt_text : Bytes → Bytes → Bool
lt_text [] [] = false
lt_text [] (d ∷ t) = true
lt_text (c ∷ s) [] = false
lt_text (c ∷ s) (d ∷ t) = ltb c d || (c == d && lt_text s t)

-- `strings.CutPrefix(s, p)`, where `none` is `ok == false`.
unfoldable pub cut_prefix : Bytes → Bytes → Option Bytes
cut_prefix s [] = some s
cut_prefix [] (d ∷ p) = none
cut_prefix (c ∷ s) (d ∷ p) = let rest = cut_prefix s p in if c == d then rest else none

unfoldable pub has_prefix : Bytes → Bytes → Bool
unfolding cut_prefix
has_prefix s p = elim (cut_prefix s p) [ none ↦ false | some r ↦ true ]

-- `strings.TrimPrefix(s, p)`.
unfoldable pub trim_prefix : Bytes → Bytes → Bytes
unfolding cut_prefix
trim_prefix s p = elim (cut_prefix s p) [ none ↦ s | some r ↦ r ]

-- `strings.HasSuffix(s, p)`: the last `len(p)` bytes are `p`.
unfoldable pub has_suffix : Bytes → Bytes → Bool
unfolding beq
has_suffix s p = leb (length p) (length s) && beq (drop (length s - length p) s) p

-- `strings.CutSuffix(s, p)`.
unfoldable pub cut_suffix : Bytes → Bytes → Option Bytes
unfolding has_suffix
cut_suffix s p = if has_suffix s p then some (take (length s - length p) s) else none

-- `strings.TrimSuffix(s, p)`.
unfoldable pub trim_suffix : Bytes → Bytes → Bytes
unfolding has_suffix
trim_suffix s p = if has_suffix s p then take (length s - length p) s else s

-- `strings.IndexByte(s, c)`, where `none` is -1.
unfoldable pub index_byte : Bytes → ℕ → Option ℕ
index_byte [] c = none
index_byte (d ∷ s) c = let rest = Option.map suc (index_byte s c) in if d == c then some 0 else rest

-- `strings.Index(s, p)`, where `none` is -1.
unfoldable pub index : Bytes → Bytes → Option ℕ
unfolding has_prefix
index [] p = if has_prefix [] p then some 0 else none
index (c ∷ s) p =
    let rest = Option.map suc (index s p) in if has_prefix (c ∷ s) p then some 0 else rest

unfoldable pub contains : Bytes → Bytes → Bool
unfolding index
contains s p = elim (index s p) [ none ↦ false | some i ↦ true ]

unfoldable pub contains_byte : Bytes → ℕ → Bool
contains_byte [] c = false
contains_byte (d ∷ s) c = d == c || contains_byte s c

-- Put a byte in front of the first part.
unfoldable pub push : ℕ → List Bytes → List Bytes
push c [] = (c ∷ []) ∷ []
push c (p ∷ ps) = (c ∷ p) ∷ ps

-- `strings.Split(s, sep)` at a separator of one byte.
unfoldable pub split : Bytes → ℕ → List Bytes
unfolding push
split [] sep = [] ∷ []
split (c ∷ s) sep = let rest = split s sep in if c == sep then [] ∷ rest else push c rest

-- The parts with `sep` between them.
unfoldable pub join : List Bytes → ℕ → Bytes
join [] sep = []
join (p ∷ []) sep = p
join (p ∷ q ∷ ps) sep = p ++ (sep ∷ join (q ∷ ps) sep)

-- `strings.Cut(s, sep)` at a separator of one byte: `(before, after, found)`.
unfoldable pub cut : Bytes → ℕ → Bytes × Bytes × Bool
cut [] sep = ([], [], false)
cut (c ∷ s) sep =
    let (before, after, found) = cut s sep in
    if c == sep then ([], s, true) else (c ∷ before, after, found)

-- The ASCII white space that `strings.TrimSpace` removes.
unfoldable pub is_space : ℕ → Bool
is_space c = (leb 9 c && leb c 13) || c == 32

-- `strings.TrimLeft` by a test on bytes.
unfoldable pub trim_left : (ℕ → Bool) → Bytes → Bytes
trim_left test [] = []
trim_left test (c ∷ s) = let rest = trim_left test s in if test c then rest else c ∷ s

unfoldable pub trim_right : (ℕ → Bool) → Bytes → Bytes
unfolding trim_left
trim_right test s = reverse (trim_left test (reverse s))

-- `strings.TrimSpace(s)`.
unfoldable pub trim_space : Bytes → Bytes
unfolding is_space trim_left trim_right
trim_space s = trim_right is_space (trim_left is_space s)

-- `strings.ToLower` and `strings.ToUpper` on ASCII letters.
unfoldable pub lower : ℕ → ℕ
lower c = if leb b'A' c && leb c b'Z' then c + 32 else c

unfoldable pub upper : ℕ → ℕ
upper c = if leb b'a' c && leb c b'z' then c - 32 else c

unfoldable pub is_digit : ℕ → Bool
is_digit c = leb b'0' c && leb c b'9'
