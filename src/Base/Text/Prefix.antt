-- ===== src/Base/Text/Prefix.antt =====
-- Prefixes and suffixes of strings.
use Prim.Native.Nat.{◌-◌}
use mathlib.Core.Path.{◌≡◌, refl}
use mathlib.Core.Bool.{true}
use mathlib.Core.List.{[], ◌∷◌, ◌++◌}
use mathlib.Core.Option.{some}
use native.Mathlib.Omega.{arith}
use locals.Base.Tests.{==_refl}
use locals.Base.Lists.{length, length-append, take-length_append, drop-length_append}
use locals.Base.Text.{Bytes, cut_prefix, has_prefix, trim_prefix, has_suffix, trim_suffix}
use locals.Base.Text.Equality.{beq_refl}

pub cut_prefix-append : (p r : Bytes) → cut_prefix (p ++ r) p ≡ some r
unfolding cut_prefix
cut_prefix-append [] [] = refl
cut_prefix-append [] (c ∷ r) = refl
cut_prefix-append (d ∷ p) r = rw ==_refl (cut_prefix-append p r)

pub cut_prefix_sound : (s p r : Bytes) → cut_prefix s p ≡ some r → s ≡ p ++ r
unfolding cut_prefix
cut_prefix_sound [] [] r h = cc
cut_prefix_sound (c ∷ s) [] r h = cc
cut_prefix_sound [] (d ∷ p) r h = cc
cut_prefix_sound (c ∷ s) (d ∷ p) r h = ground (arith, cut_prefix_sound s p r)

pub has_prefix-append : (p r : Bytes) → has_prefix (p ++ r) p ≡ true
unfolding has_prefix
has_prefix-append p r = rw (cut_prefix-append p r, has_prefix)

pub trim_prefix-append : (p r : Bytes) → trim_prefix (p ++ r) p ≡ r
unfolding trim_prefix
trim_prefix-append p r = rw (cut_prefix-append p r, trim_prefix)

-- A string with a prefix is the prefix and what `TrimPrefix` leaves.
pub trim_prefix_of_has : (s p : Bytes) → has_prefix s p ≡ true → s ≡ p ++ trim_prefix s p
unfolding has_prefix trim_prefix
trim_prefix_of_has s p h = ground (arith, cut_prefix_sound s p (trim_prefix s p))

length_sub : (s p : Bytes) → length (s ++ p) - length p ≡ length s
length_sub s p = omega (arith, length-append s p)

pub has_suffix-append : (s p : Bytes) → has_suffix (s ++ p) p ≡ true
unfolding has_suffix
has_suffix-append s p =
    rw (length_sub s p, drop-length_append s p) (ground (arith, beq_refl p, length-append s p))

pub trim_suffix-append : (s p : Bytes) → trim_suffix (s ++ p) p ≡ s
unfolding trim_suffix
trim_suffix-append s p = rw (has_suffix-append s p, length_sub s p) (take-length_append s p)
