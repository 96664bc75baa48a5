-- ===== src/Base/Text/Parts.antt =====
-- `split` and `join` together.
use Prim.Native.Nat.{ℕ}
use mathlib.Core.Path.{◌≡◌, refl, ap, ◌∙◌}
use mathlib.Core.Logic.{◌≢◌, inl, inr}
use mathlib.Core.Bool.{true, false}
use mathlib.Core.List.{List, [], ◌∷◌, ◌++◌}
use native.Mathlib.Omega.{arith}
use locals.Base.Tests.{◌==◌, ==_refl, Bool-cases}
use locals.Base.Lists.{All}
use locals.Base.Text.{Bytes, push, split, join, cut, contains_byte}

abbrev pub Lacks : ℕ → Bytes → Type 0
Lacks c s = contains_byte s c ≡ false

pub push-ne-nil : (c : ℕ) (ps : List Bytes) → push c ps ≢ []
unfolding push
push-ne-nil c [] h = cc
push-ne-nil c (p ∷ ps) h = cc

pub split-ne-nil : (s : Bytes) (sep : ℕ) → split s sep ≢ []
unfolding split
split-ne-nil [] sep h = cc
split-ne-nil (c ∷ s) sep h = ground (arith, push-ne-nil c (split s sep))

pub split-Lacks : (s : Bytes) (sep : ℕ) → All (Lacks sep) (split s sep)
unfolding split contains_byte
split-Lacks [] sep = (refl, tt)
split-Lacks (c ∷ s) sep = elim (Bool-cases (c == sep)) [
  | inl same ↦ rw same (refl, split-Lacks s sep)
  | inr other ↦ rw other (push-Lacks (split s sep) other (split-Lacks s sep))
]
  where
    push-Lacks :
        (ps : List Bytes) → (c == sep) ≡ false → All (Lacks sep) ps → All (Lacks sep) (push c ps)
    push-Lacks [] e h = (rw e, tt)
    push-Lacks (p ∷ ps) e (hp, h) = (rw (e, hp), h)

-- A part in front of a separator is the first part.
pub split-append :
    (p r : Bytes) (sep : ℕ) → Lacks sep p → split (p ++ (sep ∷ r)) sep ≡ p ∷ split r sep
unfolding split contains_byte
split-append [] r sep h = rw ==_refl
split-append (c ∷ p) r sep h = ground (arith, split-append p r sep)

pub split_of_Lacks : (p : Bytes) (sep : ℕ) → Lacks sep p → split p sep ≡ p ∷ []
unfolding split contains_byte
split_of_Lacks [] sep h = refl
split_of_Lacks (c ∷ p) sep h = ground (arith, split_of_Lacks p sep)

pub split-join :
    (ps : List Bytes) (sep : ℕ) → ps ≢ [] → All (Lacks sep) ps → split (join ps sep) sep ≡ ps
unfolding join
split-join [] sep h _ = absurd (h refl)
split-join (p ∷ []) sep h (hp, _) = split_of_Lacks p sep hp
split-join (p ∷ q ∷ ps) sep h (hp, hs) =
    split-append p _ sep hp ∙ ap (λ (t : List Bytes). p ∷ t) (split-join (q ∷ ps) sep (λ e. cc) hs)

pub join-push : (c : ℕ) (ps : List Bytes) (sep : ℕ) → join (push c ps) sep ≡ c ∷ join ps sep
unfolding join push
join-push c [] sep = refl
join-push c (p ∷ []) sep = refl
join-push c (p ∷ q ∷ ps) sep = refl

join-nil_cons : (ps : List Bytes) (sep : ℕ) → ps ≢ [] → join ([] ∷ ps) sep ≡ sep ∷ join ps sep
unfolding join
join-nil_cons [] sep h = absurd (h refl)
join-nil_cons (p ∷ ps) sep h = refl

pub join-split : (s : Bytes) (sep : ℕ) → join (split s sep) sep ≡ s
unfolding split
join-split [] sep = unfold join in refl
join-split (c ∷ s) sep = ground (
  arith,
  join-split s sep,
  join-push c (split s sep) sep,
  join-nil_cons (split s sep) sep,
  split-ne-nil s sep,
)

-- Cutting at the first separator.
pub Lacks-cons :
    (c : ℕ) (b : Bytes) (sep : ℕ) → Lacks sep (c ∷ b) → ((c == sep) ≡ false) × Lacks sep b
unfolding contains_byte
Lacks-cons c b sep h = ground arith

pub cut-append : (b k : Bytes) (sep : ℕ) → Lacks sep b → cut (b ++ (sep ∷ k)) sep ≡ (b, k, true)
unfolding cut contains_byte
cut-append [] k sep h = rw ==_refl
cut-append (c ∷ b) k sep h =
    let (other, rest) = Lacks-cons c b sep h in rw (other, cut-append b k sep rest)
