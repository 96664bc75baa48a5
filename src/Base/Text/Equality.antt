-- ===== src/Base/Text/Equality.antt =====
-- Equality and order of strings.
use mathlib.Core.Path.{◌≡◌, refl}
use mathlib.Core.Logic.{◌↔◌, ◌⊎◌, inl, inr}
use mathlib.Core.Bool.{true, false}
use mathlib.Core.List.{[], ◌∷◌}
use native.Mathlib.Omega.{arith}
use locals.Base.Text.{Bytes, beq, lt_text}

pub beq_sound : (s t : Bytes) → beq s t ≡ true → s ≡ t
unfolding beq
beq_sound [] [] h = refl
beq_sound [] (d ∷ t) h = cc
beq_sound (c ∷ s) [] h = cc
beq_sound (c ∷ s) (d ∷ t) h = ground (arith, beq_sound s t)

pub beq_refl : (s : Bytes) → beq s s ≡ true
unfolding beq
beq_refl [] = refl
beq_refl (c ∷ s) = ground (arith, beq_refl s)

pub beq_iff : (s t : Bytes) → (beq s t ≡ true) ↔ (s ≡ t)
beq_iff s t = (beq_sound s t, λ e. rw e (beq_refl t))

pub lt_text_irrefl : (s : Bytes) → lt_text s s ≡ false
unfolding lt_text
lt_text_irrefl [] = refl
lt_text_irrefl (c ∷ s) = ground (arith, lt_text_irrefl s)

pub lt_text_trans : (s t u : Bytes) → lt_text s t ≡ true → lt_text t u ≡ true → lt_text s u ≡ true
unfolding lt_text
lt_text_trans [] [] u h k = cc
lt_text_trans [] (d ∷ t) [] h k = cc
lt_text_trans [] (d ∷ t) (e ∷ u) h k = refl
lt_text_trans (c ∷ s) [] u h k = cc
lt_text_trans (c ∷ s) (d ∷ t) [] h k = cc
lt_text_trans (c ∷ s) (d ∷ t) (e ∷ u) h k = ground (arith, lt_text_trans s t u)

pub lt_text_total : (s t : Bytes) → (lt_text s t ≡ true) ⊎ ((s ≡ t) ⊎ (lt_text t s ≡ true))
unfolding lt_text
lt_text_total [] [] = inr (inl refl)
lt_text_total [] (d ∷ t) = inl refl
lt_text_total (c ∷ s) [] = inr (inr refl)
lt_text_total (c ∷ s) (d ∷ t) = ground (arith, lt_text_total s t)

pub lt_text_asymm : (s t : Bytes) → lt_text s t ≡ true → lt_text t s ≡ false
unfolding lt_text
lt_text_asymm [] [] h = refl
lt_text_asymm [] (d ∷ t) h = refl
lt_text_asymm (c ∷ s) [] h = cc
lt_text_asymm (c ∷ s) (d ∷ t) h = ground (arith, lt_text_asymm s t)
