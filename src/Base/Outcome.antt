-- ===== src/Base/Outcome.antt =====
-- What a Go function with a value and an error returns: one of the two.
use mathlib.Core.Path.{◌≡◌, refl}

pub data Result {ℓ κ} (E : Type κ) (A : Type ℓ) : Type (ℓ ⊔ κ) where
  ok : A → Result E A
  err : E → Result E A

infixl 5 ◌>>=◌ ◌>>◌
abbrev pub ◌>>=◌ {ℓ κ μ} :
    {E : Type κ} {A : Type ℓ} {B : Type μ} → Result E A → (A → Result E B) → Result E B
ok value >>= next = next value
err failure >>= next = err failure

abbrev pub ◌>>◌ {ℓ κ} : {E : Type κ} {B : Type ℓ} → Result E (Unit {0}) → Result E B → Result E B
call >> next = call >>= λ _. next

-- Where the whole succeeds, so did the first call.
pub >>=-eq-ok {ℓ κ μ} :
    {E : Type κ} {A : Type ℓ} {B : Type μ} (call : Result E A) (next : A → Result E B) {out : B}
    → (call >>= next) ≡ ok out
    → (value : A) × (call ≡ ok value) × (next value ≡ ok out)
>>=-eq-ok (err failure) next done = cc
>>=-eq-ok (ok value) next done = (value, refl, done)
