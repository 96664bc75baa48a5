-- ===== src/Store/Monad.antt =====
-- Operations of the store: they read and change the tree of files, and may fail. A failing
-- operation leaves the changes that it made before.
use locals.Base.{Result, ok, err, ◌≡◌, refl, ap}
use locals.Store.Error.{Error, os, OsError}
use locals.Store.Fs.{Node}

abbrev pub M {ℓ} : Type ℓ → Type ℓ
M A = Node → Result Error A × Node

infixl 5 ◌>>=◌ ◌>>◌
abbrev pub ◌>>=◌ {ℓ κ} : {A : Type ℓ} {B : Type κ} → M A → (A → M B) → M B
◌>>=◌ m f n = let (r, n') = m n in elim r [ ok a ↦ f a n' | err e ↦ (err e, n') ]

abbrev pub ◌>>◌ {ℓ} : {B : Type ℓ} → M (Unit {0}) → M B → M B
◌>>◌ m k = m >>= λ _. k

abbrev pub return {ℓ} : {A : Type ℓ} → A → M A
return a n = (ok a, n)

abbrev pub fail {ℓ} : {A : Type ℓ} → Error → M A
fail e n = (err e, n)

abbrev pub lift {ℓ} : {A : Type ℓ} → Result Error A → M A
lift r n = (r, n)

-- A call of package os that reads, whose error is turned by `f`.
abbrev pub ask_or {ℓ} : {A : Type ℓ} → (OsError → Error) → (Node → Result OsError A) → M A
ask_or f call n = elim (call n) [ ok a ↦ (ok a, n) | err e ↦ (err (f e), n) ]

abbrev pub ask {ℓ} : {A : Type ℓ} → (Node → Result OsError A) → M A
ask call n = ask_or os call n

-- A call that changes the tree. If it fails, the tree is as it was.
abbrev pub sys_or : (OsError → Error) → (Node → Result OsError Node) → M (Unit {0})
sys_or f call n = elim (call n) [ ok n' ↦ (ok tt, n') | err e ↦ (err (f e), n) ]

abbrev pub sys : (Node → Result OsError Node) → M (Unit {0})
sys call n = sys_or os call n

-- `_ = call()`
abbrev pub ignore {ℓ} : {A : Type ℓ} → M A → M (Unit {0})
ignore m n = (ok tt, (m n).1)

-- `defer`: `after` runs whatever became of `m`.
abbrev pub finally {ℓ} : {A : Type ℓ} → M A → (Node → Node) → M A
finally m after n = ((m n).0, after (m n).1)

pub >>=-goes {ℓ κ} :
    {A : Type ℓ} {B : Type κ} (m : M A) (f : A → M B) (n n' : Node) (a : A)
    → m n ≡ (ok a, n')
    → (m >>= f) n ≡ f a n'
>>=-goes m f n n' a h = ap (λ r. elim r.0 [ ok b ↦ f b r.1 | err e ↦ (err e, r.1) ]) h

pub >>=-stops {ℓ κ} :
    {A : Type ℓ} {B : Type κ} (m : M A) (f : A → M B) (n n' : Node) (e : Error)
    → m n ≡ (err e, n')
    → (m >>= f) n ≡ (err e, n')
>>=-stops m f n n' e h = ap (λ r. elim r.0 [ ok b ↦ f b r.1 | err d ↦ (err d, r.1) ]) h

-- An operation that succeeded, taken apart.
pub bind_done {ℓ κ} :
    {A : Type ℓ} {B : Type κ} (m : M A) (f : A → M B) (n n' : Node) (b : B)
    → (m >>= f) n ≡ (ok b, n')
    → (a : A) × (k : Node) × (m n ≡ (ok a, k)) × (f a k ≡ (ok b, n'))
bind_done m f n n' b h = go (m n) refl h
  where
    go :
        (r : Result Error _ × Node)
        → m n ≡ r
        → ((λ _. r) >>= f) n ≡ (ok b, n')
        → (a : _) × (k : Node) × (m n ≡ (ok a, k)) × (f a k ≡ (ok b, n'))
    go (ok a, k) e h = (a, k, e, h)
    go (err x, k) e h = absurd cc

pub sys_done :
    (g : OsError → Error) (call : Node → Result OsError Node) (n n' : Node) (u : Unit {0})
    → sys_or g call n ≡ (ok u, n')
    → call n ≡ ok n'
sys_done g call n n' u h = go (call n) refl h
  where
    go : (r : Result OsError Node) → call n ≡ r → sys_or g (λ _. r) n ≡ (ok u, n') → call n ≡ ok n'
    go (ok k) e h = cc
    go (err x) e h = absurd cc

pub ask_done {ℓ} :
    {A : Type ℓ} (g : OsError → Error) (call : Node → Result OsError A) (n n' : Node) (a : A)
    → ask_or g call n ≡ (ok a, n')
    → (call n ≡ ok a) × (n ≡ n')
ask_done g call n n' a h = go (call n) refl h
  where
    go :
        (r : Result OsError _)
        → call n ≡ r
        → ask_or g (λ _. r) n ≡ (ok a, n')
        → (call n ≡ ok a) × (n ≡ n')
    go (ok k) e h = (cc, cc)
    go (err x) e h = absurd cc
