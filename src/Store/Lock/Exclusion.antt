-- ===== src/Store/Lock/Exclusion.antt =====
-- The states that the goroutines and the map of `KeyedLock` can reach together.
use locals.Base.{
  ℕ, zero, suc, ◌+◌, ◌-◌, ◌≤◌, ◌<◌, ◌≡◌, ◌⊎◌, inl, inr, refl, sym, ap, ◌∙◌, subst, Bool, true,
  false, List, [], ◌∷◌, ◌++◌, Option, none, some, arith, if◌then◌else◌, Bool-cases, ◌==◌, All,
  All-append, All-append_left, All-append_right, All-map,
}
use locals.Store.Lock.{
  Thread, idle, wants_write, wants_read, writing, reading, leaving, Lock, entry_for, acquire_slot,
  release_slot, acquired, acquire, release, count, holds, writes, Step, ask_write, ask_read,
  take_write, take_read, unlock_write, unlock_read, drop_ref, Reach, here, next,
}

unfoldable pub is_busy : Thread → Bool
is_busy idle = false
is_busy (wants_write e) = true
is_busy (wants_read e) = true
is_busy (writing e) = true
is_busy (reading e) = true
is_busy (leaving e) = true

-- A thread that uses an entry uses this one.
abbrev Uses : ℕ → Thread → Type 0
Uses e idle = Unit
Uses e (wants_write f) = f ≡ e
Uses e (wants_read f) = f ≡ e
Uses e (writing f) = f ≡ e
Uses e (reading f) = f ≡ e
Uses e (leaving f) = f ≡ e

count-append :
    (test : Thread → Bool) (xs ys : List Thread)
    → count test (xs ++ ys) ≡ count test xs + count test ys
unfolding count
count-append test [] ys = omega arith
count-append test (x ∷ xs) ys = omega (arith, count-append test xs ys)

count-middle :
    (test : Thread → Bool) (xs ys : List Thread) (t : Thread)
    → count test (xs ++ (t ∷ ys)) ≡ count test xs + ((if test t then 1 else 0) + count test ys)
count-middle test xs ys t = count-append test xs (t ∷ ys) ∙ unfold count in refl

-- The map has an entry exactly while threads use it, with their number, and all use that one.
abbrev SlotFits : Option (ℕ × ℕ) → List Thread → Type 0
SlotFits none ts = count is_busy ts ≡ 0
SlotFits (some (e, refs)) ts = (refs ≡ count is_busy ts) × (0 < refs) × All (Uses e) ts

-- No writer at an entry, or one writer and no reader.
abbrev Excludes : ℕ → List Thread → Type 0
Excludes e ts = (count (writes e) ts ≡ 0) ⊎ ((count (writes e) ts ≡ 1) × (count (holds e) ts ≡ 1))

record Inv (k : Lock) : Type 0 where
  fits : SlotFits k.slot k.threads
  excludes : (e : ℕ) → Excludes e k.threads

All-middle :
    (P Q : Thread → Type 0) (xs ys : List Thread) (t t' : Thread)
    → All P (xs ++ (t ∷ ys))
    → ((x : Thread) → P x → Q x)
    → (P t → Q t')
    → All Q (xs ++ (t' ∷ ys))
All-middle P Q [] ys t t' (h, hs) keep move = (move h, All-map P Q ys keep hs)
All-middle P Q (x ∷ xs) ys t t' (h, hs) keep move =
    (keep x h, All-middle P Q xs ys t t' hs keep move)

idle-Uses : (e : ℕ) (ts : List Thread) → count is_busy ts ≡ 0 → All (Uses e) ts
unfolding count is_busy
idle-Uses e [] h = tt
idle-Uses e (idle ∷ ts) h = (tt, idle-Uses e ts (omega arith))
idle-Uses e (wants_write f ∷ ts) h = absurd (omega arith)
idle-Uses e (wants_read f ∷ ts) h = absurd (omega arith)
idle-Uses e (writing f ∷ ts) h = absurd (omega arith)
idle-Uses e (reading f ∷ ts) h = absurd (omega arith)
idle-Uses e (leaving f ∷ ts) h = absurd (omega arith)

-- A thread that goes on with the same entry.
fits_move :
    (slot : Option (ℕ × ℕ)) (xs ys : List Thread) (t t' : Thread)
    → is_busy t ≡ true
    → is_busy t' ≡ true
    → ((e : ℕ) → Uses e t → Uses e t')
    → SlotFits slot (xs ++ (t ∷ ys))
    → SlotFits slot (xs ++ (t' ∷ ys))
fits_move none xs ys t t' b b' move h = absurd (ground (arith, count-middle is_busy xs ys t))
fits_move (some (e, refs)) xs ys t t' b b' move (same, pos, all_use) = (
  ground (arith, count-middle is_busy xs ys t, count-middle is_busy xs ys t'),
  pos,
  All-middle (Uses e) (Uses e) xs ys t t' all_use (λ x h. h) (move e),
)

fits_acquire :
    (slot : Option (ℕ × ℕ)) (fresh : ℕ) (xs ys : List Thread) (t' : Thread)
    → is_busy t' ≡ true
    → ((e : ℕ) → entry_for slot fresh ≡ e → Uses e t')
    → SlotFits slot (xs ++ (idle ∷ ys))
    → SlotFits (acquire_slot slot fresh) (xs ++ (t' ∷ ys))
unfolding acquire_slot entry_for is_busy
fits_acquire none fresh xs ys t' b u h = (
  ground (arith, count-middle is_busy xs ys idle, count-middle is_busy xs ys t'),
  omega arith,
  All-middle (Uses fresh) (Uses fresh) xs ys idle t' (idle-Uses fresh _ h) (λ x h. h)
      (λ _. u fresh refl),
)
fits_acquire (some (e, refs)) fresh xs ys t' b u (same, pos, all_use) = (
  ground (arith, count-middle is_busy xs ys idle, count-middle is_busy xs ys t'),
  omega arith,
  All-middle (Uses e) (Uses e) xs ys idle t' all_use (λ x h. h) (λ _. u e refl),
)

fits_release :
    (slot : Option (ℕ × ℕ)) (xs ys : List Thread) (f : ℕ)
    → SlotFits slot (xs ++ (leaving f ∷ ys))
    → SlotFits (release_slot slot) (xs ++ (idle ∷ ys))
unfolding release_slot is_busy
fits_release none xs ys f h =
    ground (arith, count-middle is_busy xs ys (leaving f), count-middle is_busy xs ys idle)
fits_release (some (e, refs)) xs ys f (same, pos, all_use) = elim (Bool-cases (refs - 1 == 0)) [
  | inl last ↦
      rw last
        (ground (arith, count-middle is_busy xs ys (leaving f), count-middle is_busy xs ys idle))
  | inr more ↦ rw more (
    ground (arith, count-middle is_busy xs ys (leaving f), count-middle is_busy xs ys idle),
    ground arith,
    All-middle (Uses e) (Uses e) xs ys (leaving f) idle all_use (λ x h. h) (λ _. tt),
  )
]

writes-le-holds : (e : ℕ) (ts : List Thread) → count (writes e) ts ≤ count (holds e) ts
unfolding count writes holds
writes-le-holds e [] = omega arith
writes-le-holds e (idle ∷ ts) = omega (arith, writes-le-holds e ts)
writes-le-holds e (wants_write f ∷ ts) = omega (arith, writes-le-holds e ts)
writes-le-holds e (wants_read f ∷ ts) = omega (arith, writes-le-holds e ts)
writes-le-holds e (writing f ∷ ts) = omega (arith, writes-le-holds e ts)
writes-le-holds e (reading f ∷ ts) = ground (arith, writes-le-holds e ts)
writes-le-holds e (leaving f ∷ ts) = omega (arith, writes-le-holds e ts)

-- Two threads in one place, seen by the two counts.
Excludes-move :
    (e : ℕ) (xs ys : List Thread) (t t' : Thread)
    → writes e t' ≡ false
    → (holds e t' ≡ true → holds e t ≡ true)
    → Excludes e (xs ++ (t ∷ ys))
    → Excludes e (xs ++ (t' ∷ ys))
Excludes-move e xs ys t t' w m h = ground (
  arith,
  count-middle (writes e) xs ys t,
  count-middle (writes e) xs ys t',
  count-middle (holds e) xs ys t,
  count-middle (holds e) xs ys t',
  writes-le-holds e xs,
  writes-le-holds e ys,
)

Excludes-take_write :
    (e f : ℕ) (xs ys : List Thread)
    → count (holds e) (xs ++ (wants_write e ∷ ys)) ≡ 0
    → Excludes f (xs ++ (wants_write e ∷ ys))
    → Excludes f (xs ++ (writing e ∷ ys))
unfolding holds writes
Excludes-take_write e f xs ys free h = ground (
  arith,
  count-middle (writes f) xs ys (wants_write e),
  count-middle (writes f) xs ys (writing e),
  count-middle (holds f) xs ys (wants_write e),
  count-middle (holds f) xs ys (writing e),
  count-middle (holds e) xs ys (wants_write e),
  writes-le-holds e xs,
  writes-le-holds e ys,
)

Excludes-take_read :
    (e f : ℕ) (xs ys : List Thread)
    → count (writes e) (xs ++ (wants_read e ∷ ys)) ≡ 0
    → Excludes f (xs ++ (wants_read e ∷ ys))
    → Excludes f (xs ++ (reading e ∷ ys))
unfolding holds writes
Excludes-take_read e f xs ys free h = ground (
  arith,
  count-middle (writes f) xs ys (wants_read e),
  count-middle (writes f) xs ys (reading e),
  count-middle (holds f) xs ys (wants_read e),
  count-middle (holds f) xs ys (reading e),
  count-middle (writes e) xs ys (wants_read e),
)

Step-Inv : {k l : Lock} → Step k l → Inv k → Inv l
unfolding acquire release is_busy writes holds
Step-Inv {k} (ask_write xs ys e) v = record {
  fits =
      fits_acquire k.slot k.fresh xs ys (wants_write (acquired k)) refl (λ f h. h)
        (subst (SlotFits k.slot) e v.fits);
  excludes = λ f.
      Excludes-move f xs ys idle (wants_write (acquired k)) refl (λ h. cc)
        (subst (Excludes f) e (v.excludes f));
}
Step-Inv {k} (ask_read xs ys e) v = record {
  fits =
      fits_acquire k.slot k.fresh xs ys (wants_read (acquired k)) refl (λ f h. h)
        (subst (SlotFits k.slot) e v.fits);
  excludes = λ f.
      Excludes-move f xs ys idle (wants_read (acquired k)) refl (λ h. cc)
        (subst (Excludes f) e (v.excludes f));
}
Step-Inv {k} (take_write xs ys g e free) v = record {
  fits =
      fits_move k.slot xs ys (wants_write g) (writing g) refl refl (λ f h. h)
        (subst (SlotFits k.slot) e v.fits);
  excludes = λ f.
      Excludes-take_write g f xs ys (sym (ap (count (holds g)) e) ∙ free)
        (subst (Excludes f) e (v.excludes f));
}
Step-Inv {k} (take_read xs ys g e free) v = record {
  fits =
      fits_move k.slot xs ys (wants_read g) (reading g) refl refl (λ f h. h)
        (subst (SlotFits k.slot) e v.fits);
  excludes = λ f.
      Excludes-take_read g f xs ys (sym (ap (count (writes g)) e) ∙ free)
        (subst (Excludes f) e (v.excludes f));
}
Step-Inv {k} (unlock_write xs ys g e) v = record {
  fits =
      fits_move k.slot xs ys (writing g) (leaving g) refl refl (λ f h. h)
        (subst (SlotFits k.slot) e v.fits);
  excludes = λ f.
      Excludes-move f xs ys (writing g) (leaving g) refl (λ h. cc)
        (subst (Excludes f) e (v.excludes f));
}
Step-Inv {k} (unlock_read xs ys g e) v = record {
  fits =
      fits_move k.slot xs ys (reading g) (leaving g) refl refl (λ f h. h)
        (subst (SlotFits k.slot) e v.fits);
  excludes = λ f.
      Excludes-move f xs ys (reading g) (leaving g) refl (λ h. cc)
        (subst (Excludes f) e (v.excludes f));
}
Step-Inv {k} (drop_ref xs ys g e) v = record {
  fits = fits_release k.slot xs ys g (subst (SlotFits k.slot) e v.fits);
  excludes = λ f.
      Excludes-move f xs ys (leaving g) idle refl (λ h. cc) (subst (Excludes f) e (v.excludes f));
}

Reach-Inv : {k l : Lock} → Inv k → Reach k l → Inv l
Reach-Inv v here = v
Reach-Inv v (next r s) = Step-Inv s (Reach-Inv v r)

-- No entry for the name, and goroutines that have not asked yet.
abbrev idle_threads : ℕ → List Thread
idle_threads zero = []
idle_threads (suc n) = idle ∷ idle_threads n

abbrev pub start : ℕ → Lock
start n = record { slot = none; fresh = 0; threads = idle_threads n }

count-idle_threads :
    (test : Thread → Bool) → test idle ≡ false → (n : ℕ) → count test (idle_threads n) ≡ 0
unfolding count
count-idle_threads test h zero = refl
count-idle_threads test h (suc n) = ground (arith, count-idle_threads test h n)

start-Inv : (n : ℕ) → Inv (start n)
unfolding is_busy writes
start-Inv n = record {
  fits = count-idle_threads is_busy refl n;
  excludes = λ e. inl (count-idle_threads (writes e) refl n);
}

abbrev pub IsOutside : Thread → Type 0
IsOutside (writing e) = ⊥
IsOutside (reading e) = ⊥
IsOutside _ = Unit

IsOutside-All :
    (e : ℕ) (ts : List Thread) → All (Uses e) ts → count (holds e) ts ≡ 0 → All IsOutside ts
unfolding count holds
IsOutside-All e [] u h = tt
IsOutside-All e (idle ∷ ts) (_, u) h = (tt, IsOutside-All e ts u (omega arith))
IsOutside-All e (wants_write f ∷ ts) (_, u) h = (tt, IsOutside-All e ts u (omega arith))
IsOutside-All e (wants_read f ∷ ts) (_, u) h = (tt, IsOutside-All e ts u (omega arith))
IsOutside-All e (writing f ∷ ts) (same, u) h = absurd (ground arith)
IsOutside-All e (reading f ∷ ts) (same, u) h = absurd (ground arith)
IsOutside-All e (leaving f ∷ ts) (_, u) h = (tt, IsOutside-All e ts u (omega arith))

alone :
    (slot : Option (ℕ × ℕ)) (xs ys : List Thread) (e : ℕ)
    → SlotFits slot (xs ++ (writing e ∷ ys))
    → ((f : ℕ) → Excludes f (xs ++ (writing e ∷ ys)))
    → All IsOutside (xs ++ ys)
unfolding holds writes is_busy
alone none xs ys e h x = absurd (ground (arith, count-middle is_busy xs ys (writing e)))
alone (some (f, refs)) xs ys e (_, _, u) x =
    let front = All-append_left (Uses f) xs (writing e ∷ ys) u in
    let (same, back) = All-append_right (Uses f) xs (writing e ∷ ys) u in
    IsOutside-All f (xs ++ ys) (All-append (Uses f) xs ys front back) (
      ground (
        arith,
        x f,
        count-middle (holds f) xs ys (writing e),
        count-middle (writes f) xs ys (writing e),
        count-append (holds f) xs ys,
      ))

-- However any number of goroutines interleave, while one of them holds the name for writing no
-- other holds it, neither for writing nor for reading, though entries come and go.
pub mutual_exclusion :
    (n : ℕ) (k : Lock) (xs ys : List Thread) (e : ℕ)
    → Reach (start n) k
    → k.threads ≡ xs ++ (writing e ∷ ys)
    → All IsOutside (xs ++ ys)
mutual_exclusion n k xs ys e r h =
    let v = Reach-Inv (start-Inv n) r in
    alone k.slot xs ys e (subst (SlotFits k.slot) h v.fits)
      (λ f. subst (Excludes f) h (v.excludes f))

-- The map has an entry for the name exactly while some goroutine is between its call of `Lock` or
-- `RLock` and the end of the unlocking function, and `refs` is the number of those goroutines.
pub entry_lives :
    (n : ℕ) (k : Lock)
    → Reach (start n) k
    → ((k.slot ≡ none) × (count is_busy k.threads ≡ 0))
      ⊎ ((e : ℕ) × (k.slot ≡ some (e, count is_busy k.threads)) × (0 < count is_busy k.threads))
entry_lives n k r = go k.slot refl (Reach-Inv (start-Inv n) r).fits
  where
    go :
        (slot : Option (ℕ × ℕ))
        → k.slot ≡ slot
        → SlotFits slot k.threads
        → ((k.slot ≡ none) × (count is_busy k.threads ≡ 0))
          ⊎ ((e : ℕ) × (k.slot ≡ some (e, count is_busy k.threads)) × (0 < count is_busy k.threads))
    go none same h = inl (same, h)
    go (some (e, refs)) same (number, pos, _) =
        inr (e, same ∙ ap (λ r. some (e, r)) number, subst (λ r. 0 < r) number pos)
