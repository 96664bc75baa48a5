-- ===== src/Store/Lock.antt =====
-- `KeyedLock` (internal/store/lock.go) under any interleaving of goroutines. `acquire` and
-- `release` hold `mu` and are one step each; taking and giving back the entry's mutex are steps of
-- their own. One name is followed, for which all goroutines of the model ask: entries of other
-- names do not touch it. An entry is known by the number of its allocation, since a goroutine keeps
-- its pointer while the map may drop the entry and allocate another.
pub mod Exclusion
use locals.Base.{
  ℕ, suc, ◌+◌, ◌-◌, ◌≡◌, Bool, true, false, ◌&&◌, List, [], ◌∷◌, ◌++◌, Option, none, some,
  if◌then◌else◌, ◌==◌,
}

-- Where a goroutine stands in `Lock` or `RLock` and in the function that they return.
pub data Thread : Type 0 where
  -- outside
  idle : Thread
  -- behind `acquire`, before `e.rw.Lock()` or `e.rw.RLock()` returns
  wants_write wants_read : ℕ → Thread
  -- with the mutex of its entry
  writing reading : ℕ → Thread
  -- behind `e.rw.Unlock()` or `e.rw.RUnlock()`, before `k.release(name)`
  leaving : ℕ → Thread

-- `m[name]`: the entry and its `refs`; and the number of the next allocation.
pub record Lock : Type 0 where
  pub slot : Option (ℕ × ℕ)
  pub fresh : ℕ
  pub threads : List Thread

-- The entry that `acquire` returns: the one of the map, or a new one.
unfoldable pub entry_for : Option (ℕ × ℕ) → ℕ → ℕ
entry_for none fresh = fresh
entry_for (some (e, refs)) fresh = e

-- What `acquire` and `release` make of `m[name]`.
unfoldable pub acquire_slot : Option (ℕ × ℕ) → ℕ → Option (ℕ × ℕ)
acquire_slot none fresh = some (fresh, 1)
acquire_slot (some (e, refs)) fresh = some (e, refs + 1)

unfoldable pub release_slot : Option (ℕ × ℕ) → Option (ℕ × ℕ)
release_slot none = none
release_slot (some (e, refs)) = if refs - 1 == 0 then none else some (e, refs - 1)

next_fresh : Option (ℕ × ℕ) → ℕ → ℕ
next_fresh none fresh = suc fresh
next_fresh (some (e, refs)) fresh = fresh

abbrev pub acquired : Lock → ℕ
acquired k = entry_for k.slot k.fresh

unfoldable pub acquire : Lock → Lock
unfolding next_fresh
acquire k = record k { slot = acquire_slot k.slot k.fresh; fresh = next_fresh k.slot k.fresh }

unfoldable pub release : Lock → Lock
release k = record k { slot = release_slot k.slot }

unfoldable pub count : (Thread → Bool) → List Thread → ℕ
count test [] = 0
count test (t ∷ ts) = (if test t then 1 else 0) + count test ts

-- Whether a thread holds the mutex of an entry, in either way or for writing.
unfoldable pub holds : ℕ → Thread → Bool
holds e idle = false
holds e (wants_write f) = false
holds e (wants_read f) = false
holds e (writing f) = f == e
holds e (reading f) = f == e
holds e (leaving f) = false

unfoldable pub writes : ℕ → Thread → Bool
writes e idle = false
writes e (wants_write f) = false
writes e (wants_read f) = false
writes e (writing f) = f == e
writes e (reading f) = false
writes e (leaving f) = false

-- One thread goes on. A `sync.RWMutex` lets a writer in where nobody holds it, and a reader where
-- no writer does.
pub data Step (k : Lock) : Lock → Type 0 where
  ask_write :
      (xs ys : List Thread)
      → k.threads ≡ xs ++ (idle ∷ ys)
      → Step k (record (acquire k) { threads = xs ++ (wants_write (acquired k) ∷ ys) })
  ask_read :
      (xs ys : List Thread)
      → k.threads ≡ xs ++ (idle ∷ ys)
      → Step k (record (acquire k) { threads = xs ++ (wants_read (acquired k) ∷ ys) })
  take_write :
      (xs ys : List Thread) (e : ℕ)
      → k.threads ≡ xs ++ (wants_write e ∷ ys)
      → count (holds e) k.threads ≡ 0
      → Step k (record k { threads = xs ++ (writing e ∷ ys) })
  take_read :
      (xs ys : List Thread) (e : ℕ)
      → k.threads ≡ xs ++ (wants_read e ∷ ys)
      → count (writes e) k.threads ≡ 0
      → Step k (record k { threads = xs ++ (reading e ∷ ys) })
  unlock_write :
      (xs ys : List Thread) (e : ℕ)
      → k.threads ≡ xs ++ (writing e ∷ ys)
      → Step k (record k { threads = xs ++ (leaving e ∷ ys) })
  unlock_read :
      (xs ys : List Thread) (e : ℕ)
      → k.threads ≡ xs ++ (reading e ∷ ys)
      → Step k (record k { threads = xs ++ (leaving e ∷ ys) })
  drop_ref :
      (xs ys : List Thread) (e : ℕ)
      → k.threads ≡ xs ++ (leaving e ∷ ys)
      → Step k (record (release k) { threads = xs ++ (idle ∷ ys) })

pub data Reach (k : Lock) : Lock → Type 0 where
  here : Reach k k
  next : {l m : Lock} → Reach k l → Step l m → Reach k m
