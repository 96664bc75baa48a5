-- ===== src/Api/Chunked/Total.antt =====
-- Reading an aws-chunked stream always comes to an end (internal/s3api/chunked.go).
use locals.Base.{
  ℕ, zero, suc, ◌≤◌, ◌<◌, ◌≡◌, refl, Bool, true, false, ◌||◌, not, [], ◌∷◌, ◌++◌, Option, none,
  some, Bytes, arith, beq, cut, length, length-drop, min, if◌then◌else◌, Bool-cases, inl, inr,
  Result, ok, err, ◌==◌,
}
use locals.Store.Error.{Error}
use locals.Api.Chunked.{
  malformed, Fault, newline, carriage, read_line, chunk_size, read_chunk_header, expect_crlf,
  read_trailers, Reader, Read, going, eof, stopped, give_up, read_data, open_chunk, next_chunk,
  read, conclude, read_all,
}

-- A read that does not end the loop leaves fewer than `n` bytes in the stream.
abbrev Shrinks : ℕ → Read → Type 0
Shrinks n (got, going, c) = length c.input < n
Shrinks n (got, eof, c) = Unit
Shrinks n (got, stopped e, c) = Unit

length-cut : (s : Bytes) (sep : ℕ) → length (cut s sep).1 ≤ length s
unfolding cut
length-cut [] sep = omega arith
length-cut (c ∷ s) sep = ground (arith, length-cut s sep)

full-length : (s : Bytes) → beq s [] ≡ false → 0 < length s
unfolding beq
full-length [] h = absurd cc
full-length (c ∷ s) h = omega arith

read_data-Shrinks :
    (c : Reader) (k n : ℕ) → length c.input ≤ n → 0 < c.remain → Shrinks n (read_data c (suc k))
unfolding read_data
read_data-Shrinks c k n h more = elim (Bool-cases (beq c.input [])) [
  | inl empty ↦ rw empty tt
  | inr full ↦
      rw full (omega (arith, length-drop (min (suc k) c.remain) c.input, full-length c.input full))
]

-- What a header or a line's end leaves of the stream.
abbrev LeavesAtMost : ℕ → Result Fault (ℕ × Bytes) → Type 0
LeavesAtMost n (ok (size, rest)) = length rest ≤ n
LeavesAtMost n (err e) = Unit

read_chunk_header-LeavesAtMost : (s : Bytes) → LeavesAtMost (length s) (read_chunk_header s)
unfolding read_chunk_header read_line
read_chunk_header-LeavesAtMost [] = tt
read_chunk_header-LeavesAtMost (c ∷ s) = go (chunk_size _)
  where
    go :
        (r : Result Fault ℕ)
        → LeavesAtMost
            (length (c ∷ s))
            (elim r [ err e ↦ err e | ok n ↦ ok (n, (cut (c ∷ s) newline).1) ])
    go (ok n) = length-cut (c ∷ s) newline
    go (err e) = tt

open_chunk-Shrinks : (c : Reader) (k n : ℕ) → length c.input ≤ n → Shrinks n (open_chunk c (suc k))
unfolding open_chunk
open_chunk-Shrinks c k n h = go (read_chunk_header c.input) (read_chunk_header-LeavesAtMost c.input)
  where
    go :
        (r : Result Fault (ℕ × Bytes))
        → LeavesAtMost (length c.input) r
        → Shrinks n (elim r [
          | err e ↦ give_up c e
          | ok (zero, rest) ↦
              let (input, trailers) = read_trailers (suc (length rest)) rest [] in
              (
                [],
                eof,
                record c { input = input; started = true; done = true; trailers = trailers },
              )
          | ok (suc m, rest) ↦
              read_data (record c { input = rest; started = true; remain = suc m }) (suc k)
        ])
    go (err e) l = tt
    go (ok (zero, rest)) l = tt
    go (ok (suc m, rest)) l =
        read_data-Shrinks (record c { input = rest; started = true; remain = suc m }) k n
          (omega arith) (omega arith)

-- What follows the end of a chunk.
abbrev behind : Reader → ℕ → Result Fault Bytes → Read
behind c size (err e) = give_up c e
behind c size (ok rest) = open_chunk (record c { input = rest }) size

behind-Shrinks :
    (c : Reader) (s : Bytes) (k n : ℕ) → length s ≤ n → Shrinks n (behind c (suc k) (expect_crlf s))
unfolding expect_crlf
behind-Shrinks c [] k n l = tt
behind-Shrinks c (a ∷ []) k n l = tt
behind-Shrinks c (a ∷ b ∷ rest) k n l = go (not (a == carriage) || not (b == newline))
  where
    go : (wrong : Bool) → Shrinks n (behind c (suc k) (if wrong then err malformed else ok rest))
    go true = tt
    go false = open_chunk-Shrinks (record c { input = rest }) k n (omega arith)

next_chunk-Shrinks : (c : Reader) (k n : ℕ) → length c.input ≤ n → Shrinks n (next_chunk c (suc k))
unfolding next_chunk
next_chunk-Shrinks c k n h = go c.done c.started
  where
    go :
        (over later : Bool)
        → Shrinks n (
            if over
            then ([], eof, c)
            else if later
            then behind c (suc k) (expect_crlf c.input)
            else open_chunk c (suc k))
    go true later = tt
    go false true = behind-Shrinks c c.input k n h
    go false false = open_chunk-Shrinks c k n h

read-Shrinks : (c : Reader) (k : ℕ) → Shrinks (length c.input) (read c (suc k))
unfolding read
read-Shrinks c k = go c.failed
  where
    inside :
        (between : Bool)
        → (between ≡ false → 0 < c.remain)
        → Shrinks (length c.input) (if between then next_chunk c (suc k) else read_data c (suc k))
    inside true more = next_chunk-Shrinks c k (length c.input) (omega arith)
    inside false more = read_data-Shrinks c k (length c.input) (omega arith) (more refl)

    go :
        (o : Option Error)
        → Shrinks (length c.input) (elim o [
          | some e ↦ ([], stopped e, c)
          | none ↦ if c.remain == 0 then next_chunk c (suc k) else read_data c (suc k)
        ])
    go (some e) = tt
    go none = inside (c.remain == 0) (λ h. ground arith)

-- A reader in any state, over any stream and with a buffer of one byte or more, comes to the end of
-- the body or to an error within one round more than the stream has bytes.
pub read_all_ends :
    (fuel size : ℕ) (c : Reader)
    → 0 < size
    → length c.input < fuel
    → (r : Result Error Bytes) × (read_all fuel size c ≡ some r)
unfolding read_all
read_all_ends zero size c pos h = absurd (omega arith)
read_all_ends (suc fuel) zero c pos h = absurd (omega arith)
read_all_ends (suc fuel) (suc k) c pos h =
    go (read c (suc k)) (read-Shrinks c k) (λ c' l. read_all_ends fuel (suc k) c' (omega arith) l)
  where
    go :
        (r : Read)
        → Shrinks (length c.input) r
        → ((c' : Reader)
            → length c'.input < fuel
            → (r : Result Error Bytes) × (read_all fuel (suc k) c' ≡ some r))
        → (a : Result Error Bytes) × (conclude r (λ c'. read_all fuel (suc k) c') ≡ some a)
    go (got, eof, c') l rest = (ok got, refl)
    go (got, stopped e, c') l rest = (err e, refl)
    go (got, going, c') l rest = let (a, e) = rest c' (omega arith) in joined a e
      where
        joined :
            (a : Result Error Bytes)
            → read_all fuel (suc k) c' ≡ some a
            → (a : Result Error Bytes) × (conclude (got, going, c') (λ d. read_all fuel (suc k) d)
                ≡ some a)
        joined (ok more) e = (ok (got ++ more), rw (e, conclude) refl)
        joined (err x) e = (err x, rw (e, conclude) refl)
