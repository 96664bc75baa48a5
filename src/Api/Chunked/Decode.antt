-- ===== src/Api/Chunked/Decode.antt =====
-- What the decoder makes of a well-formed stream.
use locals.Base.{
  ℕ, zero, suc, ◌-◌, ◌≤◌, ◌<◌, ◌≡◌, ◌≢◌, refl, sym, ap, ◌∙◌, Bool, true, false, List, [], ◌∷◌, ◌++◌,
  append_assoc, Option, none, some, arith, Bytes, All, beq, cut, cut-append, Lacks, contains_byte,
  length, length-append, take, drop, take-append-drop, length-take, length-drop, trim_right, Result,
  ok, min,
}
use locals.Store.Error.{Error}
use locals.Api.Chunked.{
  newline, carriage, is_line_end, read_line, chunk_size, read_chunk_header, expect_crlf, Reader,
  new_reader, going, read_data, open_chunk, next_chunk, read, conclude, read_all,
}

abbrev pub crlf : Bytes
crlf = carriage ∷ newline ∷ []

-- A line that holds no line end, as `readLine` sees it.
abbrev pub IsLine : Bytes → Type 0
IsLine line = Lacks newline line × (trim_right is_line_end (line ++ (carriage ∷ [])) ≡ line)

-- A chunk: its header line, whatever extensions it has, and its bytes.
abbrev pub IsChunk : Bytes × Bytes → Type 0
IsChunk (line, body) = IsLine line × (chunk_size line ≡ ok (length body)) × (0 < length body)

-- The trailer lines that follow the closing chunk, and the empty line that ends the stream.
pub trailer_part : List Bytes → Bytes
trailer_part [] = crlf
trailer_part (line ∷ lines) = line ++ (crlf ++ trailer_part lines)

-- The stream of some chunks, with `last` for the header of the closing chunk, and the lines of the
-- trailers behind it.
pub wire : List (Bytes × Bytes) → Bytes → List Bytes → Bytes
wire [] last lines = last ++ (crlf ++ trailer_part lines)
wire ((line, body) ∷ chunks) last lines =
    line ++ (crlf ++ (body ++ (crlf ++ wire chunks last lines)))

-- The bytes that the chunks carry.
pub payload : List (Bytes × Bytes) → Bytes
payload [] = []
payload ((line, body) ∷ chunks) = body ++ payload chunks

Lacks-carriage : (line : Bytes) → Lacks newline line → Lacks newline (line ++ (carriage ∷ []))
unfolding contains_byte
Lacks-carriage [] h = refl
Lacks-carriage (c ∷ line) h = ground (arith, Lacks-carriage line)

cut-crlf :
    (line rest : Bytes)
    → Lacks newline line
    → cut (line ++ (crlf ++ rest)) newline ≡ (line ++ (carriage ∷ []), rest, true)
cut-crlf line rest h =
    ap (λ (t : Bytes). cut t newline) (sym (append_assoc line (carriage ∷ []) (newline ∷ rest)))
    ∙ cut-append (line ++ (carriage ∷ [])) rest newline (Lacks-carriage line h)

read_line_step :
    (s line rest : Bytes)
    → s ≢ []
    → cut s newline ≡ (line, rest, true)
    → read_line s ≡ some (trim_right is_line_end line, rest)
unfolding read_line
read_line_step [] line rest h e = absurd (h refl)
read_line_step (c ∷ s) line rest h e = rw e

append_ne_nil : (line rest : Bytes) → line ++ (crlf ++ rest) ≢ []
append_ne_nil [] rest = λ e. cc
append_ne_nil (c ∷ line) rest = λ e. cc

read_line-crlf :
    (line rest : Bytes) → IsLine line → read_line (line ++ (crlf ++ rest)) ≡ some (line, rest)
read_line-crlf line rest (lacks, whole) =
    read_line_step _ _ _ (append_ne_nil line rest) (cut-crlf line rest lacks)
    ∙ ap (λ (t : Bytes). some (t, rest)) whole

read_chunk_header-crlf :
    (line rest : Bytes) (n : ℕ)
    → IsLine line
    → chunk_size line ≡ ok n
    → read_chunk_header (line ++ (crlf ++ rest)) ≡ ok (n, rest)
unfolding read_chunk_header
read_chunk_header-crlf line rest n l e = rw (read_line-crlf line rest l, e, read_chunk_header)

-- Inside a chunk: `body` is what is left of it, and `rest` follows.
abbrev inside : Bytes → Bytes → Reader
inside body rest = record {
  input = body ++ rest;
  remain = length body;
  started = true;
  done = false;
  trailers = [];
  failed = none;
}

-- Before a chunk's header.
abbrev before : Bool → Bytes → Reader
before started input = record {
  input = input;
  remain = 0;
  started = started;
  done = false;
  trailers = [];
  failed = none;
}

take_front : (m : ℕ) (body rest : Bytes) → m ≤ length body → take m (body ++ rest) ≡ take m body
take_front zero body rest h = refl
take_front (suc m) [] rest h = absurd (omega arith)
take_front (suc m) (c ∷ body) rest h =
    ap (λ (t : Bytes). c ∷ t) (take_front m body rest (omega arith))

drop_front :
    (m : ℕ) (body rest : Bytes) → m ≤ length body → drop m (body ++ rest) ≡ drop m body ++ rest
drop_front zero body rest h = refl
drop_front (suc m) [] rest h = absurd (omega arith)
drop_front (suc m) (c ∷ body) rest h = drop_front m body rest (omega arith)

-- A read inside a chunk takes some of its bytes and leaves the others.
read_data-inside :
    (x : ℕ) (xs rest : Bytes) (size : ℕ)
    → read_data (inside (x ∷ xs) rest) size ≡ (
      take (min size (suc (length xs))) (x ∷ xs),
      going,
      inside (drop (min size (suc (length xs))) (x ∷ xs)) rest,
    )
unfolding read_data beq
read_data-inside x xs rest size =
    let m = min size (suc (length xs)) in
    let fits : m ≤ length (x ∷ xs) = omega arith in
    let t = take_front m (x ∷ xs) rest fits in
    let d = drop_front m (x ∷ xs) rest fits in
    let l : suc (length xs) - length (take m (x ∷ (xs ++ rest))) ≡ length (drop m (x ∷ xs)) =
      ap (λ (t : Bytes). suc (length xs) - length t) t
      ∙ omega (arith, length-take m (x ∷ xs), length-drop m (x ∷ xs)) in
    λ i. (
      t i,
      going,
      record {
        input = d i;
        remain = l i;
        started = true;
        done = false;
        trailers = [];
        failed = none;
      },
    )

open_last :
    (started : Bool) (last : Bytes) (lines : List Bytes) (size : ℕ)
    → IsLine last
    → chunk_size last ≡ ok 0
    → (k : Reader → Option (Result Error Bytes))
    → conclude (open_chunk (before started (wire [] last lines)) size) k ≡ some (ok [])
unfolding open_chunk wire
open_last started last lines size l e k =
    rw (read_chunk_header-crlf last (trailer_part lines) 0 l e, open_chunk)

open_more :
    (started : Bool) (line : Bytes) (x : ℕ) (xs rest : Bytes) (size : ℕ)
    → IsLine line
    → chunk_size line ≡ ok (suc (length xs))
    → open_chunk (before started (line ++ (crlf ++ ((x ∷ xs) ++ rest)))) size
      ≡ read_data (inside (x ∷ xs) rest) size
unfolding open_chunk
open_more started line x xs rest size l e =
    rw (read_chunk_header-crlf line ((x ∷ xs) ++ rest) (suc (length xs)) l e, open_chunk)

abbrev rest_of : List (Bytes × Bytes) → Bytes → List Bytes → Bytes
rest_of chunks last lines = crlf ++ wire chunks last lines

-- Reads inside a chunk, and from its end into the next.
read-inside :
    (x : ℕ) (xs rest : Bytes) (size : ℕ)
    → read (inside (x ∷ xs) rest) size ≡ read_data (inside (x ∷ xs) rest) size
unfolding read
read-inside x xs rest size = ground arith

read-end :
    (chunks : List (Bytes × Bytes)) (last : Bytes) (lines : List Bytes) (size : ℕ)
    → read (inside [] (rest_of chunks last lines)) size
      ≡ open_chunk (before true (wire chunks last lines)) size
unfolding read next_chunk expect_crlf
read-end chunks last lines size = refl

read-start :
    (input : Bytes) (size : ℕ) → read (new_reader input) size ≡ open_chunk (before false input) size
unfolding read next_chunk
read-start input size = refl

-- One read of a chunk's bytes, and what the loop makes of the others.
data_step :
    (x : ℕ) (xs rest tail : Bytes) (size : ℕ) (k : Reader → Option (Result Error Bytes))
    → k (inside (drop (min size (suc (length xs))) (x ∷ xs)) rest)
      ≡ some (ok (drop (min size (suc (length xs))) (x ∷ xs) ++ tail))
    → conclude (read_data (inside (x ∷ xs) rest) size) k ≡ some (ok ((x ∷ xs) ++ tail))
data_step x xs rest tail size k h =
    let m = min size (suc (length xs)) in
    ap (λ r. conclude r k) (read_data-inside x xs rest size)
    ∙ rw (h, conclude)
        (ap (λ (t : Bytes). some (ok t))
          (sym (append_assoc (take m (x ∷ xs)) (drop m (x ∷ xs)) tail)
            ∙ ap (λ (t : Bytes). t ++ tail) (take-append-drop m (x ∷ xs))))

shorter :
    (x : ℕ) (xs rest : Bytes) (size : ℕ)
    → length (drop (min (suc size) (suc (length xs))) (x ∷ xs) ++ rest) < length ((x ∷ xs) ++ rest)
shorter x xs rest size =
    let m = min (suc size) (suc (length xs)) in
    omega (
      arith,
      length-append (drop m (x ∷ xs)) rest,
      length-append (x ∷ xs) rest,
      length-drop m (x ∷ xs),
    )

wire_longer :
    (line body : Bytes) (chunks : List (Bytes × Bytes)) (last : Bytes) (lines : List Bytes)
    → length (body ++ rest_of chunks last lines) < length (wire ((line, body) ∷ chunks) last lines)
unfolding wire
wire_longer line body chunks last lines =
    omega (arith, length-append line (crlf ++ (body ++ rest_of chunks last lines)))

wire-cons :
    (line body : Bytes) (chunks : List (Bytes × Bytes)) (last : Bytes) (lines : List Bytes)
    → wire ((line, body) ∷ chunks) last lines
      ≡ line ++ (crlf ++ (body ++ rest_of chunks last lines))
unfolding wire
wire-cons line body chunks last lines = refl

module _ (last : Bytes) (closing : IsLine last) (zero_size : chunk_size last ≡ ok 0)
    (lines : List Bytes) (size : ℕ) where
  -- The header of a chunk and its first bytes.
  opened :
      (started : Bool) (line : Bytes) (x : ℕ) (xs : Bytes) (chunks : List (Bytes × Bytes))
      → IsChunk (line, x ∷ xs)
      → open_chunk (before started (wire ((line, x ∷ xs) ∷ chunks) last lines)) (suc size)
        ≡ read_data (inside (x ∷ xs) (rest_of chunks last lines)) (suc size)
  opened started line x xs chunks (l, e, _) =
      ap (λ t. open_chunk (before started t) (suc size)) (wire-cons line (x ∷ xs) chunks last lines)
      ∙ open_more started line x xs (rest_of chunks last lines) (suc size) l e

  -- The loop inside a chunk, or at its end.
  read_all-inside :
      (fuel : ℕ) (body : Bytes) (chunks : List (Bytes × Bytes))
      → All IsChunk chunks
      → length (body ++ rest_of chunks last lines) < fuel
      → read_all fuel (suc size) (inside body (rest_of chunks last lines))
        ≡ some (ok (body ++ payload chunks))
  unfolding read_all payload
  read_all-inside zero body chunks good h = absurd (omega arith)
  read_all-inside (suc fuel) [] [] good h =
      ap (λ r. conclude r (λ c. read_all fuel (suc size) c)) (read-end [] last lines (suc size))
      ∙ open_last true last lines (suc size) closing zero_size (λ c. read_all fuel (suc size) c)
  read_all-inside (suc fuel) [] ((line, []) ∷ chunks) ((l, e, pos), good) h = absurd (omega arith)
  read_all-inside (suc fuel) [] ((line, x ∷ xs) ∷ chunks) (chunk, good) h =
      ap (λ r. conclude r (λ c. read_all fuel (suc size) c))
        (read-end ((line, x ∷ xs) ∷ chunks) last lines (suc size)
          ∙ opened true line x xs chunks chunk)
      ∙ data_step x xs (rest_of chunks last lines) (payload chunks) (suc size)
          (λ c. read_all fuel (suc size) c)
          (read_all-inside fuel (drop (min (suc size) (suc (length xs))) (x ∷ xs)) chunks good (
            omega (
              arith,
              shorter x xs (rest_of chunks last lines) size,
              wire_longer line (x ∷ xs) chunks last lines,
            )))
  read_all-inside (suc fuel) (x ∷ xs) chunks good h =
      ap (λ r. conclude r (λ c. read_all fuel (suc size) c))
        (read-inside x xs (rest_of chunks last lines) (suc size))
      ∙ data_step x xs (rest_of chunks last lines) (payload chunks) (suc size)
          (λ c. read_all fuel (suc size) c)
          (read_all-inside fuel (drop (min (suc size) (suc (length xs))) (x ∷ xs)) chunks good
            (omega (arith, shorter x xs (rest_of chunks last lines) size)))

  -- A well-formed stream of any chunks, whatever the extensions of their headers, whatever trailer lines
  -- stand behind the closing chunk, and whatever the size of the buffer (one byte or more), is read to its
  -- end and gives the bytes that the chunks carry, none lost and no framing among them. One round more
  -- than the stream has bytes is enough.
  pub read_all-wire :
      (chunks : List (Bytes × Bytes))
      → All IsChunk chunks
      → read_all
          (suc (length (wire chunks last lines)))
          (suc size)
          (new_reader (wire chunks last lines))
        ≡ some (ok (payload chunks))
  unfolding read_all payload
  read_all-wire [] good =
      let k : Reader → Option (Result Error Bytes) =
        read_all (length (wire [] last lines)) (suc size) in
      ap (λ r. conclude r k) (read-start (wire [] last lines) (suc size))
      ∙ open_last false last lines (suc size) closing zero_size k
  read_all-wire ((line, []) ∷ chunks) ((l, e, pos), good) = absurd (omega arith)
  read_all-wire ((line, x ∷ xs) ∷ chunks) (chunk, good) =
      let fuel = length (wire ((line, x ∷ xs) ∷ chunks) last lines) in
      ap (λ r. conclude r (λ c. read_all fuel (suc size) c))
        (read-start (wire ((line, x ∷ xs) ∷ chunks) last lines) (suc size)
          ∙ opened false line x xs chunks chunk)
      ∙ data_step x xs (rest_of chunks last lines) (payload chunks) (suc size)
          (λ c. read_all fuel (suc size) c)
          (read_all-inside fuel (drop (min (suc size) (suc (length xs))) (x ∷ xs)) chunks good (
            omega (
              arith,
              shorter x xs (rest_of chunks last lines) size,
              wire_longer line (x ∷ xs) chunks last lines,
            )))
