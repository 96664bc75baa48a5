-- ===== src/Api/Chunked.antt =====
-- The aws-chunked decoder (internal/s3api/chunked.go): `chunkedReader`. The underlying stream is
-- the list of the bytes that it has left, and a read of it fills the caller's buffer as far as the
-- stream lasts.
pub mod Decode
pub mod Total
use mathlib.Core.List.{reverse}
use locals.Base.{
  ℕ, zero, suc, ◌+◌, ◌-◌, ◌≡◌, refl, Bool, true, false, ◌&&◌, ◌||◌, not, List, [], ◌∷◌, ◌++◌,
  Option, none, some, Bytes, codes, ltb, ◌==◌, if◌then◌else◌, beq, cut, index_byte, length, take,
  drop, trim_space, trim_right, Result, ok, err, min,
}
use locals.Store.Error.{Error, incomplete_body, bad_body}
use locals.Base.Int.{ℤ, pos, negsuc, parse_int}

-- What a call of the stream or of the reader ends with, beside its bytes.
pub data Fault : Type 0 where
  end_of_stream malformed : Fault

abbrev pub newline : ℕ
newline = 10

abbrev pub carriage : ℕ
carriage = 13

unfoldable pub is_line_end : ℕ → Bool
is_line_end c = c == newline || c == carriage

-- `readLine`: `ReadString('\n')` without the line's end, and the stream behind it. A last line with
-- no newline counts; at the end of the stream there is none.
unfoldable pub read_line : Bytes → Option (Bytes × Bytes)
unfolding is_line_end
read_line [] = none
read_line (c ∷ s) =
    let (line, rest, found) = cut (c ∷ s) newline in some (trim_right is_line_end line, rest)

-- The line without its extensions.
before_extension : Bytes → Bytes
before_extension line = elim (index_byte line b';') [ none ↦ line | some i ↦ take i line ]

unfoldable pub chunk_size : Bytes → Result Fault ℕ
unfolding before_extension
chunk_size line =
    let digits = trim_space (before_extension line) in
    if beq digits [] then err malformed else elim (parse_int 16 digits) [
      | none ↦ err malformed
      | some (negsuc n) ↦ err malformed
      | some (pos n) ↦ ok n
    ]

-- `readChunkHeader`
unfoldable pub read_chunk_header : Bytes → Result Fault (ℕ × Bytes)
read_chunk_header input = elim (read_line input) [
  | none ↦ err end_of_stream
  | some (line, rest) ↦ elim (chunk_size line) [ err e ↦ err e | ok n ↦ ok (n, rest) ]
]

-- `expectCRLF`
unfoldable pub expect_crlf : Bytes → Result Fault Bytes
expect_crlf [] = err end_of_stream
expect_crlf (a ∷ []) = err end_of_stream
expect_crlf (a ∷ b ∷ rest) =
    if not (a == carriage) || not (b == newline) then err malformed else ok rest

abbrev pub Trailers : Type 0
Trailers = List (Bytes × Bytes)

-- `readTrailers`: the lines up to a blank one or to the end of the stream, a round for each. The
-- header that a later line sets again stands later in the list.
unfoldable pub read_trailers : ℕ → Bytes → Trailers → Bytes × Trailers
read_trailers zero input trailers = (input, trailers)
read_trailers (suc fuel) input trailers = elim (read_line input) [
  | none ↦ (input, trailers)
  | some (line, rest) ↦ elim (beq (trim_space line) []) [
    | true ↦ (rest, trailers)
    | false ↦
        let (name, value, found) = cut line b':' in
        let next : Trailers =
          if found then trailers ++ ((trim_space name, trim_space value) ∷ []) else trailers in
        read_trailers fuel rest next
  ]
]

-- `chunkedReader`
pub record Reader : Type 0 where
  pub input : Bytes
  pub remain : ℕ
  pub started : Bool
  pub done : Bool
  pub trailers : Trailers
  pub failed : Option Error

abbrev pub new_reader : Bytes → Reader
new_reader input = record {
  input = input;
  remain = 0;
  started = false;
  done = false;
  trailers = [];
  failed = none;
}

-- How a read ended: with nothing to say, at the end of the body, or with an error.
pub data Ended : Type 0 where
  going : Ended
  eof : Ended
  stopped : Error → Ended

abbrev pub Read : Type 0
Read = Bytes × Ended × Reader

-- `fail`: an end of the stream is an incomplete body.
unfoldable pub fail_with : Fault → Error
fail_with end_of_stream = incomplete_body
fail_with malformed = bad_body

abbrev pub give_up : Reader → Fault → Read
give_up c e = ([], stopped (fail_with e), record c { failed = some (fail_with e) })

-- The bytes of the current chunk that fit the buffer.
unfoldable pub read_data : Reader → ℕ → Read
read_data c size =
    let got = take (min size c.remain) c.input in
    let left = record c {
      input = drop (min size c.remain) c.input;
      remain = c.remain - length got;
    } in
    if beq c.input []
    then ([], stopped incomplete_body, record c { failed = some incomplete_body })
    else (got, going, left)

-- The size of the next chunk; at the last chunk the trailers.
unfoldable pub open_chunk : Reader → ℕ → Read
open_chunk c size = elim (read_chunk_header c.input) [
  | err e ↦ give_up c e
  | ok (zero, rest) ↦
      let (input, trailers) = read_trailers (suc (length rest)) rest [] in
      ([], eof, record c { input = input; started = true; done = true; trailers = trailers })
  | ok (suc n, rest) ↦ read_data (record c { input = rest; started = true; remain = suc n }) size
]

-- Between two chunks, or before the first. The loop on `remain == 0` makes one round: it ends at
-- the last chunk, or with bytes to read.
unfoldable pub next_chunk : Reader → ℕ → Read
next_chunk c size =
    if c.done
    then ([], eof, c)
    else if c.started
    then elim (expect_crlf c.input) [
      | err e ↦ give_up c e
      | ok rest ↦ open_chunk (record c { input = rest }) size
    ]
    else open_chunk c size

unfoldable pub read : Reader → ℕ → Read
read c size = elim c.failed [
  | some e ↦ ([], stopped e, c)
  | none ↦ if c.remain == 0 then next_chunk c size else read_data c size
]

-- What a caller makes of one read: it stops, or puts the bytes in front of what follows.
abbrev pub conclude : Read → (Reader → Option (Result Error Bytes)) → Option (Result Error Bytes)
conclude (got, eof, c) next = some (ok got)
conclude (got, stopped e, c) next = some (err e)
conclude (got, going, c) next = elim (next c) [
  | none ↦ none
  | some (ok more) ↦ some (ok (got ++ more))
  | some (err e) ↦ some (err e)
]

-- `io.Copy` and `io.ReadAll`: reads with a buffer of `size` bytes up to the end or an error. Each
-- read takes a byte or ends the loop, so one round more than there are bytes is enough.
unfoldable pub read_all : ℕ → ℕ → Reader → Option (Result Error Bytes)
read_all zero size c = none
read_all (suc fuel) size c = conclude (read c size) (λ c'. read_all fuel size c')
