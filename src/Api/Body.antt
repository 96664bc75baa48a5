-- ===== src/Api/Body.antt =====
-- The body of a request (internal/s3api/chunked.go): `isChunkedBody` and `requestBody`. A body is what
-- its reader yields to a caller that reads it to the end.
use locals.Base.{
  ℕ, zero, suc, Bool, ◌||◌, [], ◌++◌, Option, none, some, Bytes, codes, map, lower, contains,
  has_prefix, if◌then◌else◌, length, take, leb, Result, ok, err,
}
use locals.Store.Error.{Error, bad_body}
use locals.Api.Request.{Request}
use locals.Api.Chunked.{Reader, Read, Trailers, going, eof, stopped, read, read_all, new_reader}

unfoldable pub is_chunked_body : Request → Bool
is_chunked_body r =
    contains (map lower (r.header (codes "Content-Encoding"))) (codes "aws-chunked")
    || has_prefix (r.header (codes "X-Amz-Content-Sha256")) (codes "STREAMING-")

-- The reader when the loop of `read_all` has ended.
abbrev go_on : Read → (Reader → Reader) → Reader
go_on (got, eof, c) next = c
go_on (got, stopped e, c) next = c
go_on (got, going, c) next = next c

unfoldable pub reader_after : ℕ → ℕ → Reader → Reader
reader_after zero size c = c
reader_after (suc fuel) size c = go_on (read c size) (λ c'. reader_after fuel size c')

-- The size of the buffer that `io.Copy` reads with, and one round more than there are bytes.
abbrev pub buffer_size : ℕ
buffer_size = 32768

abbrev pub rounds : Bytes → ℕ
rounds stream = suc (length stream)

-- `none` stands for a loop that has run out of rounds.
abbrev pub settled : Option (Result Error Bytes) → Result Error Bytes
settled (some r) = r
settled none = err bad_body

unfoldable pub request_body : Request → Result Error Bytes
request_body r =
    if is_chunked_body r
    then settled (read_all (rounds r.body) buffer_size (new_reader r.body))
    else ok r.body

-- The headers behind the last chunk, once the body is read.
unfoldable pub body_trailers : Request → Trailers
body_trailers r =
    if is_chunked_body r
    then (reader_after (rounds r.body) buffer_size (new_reader r.body)).trailers
    else []

-- What was read before an error.
abbrev taken_on : Read → (Reader → Bytes) → Bytes
taken_on (got, eof, c) next = got
taken_on (got, stopped e, c) next = got
taken_on (got, going, c) next = got ++ next c

unfoldable pub bytes_before : ℕ → ℕ → Reader → Bytes
bytes_before zero size c = []
bytes_before (suc fuel) size c = taken_on (read c size) (λ c'. bytes_before fuel size c')

-- `io.ReadAll(io.LimitReader(body, limit))`: an error beyond the limit is not met.
unfoldable pub limited_body : ℕ → Request → Result Error Bytes
limited_body limit r = elim (request_body r) [
  | ok bytes ↦ ok (take limit bytes)
  | err e ↦
      let before = bytes_before (rounds r.body) buffer_size (new_reader r.body) in
      if leb limit (length before) then ok (take limit before) else err e
]
