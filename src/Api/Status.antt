-- ===== src/Api/Status.antt =====
-- What the router keeps of an answer for its log (internal/s3api/router.go): `statusWriter`, as a
-- machine that takes one step for each call that a handler makes of its `http.ResponseWriter`.
pub mod Sent
use locals.Base.{ℕ, Bool, true, false, List, [], ◌∷◌, Bytes, if◌then◌else◌}
use locals.Api.Response.{Response, Body, no_body, content, document}
use locals.Api.Xml.{Document}

-- A call of `WriteHeader` or of `Write`.
pub data WriterCall : Type 0 where
  write_header : ℕ → WriterCall
  write : Bytes → WriterCall

-- `statusWriter`, less the writer that it hands each call on to.
pub record StatusWriter : Type 0 where
  pub status : ℕ
  pub wrote_header : Bool

-- As `ServeHTTP` makes it, with `http.StatusOK` for a status.
abbrev pub new_status_writer : StatusWriter
new_status_writer = record { status = 200; wrote_header = false }

-- `WriteHeader` and `Write`
unfoldable pub step : WriterCall → StatusWriter → StatusWriter
step (write_header code) w =
    if w.wrote_header then w else record { status = code; wrote_header = true }
step (write bytes) w = record w { wrote_header = true }

-- The calls of a handler, one after another.
unfoldable pub after : List WriterCall → StatusWriter → StatusWriter
unfolding step
after [] w = w
after (c ∷ cs) w = after cs (step c w)

-- `xml.Header`, and what `xml.Marshal` prints
pub record Printed : Type 0 where
  pub header : Bytes
  pub print : Document → Bytes

abbrev pub body_calls : Printed → Body → List WriterCall
body_calls xml no_body = []
body_calls xml (content bytes) = write bytes ∷ []
body_calls xml (document d) = write xml.header ∷ write (xml.print d) ∷ []

-- The calls by which a response is given.
unfoldable pub calls_of : Printed → Response → List WriterCall
calls_of xml r = write_header r.status ∷ body_calls xml r.body
