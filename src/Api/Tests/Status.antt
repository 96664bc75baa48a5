-- ===== src/Api/Tests/Status.antt =====
-- The status of a log line (internal/s3api/router.go), at concrete calls of a handler.
use locals.Base.{ℕ, ◌≡◌, refl, arith, List, [], ◌∷◌, codes}
use locals.Api.Status.{WriterCall, write_header, write, new_status_writer, after}
use locals.Api.Status.Sent.{SendsFirst, after-sent}

-- The first call decides.
abbrev first_status : List WriterCall → ℕ
first_status [] = 200
first_status (write_header code ∷ cs) = code
first_status (write bytes ∷ cs) = 200

first_status-SendsFirst : SendsFirst first_status
first_status-SendsFirst = record {
  nothing = refl;
  header_first = λ code cs final. refl;
  body_first = λ bytes cs. refl;
}

abbrev calls : List WriterCall
calls = write_header 404 ∷ write (codes "<Error/>") ∷ write_header 500 ∷ []

after-sent_example : (after calls new_status_writer).status ≡ first_status calls
after-sent_example =
    after-sent first_status calls first_status-SendsFirst (omega arith, (tt, (omega arith, tt)))
