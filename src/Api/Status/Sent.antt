-- ===== src/Api/Status/Sent.antt =====
-- The status that is logged and the one that net/http sends (internal/s3api/router.go).
use locals.Base.{ℕ, ◌≤◌, All, ◌≡◌, refl, sym, ◌∙◌, true, List, [], ◌∷◌, Bytes}
use locals.Api.Response.{Response}
use locals.Api.Status.{
  WriterCall, write_header, write, new_status_writer, step, after, Printed, body_calls, calls_of,
}

-- What package net/http documents of the status that a handler's calls send: the code of the first
-- `WriteHeader`, unless that is an informational one; 200 where `Write` comes before it, or where there is no call at all.
pub record SendsFirst (sent : List WriterCall → ℕ) : Type 0 where
  pub nothing : sent [] ≡ 200
  pub header_first :
      (code : ℕ) (cs : List WriterCall) → 200 ≤ code → sent (write_header code ∷ cs) ≡ code
  pub body_first : (bytes : Bytes) (cs : List WriterCall) → sent (write bytes ∷ cs) ≡ 200

-- No status from 100 to 199, of which a handler may send several.
abbrev pub IsFinal : WriterCall → Type 0
IsFinal (write_header code) = 200 ≤ code
IsFinal (write bytes) = Unit

after_header :
    (cs : List WriterCall) (status : ℕ)
    → (after cs (record { status = status; wrote_header = true })).status ≡ status
unfolding after step
after_header [] status = refl
after_header (write_header code ∷ cs) status = after_header cs status
after_header (write bytes ∷ cs) status = after_header cs status

-- Whatever calls of WriteHeader and Write a handler makes, in whatever order, the status that the log
-- names is the one that the client is sent; where no status is an informational one.
pub after-sent :
    (sent : List WriterCall → ℕ) (cs : List WriterCall)
    → SendsFirst sent
    → All IsFinal cs
    → (after cs new_status_writer).status ≡ sent cs
unfolding after step
after-sent sent [] h f = sym h.nothing
after-sent sent (write_header code ∷ cs) h (final, f) =
    after_header cs code ∙ sym (h.header_first code cs final)
after-sent sent (write bytes ∷ cs) h f = after_header cs 200 ∙ sym (h.body_first bytes cs)

-- The status of a response is the one that is logged of it.
pub after-calls_of :
    (xml : Printed) (r : Response) → (after (calls_of xml r) new_status_writer).status ≡ r.status
unfolding after step calls_of
after-calls_of xml r = after_header (body_calls xml r.body) r.status
