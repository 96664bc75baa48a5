-- ===== src/Api/Server.antt =====
-- What all handlers share (internal/s3api/router.go, `Handler`): the configuration, and the way in
-- which the error of a call of the store ends a request.
use locals.Base.{Bytes, Result, ok, err}
use locals.Store.Error.{Error}
use locals.Store.Contract.{Backend}
use locals.Api.Error.{from_store}
use locals.Api.Packages.{Packages}
use locals.Api.Response.{Headers, Response, Call, write_error}

-- `Handler`, with the functions of other packages.
pub record Server (S : Type 0) : Type 0 where
  pub store : Backend S
  pub region : Bytes
  pub domain : Bytes
  pub go : Packages

abbrev pub Handler : Type 0 → Type 0
Handler S = S → Response × S

-- `if err != nil { writeError(w, r, rid, err); return }` behind a call of the store.
abbrev pub attempt {ℓ} :
    {S : Type 0} {A : Type ℓ}
    → Server S
    → Call
    → Headers
    → (S → Result Error A × S)
    → (A → Handler S)
    → Handler S
attempt sv c hs op next s =
    let (r, s') = op s in
    elim r [ ok a ↦ next a s' | err e ↦ (write_error sv.go c (from_store e) hs, s') ]

-- An answer that leaves the state alone.
abbrev pub answer : {S : Type 0} → Response → Handler S
answer response s = (response, s)
