-- ===== src/Api/Router/Expired.antt =====
-- Requests by an expired link (internal/s3api/router.go, sigv4.go).
use locals.Base.{
  ℕ, ◌+◌, ◌*◌, ◌<◌, ◌≡◌, ap, ◌∙◌, Bool, false, true, [], some, Bytes, codes, beq, err,
}
use locals.Base.Int.{pos, parse_int}
use locals.Api.Error.{err_access_denied}
use locals.Api.Request.{Request}
use locals.Api.Presign.{is_presigned, check_presign_expiry, check_presign_expiry_iff}
use locals.Api.Object.Digest.{write_error-status}
use locals.Api.Server.{Server}
use locals.Api.Router.{admit, routed, serve_http}

-- A request by a presigned link whose lifetime of up to some 292 years has passed is answered 403 and
-- leaves the store alone, whatever it asks for and whether the draw for failures picks it or not.
pub serve_http_expired :
    {S : Type 0} (sv : Server S) (rid : Bytes) (now signed_at seconds : ℕ) (unlucky : Bool)
    (r : Request) (s : S)
    → is_presigned r ≡ true
    → beq (r.query (codes "X-Amz-Date")) [] ≡ false
    → beq (r.query (codes "X-Amz-Expires")) [] ≡ false
    → sv.go.parse_date (r.query (codes "X-Amz-Date")) ≡ some signed_at
    → parse_int 10 (r.query (codes "X-Amz-Expires")) ≡ some (pos seconds)
    → 0 < seconds
    → seconds < 9223372036
    → signed_at + seconds * 1000000000 < now
    → ((serve_http sv rid now unlucky r s).0.status ≡ 403)
      × ((serve_http sv rid now unlucky r s).1 ≡ s)
unfolding serve_http admit
serve_http_expired sv rid now signed_at seconds unlucky r s presigned dated lasting at secs positive
      small late =
    let refused : check_presign_expiry sv.go.parse_date r now ≡ err err_access_denied =
      (check_presign_expiry_iff sv.go.parse_date r now signed_at seconds presigned dated lasting at
          secs positive small).1
        late in
    let goes = ap (λ e. admit sv (routed sv rid r) e unlucky s) refused in
    (
      ap (λ o. o.0.status) goes
          ∙ write_error-status sv.go (routed sv rid r) err_access_denied (routed sv rid r).base,
      ap (λ o. o.1) goes,
    )
