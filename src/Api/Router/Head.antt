-- ===== src/Api/Router/Head.antt =====
-- HEAD requests beside GET requests (internal/s3api/router.go, object.go, errors.go).
use locals.Base.{
  ℕ, Bool, true, false, Bool-cases, inl, inr, Bytes, codes, beq, [], Result, ◌≡◌, refl, sym, subst,
  ok, err, none, some,
}
use locals.Store.Error.{Error}
use locals.Store.Info.{ObjectInfo}
use locals.Api.Error.{
  ApiError, from_store, err_precondition_failed, err_method_not_allowed, err_slow_down,
}
use locals.Api.Request.{Request, head_method}
use locals.Api.Condition.{Outcome, pass, not_modified, failed, check_preconditions}
use locals.Api.Packages.{Packages}
use locals.Api.Response.{Headers, Call, no_body, set, write_header, write_error, write_error_as}
use locals.Api.Presign.{check_presign_expiry}
use locals.Api.Range.{RangeResult, parse_range}
use locals.Api.Object.{get_object, get_found, get_checked, get_ranged, send_range, send}
use locals.Api.Bucket.{serve_bucket, serve_service, bucket_by, service_by}
use locals.Api.Server.{Server, Handler, attempt, answer}
use locals.Api.Router.{admit, serve_object, object_by, dispatch, routed, serve_http}

write_error_head :
    (go : Packages) (c : Call) (e : ApiError) (hs : Headers)
    → c.request.method ≡ head_method
    → (write_error go c e hs).body ≡ no_body
unfolding write_error write_error_as
write_error_head go c e hs h = rw (h, write_error_as) refl

module _ {S : Type 0} (sv : Server S) where
  attempt_head {ℓ} :
      {A : Type ℓ} (c : Call) (hs : Headers) (op : S → Result Error A × S) (next : A → Handler S)
      (s : S)
      → c.request.method ≡ head_method
      → ((a : A) (s' : S) → (next a s').0.body ≡ no_body)
      → (attempt sv c hs op next s).0.body ≡ no_body
  attempt_head c hs op next s h bare = go (op s)
    where
      go : (r : Result Error _ × S) → (attempt sv c hs (λ _. r) next s).0.body ≡ no_body
      go (ok a, s') = bare a s'
      go (err e, s') = write_error_head sv.go c (from_store e) hs h

  get_ranged_head :
      (c : Call) (info : ObjectInfo) (r : RangeResult) (s : S)
      → c.request.method ≡ head_method
      → (get_ranged sv false c info r s).0.body ≡ no_body
  unfolding get_ranged send_range send
  get_ranged_head c info (err e) s h = write_error_head sv.go c e _ h
  get_ranged_head c info (ok none) s h = refl
  get_ranged_head c info (ok (some br)) s h = refl

  get_checked_head :
      (c : Call) (info : ObjectInfo) (o : Outcome) (s : S)
      → c.request.method ≡ head_method
      → (get_checked sv false c info o s).0.body ≡ no_body
  unfolding get_checked
  get_checked_head c info not_modified s h = refl
  get_checked_head c info failed s h = write_error_head sv.go c err_precondition_failed c.base h
  get_checked_head c info pass s h =
      get_ranged_head c info (parse_range (c.request.header (codes "Range")) info.size) s h

  get_object_head :
      (c : Call) (s : S)
      → c.request.method ≡ head_method
      → (get_object sv false c s).0.body ≡ no_body
  unfolding get_object get_found
  get_object_head c s h =
      attempt_head c c.base (sv.store.head_object c.bucket c.key) (get_found sv false c) s h
        λ info s'.
          get_checked_head c info (check_preconditions sv.go.parse_time c.request info) s' h

  dispatch_head :
      (c : Call) (s : S) → c.request.method ≡ head_method → (dispatch sv c s).0.body ≡ no_body
  unfolding dispatch serve_service serve_bucket serve_object service_by bucket_by object_by
  dispatch_head c s h = elim (Bool-cases (beq c.bucket [])) [
    | inl service ↦ rw service (
        subst (λ m. (service_by sv m c s).0.body ≡ no_body) (sym h)
          (write_error_head sv.go c err_method_not_allowed c.base h))
    | inr named ↦ elim (Bool-cases (beq c.key [])) [
      | inl whole ↦
          rw (named, whole)
            (subst (λ m. (bucket_by sv m c s).0.body ≡ no_body) (sym h)
              (attempt_head c c.base (sv.store.head_bucket c.bucket)
                (λ u.
                  answer
                    (write_header 200 (set sv.go (codes "x-amz-bucket-region") sv.region c.base)))
                s h (λ u s'. refl)))
      | inr object ↦
          rw (named, object)
            (subst (λ m. (object_by sv m c s).0.body ≡ no_body) (sym h) (get_object_head c s h))
    ]
  ]

  admit_head :
      (c : Call) (expiry : Result ApiError (Unit {0})) (unlucky : Bool) (s : S)
      → c.request.method ≡ head_method
      → (admit sv c expiry unlucky s).0.body ≡ no_body
  unfolding admit
  admit_head c (err e) unlucky s h = write_error_head sv.go c e c.base h
  admit_head c (ok u) true s h = write_error_head sv.go c err_slow_down c.base h
  admit_head c (ok u) false s h = dispatch_head c s h

  -- A HEAD request is answered without a body, whatever it asks for and whether it succeeds, is
  -- refused, or meets an error of the store.
  pub serve_http-head :
      (rid : Bytes) (now : ℕ) (unlucky : Bool) (r : Request) (s : S)
      → r.method ≡ head_method
      → (serve_http sv rid now unlucky r s).0.body ≡ no_body
  unfolding serve_http routed
  serve_http-head rid now unlucky r s h =
      admit_head (routed sv rid r) (check_presign_expiry sv.go.parse_date r now) unlucky s h
