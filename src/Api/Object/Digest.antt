-- ===== src/Api/Object/Digest.antt =====
-- What a PUT answered 200 vouches for (internal/s3api/object.go, checksum.go).
use locals.Base.{
  ◌≡◌, ◌≢◌, refl, subst, List, ◌∷◌, ◌++◌, All, ap, sym, ◌∙◌, true, false, inl, inr, [], some, none,
  Bytes, codes, beq, arith, Result, ok, err,
}
use locals.Store.Error.{Error}
use locals.Store.Info.{ObjectInfo}
use locals.Api.Error.{ApiError, from_store, from_store_status}
use locals.Api.Request.{Method, head_method}
use locals.Api.Packages.{Packages}
use locals.Api.Response.{Headers, Call, write_error, write_error_as, write_xml}
use locals.Api.Body.{request_body}
use locals.Api.Checksum.Accepted.{
  verify-refuses, new_validator-want_md5, new_validator_up_front, verify-md5, verify-checksum,
}
use locals.Api.Checksum.{from_trailer, named_algo, Validator, Hasher, new_validator, wanted, verify}
use locals.Api.Object.{put_object, finish_put, settle_put, received, trailers_met, put_request}
use locals.Api.Server.{Server, attempt}

pub write_error-status :
    (go : Packages) (c : Call) (e : ApiError) (hs : Headers)
    → (write_error go c e hs).status ≡ e.http_status
unfolding write_error write_error_as write_xml
write_error-status go c e hs = by_method c.request.method
  where
    by_method : (m : Method) → (write_error_as go m c e hs).status ≡ e.http_status
    by_method head_method = refl
    by_method _ = refl

pub not_200 : (e : Error) → (from_store e).http_status ≢ 200
not_200 e h = elim (from_store_status e) [
  | inl (low, high, expected) ↦ omega arith
  | inr (internal, unexpected) ↦ omega arith
]

module _ {S : Type 0} (sv : Server S) (c : Call) where
  verified :
      (v : Validator) (info : ObjectInfo) (s : S)
      → (finish_put sv c v info s).0.status ≡ 200
      → verify sv.go v (received sv c) (trailers_met sv c) ≡ ok tt
  unfolding finish_put settle_put write_error
  verified v info s h = go (verify sv.go v (received sv c) (trailers_met sv c)) refl h
    where
      go :
          (r : Result ApiError (Unit {0}))
          → verify sv.go v (received sv c) (trailers_met sv c) ≡ r
          → (settle_put sv c v info r s).0.status ≡ 200
          → verify sv.go v (received sv c) (trailers_met sv c) ≡ ok tt
      go (ok u) e h = e
      go (err x) e h = absurd (
          omega (
            arith,
            verify-refuses sv.go v (received sv c) (trailers_met sv c) x e,
            sym (write_error-status sv.go c x c.base) ∙ h,
          ))

  received_lem :
      (bytes : Bytes)
      → sv.store.reads_body c.key ≡ true
      → request_body c.request ≡ ok bytes
      → received sv c ≡ bytes
  received_lem bytes reads body = rw (reads, body) refl

  put_object_verified :
      (s : S)
      → (put_object sv c s).0.status ≡ 200
      → verify sv.go (new_validator sv.go c.request) (received sv c) (trailers_met sv c) ≡ ok tt
  unfolding put_object
  put_object_verified s h = go (sv.store.put_object (put_request sv c v) s) h
    where
      v : Validator
      v = new_validator sv.go c.request

      go :
          (r : Result Error ObjectInfo × S)
          → (attempt sv c c.base (λ _. r) (finish_put sv c v) s).0.status ≡ 200
          → verify sv.go v (received sv c) (trailers_met sv c) ≡ ok tt
      go (ok info, s') h = verified v info s' h
      go (err e, s') h =
          absurd (not_200 e (sym (write_error-status sv.go c (from_store e) c.base) ∙ h))

  -- Where a client sends Content-MD5 with a body that the store reads and the request is answered 200,
  -- the digest of the bytes that the store was given is the one that the client sent.
  pub put_object-md5 :
      (s : S) (bytes : Bytes)
      → sv.store.reads_body c.key ≡ true
      → request_body c.request ≡ ok bytes
      → beq (c.request.header (codes "Content-MD5")) [] ≡ false
      → (put_object sv c s).0.status ≡ 200
      → sv.go.base64 (sv.go.md5 bytes) ≡ c.request.header (codes "Content-MD5")
  put_object-md5 s bytes reads body asserted answered =
      let v = new_validator sv.go c.request in
      let want = new_validator-want_md5 sv.go c.request in
      verify-md5 sv.go v bytes (trailers_met sv c) (ap (λ w. beq w []) want ∙ asserted) (
        subst (λ b. verify sv.go v b (trailers_met sv c) ≡ ok tt) (received_lem bytes reads body)
          (put_object_verified s answered))
      ∙ want

  put_object_wanted :
      (s : S) (bytes want : Bytes) (h : Hasher)
      → sv.store.reads_body c.key ≡ true
      → request_body c.request ≡ ok bytes
      → (new_validator sv.go c.request).algo_hash ≡ some h
      → wanted sv.go (new_validator sv.go c.request) (trailers_met sv c) ≡ some want
      → (put_object sv c s).0.status ≡ 200
      → sv.go.base64 (h bytes) ≡ want
  put_object_wanted s bytes want h reads body known asserted answered =
      verify-checksum sv.go (new_validator sv.go c.request) bytes (trailers_met sv c) want h known
        asserted
        (subst (λ b. verify sv.go (new_validator sv.go c.request) b (trailers_met sv c) ≡ ok tt)
          (received_lem bytes reads body) (put_object_verified s answered))

  -- Where the first header field that names a checksum of a known algorithm comes with a body that the
  -- store reads, and the PUT is answered 200, the checksum of the bytes that the store was given is the
  -- value of that field.
  pub put_object-checksum :
      (s : S) (bytes : Bytes) (before rest : List (Bytes × List Bytes)) (name : Bytes)
      (values : List Bytes) (algo : Bytes) (h : Hasher)
      → sv.store.reads_body c.key ≡ true
      → request_body c.request ≡ ok bytes
      → c.request.fields ≡ before ++ ((name, values) ∷ rest)
      → All (λ f. named_algo sv.go f.0 ≡ none) before
      → named_algo sv.go name ≡ some (algo, h)
      → (put_object sv c s).0.status ≡ 200
      → sv.go.base64 (h bytes) ≡ c.request.header name
  unfolding wanted from_trailer beq
  put_object-checksum s bytes before rest name values algo h reads body fields unknown named
        answered =
      let same =
        new_validator_up_front sv.go c.request before rest name values algo h fields unknown
          named in
      put_object_wanted s bytes (c.request.header name) h reads body
        (ap (λ (v : Validator). v.algo_hash) same)
        (ap (λ (v : Validator). wanted sv.go v (trailers_met sv c)) same) answered
