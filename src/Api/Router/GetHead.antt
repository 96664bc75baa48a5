-- ===== src/Api/Router/GetHead.antt =====
-- A HEAD request beside the GET request for the same object (internal/s3api/object.go).
use locals.Base.{
  ℕ, true, false, Bool-cases, inl, inr, Bytes, List, codes, ◌≡◌, ◌≢◌, refl, Option, none, some,
  Result, ok, err,
}
use locals.Store.Error.{Error}
use locals.Store.Info.{ObjectInfo}
use locals.Store.Contract.{MultipartStore}
use locals.Store.Multipart.{Part}
use locals.Api.Error.{ApiError, from_store, err_not_implemented}
use locals.Api.Request.{Method, get_method, head_method}
use locals.Api.Condition.{
  Outcome, pass, not_modified, failed, check_preconditions, refuses, known_to_client,
}
use locals.Api.Packages.{Packages}
use locals.Api.Response.{
  Headers, Response, Call, content, write_header, write_xml, write_error, write_error_as,
}
use locals.Api.Range.{RangeResult, parse_range}
use locals.Api.Object.{
  get_object, get_found, get_checked, get_ranged, send_range, send, write_checksum_headers,
}
use locals.Api.Multipart.{list_parts, with_multipart, multipart_or, parts_answer, upload_id}
use locals.Api.Server.{Server, Handler, attempt, answer}
use locals.Api.Router.{serve_object, object_by}

-- The same request by another method.
abbrev pub asking : Method → Call → Call
asking m c = record c { request = record c.request { method = m } }

-- No error is answered with the bytes of an object.
write_error-ne_content :
    (go : Packages) (c : Call) (e : ApiError) (hs : Headers) (b : Bytes)
    → (write_error go c e hs).body ≢ content b
unfolding write_error write_error_as write_xml
write_error-ne_content go c e hs b h = by_method c.request.method h
  where
    by_method : (m : Method) → (write_error_as go m c e hs).body ≢ content b
    by_method head_method h = cc
    by_method _ h = cc

-- The answer without its body.
abbrev pub bare : Response → Response
bare response = write_header response.status response.headers

module _ {S : Type 0} (sv : Server S) (c : Call) (b : Bytes) where
  attempt_content {ℓ} :
      {A : Type ℓ} (hs : Headers) (op : S → Result Error A × S) (next next' : A → Handler S) (s : S)
      → ((a : A) (s' : S) → (next a s').0.body ≡ content b → (next' a s').0 ≡ bare (next a s').0)
      → (attempt sv (asking get_method c) hs op next s).0.body ≡ content b
      → (attempt sv (asking head_method c) hs op next' s).0
        ≡ bare (attempt sv (asking get_method c) hs op next s).0
  attempt_content hs op next next' s both h = go (op s) h
    where
      go :
          (r : Result Error _ × S)
          → (attempt sv (asking get_method c) hs (λ _. r) next s).0.body ≡ content b
          → (attempt sv (asking head_method c) hs (λ _. r) next' s).0
            ≡ bare (attempt sv (asking get_method c) hs (λ _. r) next s).0
      go (ok a, s') h = both a s' h
      go (err e, s') h =
          absurd (write_error-ne_content sv.go (asking get_method c) (from_store e) hs b h)

  send_content :
      (status : ℕ) (hs : Headers) (op : S → Result Error (Bytes × ObjectInfo) × S) (s : S)
      → (send sv true (asking get_method c) status hs op s).0.body ≡ content b
      → write_header status hs ≡ bare (send sv true (asking get_method c) status hs op s).0
  unfolding send
  send_content status hs op s h = go (op s) h
    where
      go :
          (r : Result Error (Bytes × ObjectInfo) × S)
          → (send sv true (asking get_method c) status hs (λ _. r) s).0.body ≡ content b
          → write_header status hs
            ≡ bare (send sv true (asking get_method c) status hs (λ _. r) s).0
      go (ok found, s') h = refl
      go (err e, s') h =
          absurd (write_error-ne_content sv.go (asking get_method c) (from_store e) hs b h)

  get_ranged_content :
      (info : ObjectInfo) (r : RangeResult) (s : S)
      → (get_ranged sv true (asking get_method c) info r s).0.body ≡ content b
      → (get_ranged sv false (asking head_method c) info r s).0
        ≡ bare (get_ranged sv true (asking get_method c) info r s).0
  unfolding get_ranged send_range send write_checksum_headers
  get_ranged_content info (err e) s h =
      absurd (write_error-ne_content sv.go (asking get_method c) e _ b h)
  get_ranged_content info (ok none) s h =
      send_content 200 _ (sv.store.get_object c.bucket c.key) s h
  get_ranged_content info (ok (some br)) s h =
      send_content 206 _ (sv.store.get_object_range c.bucket c.key br.offset (some br.len)) s h

  get_checked_content :
      (info : ObjectInfo) (o : Outcome) (s : S)
      → (get_checked sv true (asking get_method c) info o s).0.body ≡ content b
      → (get_checked sv false (asking head_method c) info o s).0
        ≡ bare (get_checked sv true (asking get_method c) info o s).0
  unfolding get_checked
  get_checked_content info not_modified s h = refl
  get_checked_content info failed s h =
      absurd (write_error-ne_content sv.go (asking get_method c) _ _ b h)
  get_checked_content info pass s h =
      get_ranged_content info (parse_range (c.request.header (codes "Range")) info.size) s h

  get_object_content :
      (s : S)
      → (get_object sv true (asking get_method c) s).0.body ≡ content b
      → (get_object sv false (asking head_method c) s).0
        ≡ bare (get_object sv true (asking get_method c) s).0
  unfolding get_object get_found check_preconditions refuses known_to_client
  get_object_content s h =
      attempt_content c.base (sv.store.head_object c.bucket c.key)
        (get_found sv true (asking get_method c)) (get_found sv false (asking head_method c)) s
        (λ info s'.
          get_checked_content info (check_preconditions sv.go.parse_time c.request info) s')
        h

  list_parts-ne_content : (s : S) → (list_parts sv (asking get_method c) s).0.body ≢ content b
  unfolding list_parts with_multipart multipart_or write_xml
  list_parts-ne_content s h = go sv.store.multipart h
    where
      by_parts :
          (r : Result Error (List Part) × S)
          → (attempt sv
              (asking get_method c)
              c.base
              (λ _. r)
              (λ parts. answer (parts_answer sv (asking get_method c) parts))
              s).0.body
            ≢ content b
      by_parts (ok parts, s') h = cc
      by_parts (err e, s') h =
          write_error-ne_content sv.go (asking get_method c) (from_store e) c.base b h

      go :
          (o : Option (MultipartStore S))
          → (multipart_or sv
              (asking get_method c)
              o
              (λ ms.
                attempt sv
                  (asking get_method c)
                  c.base
                  (ms.list_parts c.bucket c.key (upload_id (asking get_method c)))
                  (λ parts. answer (parts_answer sv (asking get_method c) parts)))
              s).0.body
            ≢ content b
      go none h = write_error-ne_content sv.go (asking get_method c) err_not_implemented c.base b h
      go (some ms) h = by_parts (ms.list_parts c.bucket c.key (upload_id (asking get_method c)) s) h

  -- Where a GET request for an object is answered with bytes, of the object or of a range of it, the
  -- HEAD request that is the same but for its method is answered, in the same state, with the same
  -- status and the same headers, and without a body.
  pub serve_object-head :
      (s : S)
      → (serve_object sv (asking get_method c) s).0.body ≡ content b
      → (serve_object sv (asking head_method c) s).0
        ≡ bare (serve_object sv (asking get_method c) s).0
  unfolding serve_object object_by
  serve_object-head s h = elim (Bool-cases (c.request.has_query (codes "uploadId"))) [
    | inl parts ↦ absurd (list_parts-ne_content s (rw parts at h))
    | inr object ↦ rw object (get_object_content s (rw object at h))
  ]
