-- ===== src/Api/Checksum/Accepted.antt =====
-- What the validator asks for and what it lets pass (internal/s3api/checksum.go).
use locals.Base.{
  ◌≡◌, refl, List, ◌∷◌, ◌++◌, All, ap, sym, ◌∙◌, true, false, ◌&&◌, not, Bool, Bool-cases, inl, inr,
  [], some, none, Option, Bytes, codes, beq, beq_sound, if◌then◌else◌, ok, err,
}
use locals.Api.Error.{ApiError}
use locals.Api.Request.{Request}
use locals.Api.Packages.{Packages}
use locals.Api.Chunked.{Trailers}
use locals.Api.Body.{is_chunked_body}
use locals.Api.Checksum.{
  up_front, trailing, named_algo, Validator, Hasher, new_validator, value, wanted, verify,
  verify_algo, judge, against,
}

-- The only refusal of `verify` is a BadDigest.
judge-refuses : (same : Bool) (e : ApiError) → judge same ≡ err e → e.http_status ≡ 400
judge-refuses true e h = absurd cc
judge-refuses false e h = ap (λ r. elim r [ ok u ↦ 400 | err x ↦ x.http_status ]) (sym h)

against-refuses :
    (go : Packages) (v : Validator) (bytes : Bytes) (w : Option Bytes) (e : ApiError)
    → against go v bytes w ≡ err e
    → e.http_status ≡ 400
unfolding against
against-refuses go v bytes none e h = absurd cc
against-refuses go v bytes (some want) e h = judge-refuses (beq (value go v bytes) want) e h

verify_algo-refuses :
    (go : Packages) (v : Validator) (bytes : Bytes) (ts : Trailers) (o : Option Hasher)
    (e : ApiError)
    → verify_algo go v bytes ts o ≡ err e
    → e.http_status ≡ 400
unfolding verify_algo
verify_algo-refuses go v bytes ts none e h = absurd cc
verify_algo-refuses go v bytes ts (some f) e h = against-refuses go v bytes (wanted go v ts) e h

pub verify-refuses :
    (go : Packages) (v : Validator) (bytes : Bytes) (ts : Trailers) (e : ApiError)
    → verify go v bytes ts ≡ err e
    → e.http_status ≡ 400
unfolding verify
verify-refuses go v bytes ts e h =
    elim (Bool-cases (not (beq v.want_md5 []) && not (beq (go.base64 (go.md5 bytes)) v.want_md5))) [
      | inl bad ↦ judge-refuses false e (rw bad at h)
      | inr fine ↦ verify_algo-refuses go v bytes ts v.algo_hash e (rw fine at h)
    ]

up_front-want_md5 :
    (go : Packages) (r : Request) (fields : List (Bytes × List Bytes)) (v : Validator)
    → (up_front go r fields v).want_md5 ≡ v.want_md5
unfolding up_front
up_front-want_md5 go r [] v = refl
up_front-want_md5 go r ((name, values) ∷ fields) v =
    found (named_algo go name) (up_front-want_md5 go r fields v)
  where
    found :
        (o : Option (Bytes × Hasher))
        → (up_front go r fields v).want_md5 ≡ v.want_md5
        → (elim o as (λ x. Validator) [
          | none ↦ up_front go r fields v
          | some (algo, h) ↦ record v { algo = algo; algo_hash = some h; want_algo = r.header name }
        ]).want_md5
          ≡ v.want_md5
    found none rest = rest
    found (some (algo, h)) rest = refl

pub new_validator-want_md5 :
    (go : Packages) (r : Request) → (new_validator go r).want_md5 ≡ r.header (codes "Content-MD5")
unfolding new_validator trailing
new_validator-want_md5 go r =
    behind (up_front go r r.fields start) (up_front-want_md5 go r r.fields start)
  where
    start : Validator
    start = record {
      want_md5 = r.header (codes "Content-MD5");
      algo = [];
      algo_hash = none;
      want_algo = [];
      trailer_name = [];
      chunked = is_chunked_body r;
    }

    in_trailer :
        (v : Validator) (none_sent : Bool) (o : Option (Bytes × Hasher)) (name : Bytes)
        → (if none_sent then v else elim o as (λ x. Validator) [
          | none ↦ v
          | some (algo, h) ↦ record v { algo = algo; algo_hash = some h; trailer_name = name }
        ]).want_md5
          ≡ v.want_md5
    in_trailer v true o name = refl
    in_trailer v false none name = refl
    in_trailer v false (some (algo, h)) name = refl

    by_hash :
        (v : Validator) (o : Option Hasher) (framed : Bool)
        → (elim o as (λ x. Validator) [
          | some h ↦ v
          | none ↦ if framed then trailing go r v else v
        ]).want_md5
          ≡ v.want_md5
    by_hash v (some h) framed = refl
    by_hash v none true = in_trailer v _ (named_algo go _) _
    by_hash v none false = refl

    behind :
        (v : Validator)
        → v.want_md5 ≡ r.header (codes "Content-MD5")
        → (elim v.algo_hash as (λ x. Validator) [
          | some h ↦ v
          | none ↦ if is_chunked_body r then trailing go r v else v
        ]).want_md5
          ≡ r.header (codes "Content-MD5")
    behind v e = by_hash v v.algo_hash (is_chunked_body r) ∙ e

up_front_first :
    (go : Packages) (r : Request) (before rest : List (Bytes × List Bytes)) (name : Bytes)
    (values : List Bytes) (algo : Bytes) (h : Hasher) (v : Validator)
    → All (λ f. named_algo go f.0 ≡ none) before
    → named_algo go name ≡ some (algo, h)
    → up_front go r (before ++ ((name, values) ∷ rest)) v
      ≡ record v { algo = algo; algo_hash = some h; want_algo = r.header name }
unfolding up_front
up_front_first go r [] rest name values algo h v unknown named =
    ap
      (λ (o : Option (Bytes × Hasher)). elim o as (λ x. Validator) [
        | none ↦ up_front go r rest v
        | some (a, f) ↦ record v { algo = a; algo_hash = some f; want_algo = r.header name }
      ])
      named
up_front_first go r ((n, vs) ∷ before) rest name values algo h v (first, unknown) named =
    ap
      (λ (o : Option (Bytes × Hasher)). elim o as (λ x. Validator) [
        | none ↦ up_front go r (before ++ ((name, values) ∷ rest)) v
        | some (a, f) ↦ record v { algo = a; algo_hash = some f; want_algo = r.header n }
      ])
      first
    ∙ up_front_first go r before rest name values algo h v unknown named

pub new_validator_up_front :
    (go : Packages) (r : Request) (before rest : List (Bytes × List Bytes)) (name : Bytes)
    (values : List Bytes) (algo : Bytes) (h : Hasher)
    → r.fields ≡ before ++ ((name, values) ∷ rest)
    → All (λ f. named_algo go f.0 ≡ none) before
    → named_algo go name ≡ some (algo, h)
    → new_validator go r ≡ (record {
      want_md5 = r.header (codes "Content-MD5");
      algo = algo;
      algo_hash = some h;
      want_algo = r.header name;
      trailer_name = [];
      chunked = is_chunked_body r;
    })
unfolding new_validator
new_validator_up_front go r before rest name values algo h fields unknown named =
    let start : Validator = record {
      want_md5 = r.header (codes "Content-MD5");
      algo = [];
      algo_hash = none;
      want_algo = [];
      trailer_name = [];
      chunked = is_chunked_body r;
    } in
    ap
      (λ (v : Validator). elim v.algo_hash as (λ x. Validator) [
        | some f ↦ v
        | none ↦ if is_chunked_body r then trailing go r v else v
      ])
      (ap (λ fs. up_front go r fs start) fields
        ∙ up_front_first go r before rest name values algo h start unknown named)

true_of : (same : Bool) → judge same ≡ ok tt → same ≡ true
true_of true h = refl
true_of false h = absurd cc

pub verify-md5 :
    (go : Packages) (v : Validator) (bytes : Bytes) (ts : Trailers)
    → beq v.want_md5 [] ≡ false
    → verify go v bytes ts ≡ ok tt
    → go.base64 (go.md5 bytes) ≡ v.want_md5
unfolding verify
verify-md5 go v bytes ts asserted h =
    elim (Bool-cases (beq (go.base64 (go.md5 bytes)) v.want_md5)) [
      | inl same ↦ beq_sound (go.base64 (go.md5 bytes)) v.want_md5 same
      | inr differs ↦ absurd (cc (true_of false (rw (asserted, differs) at h)))
    ]

pub verify-checksum :
    (go : Packages) (v : Validator) (bytes : Bytes) (ts : Trailers) (want : Bytes) (h : Hasher)
    → v.algo_hash ≡ some h
    → wanted go v ts ≡ some want
    → verify go v bytes ts ≡ ok tt
    → go.base64 (h bytes) ≡ want
unfolding verify verify_algo against value
verify-checksum go v bytes ts want h known asserted e =
    elim (Bool-cases (not (beq v.want_md5 []) && not (beq (go.base64 (go.md5 bytes)) v.want_md5))) [
      | inl bad ↦ absurd (cc (true_of false (rw bad at e)))
      | inr fine ↦
          let by_algo : verify_algo go v bytes ts (some h) ≡ ok tt =
            sym (ap (verify_algo go v bytes ts) known) ∙ (rw fine at e) in
          let by_want : against go v bytes (some want) ≡ ok tt =
            sym (ap (against go v bytes) asserted) ∙ by_algo in
          sym
            (ap (λ (o : Option Hasher). elim o [ none ↦ [] | some f ↦ go.base64 (f bytes) ]) known)
          ∙ beq_sound (value go v bytes) want (true_of (beq (value go v bytes) want) by_want)
    ]
