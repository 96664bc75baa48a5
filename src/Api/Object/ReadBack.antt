-- ===== src/Api/Object/ReadBack.antt =====
-- A PUT and the GET requests after it, over the store of files (internal/s3api/object.go,
-- internal/store/fs.go).
use locals.Base.{
  ℕ, suc, ◌≡◌, refl, sym, ap, ◌∙◌, arith, true, false, List, [], none, Bytes, codes, All, beq,
  if◌then◌else◌, length, Result, ok, err,
}
use locals.Store.Error.{Error}
use locals.Store.Key.{is_dir_marker, validate_bucket_name}
use locals.Store.Key.Valid.{IsPlain}
use locals.Store.Path.Clean.{abs}
use locals.Store.Fs.{Node, file}
use locals.Store.Info.{Env, ObjectInfo, default_content_type}
use locals.Store.Json.{ReadsBack, IsPrintable, IsAscii}
use locals.Store.Object.{declared}
use locals.Store.Object
use locals.Store.Object.{put_info, put_sidecar}
use locals.Store.Object.PutGet.{put_object_answer, get_object-put_object}
use locals.Store.Contract.{Served, fs_store}
use locals.Store.Multipart.{Manifests}
use locals.Api.Error.{ApiError, from_store}
use locals.Api.Request.{Request}
use locals.Api.Packages.{Packages}
use locals.Api.Range.{parse_range}
use locals.Api.Condition.{refuses, known_to_client, check_preconditions, pass}
use locals.Api.Response.{Headers, Response, Call, content, write_error}
use locals.Api.Body.{request_body}
use locals.Api.Checksum.{Validator, new_validator, verify, from_trailer}
use locals.Api.Object.{
  user_meta_from_headers, put_object, finish_put, settle_put, put_request, received, trailers_met,
  record_trailer, get_object, get_found, get_checked, get_ranged, send_range, send,
  write_object_headers, write_checksum_headers,
}
use locals.Api.Checksum.Accepted.{verify-refuses}
use locals.Api.Object.Digest.{write_error-status, not_200}
use locals.Api.Object.RollBack.{over_files}
use locals.Api.Server.{Server, attempt}

-- A request that asks for the whole object on no condition.
pub record IsUnconditional (r : Request) : Type 0 where
  pub no_match : beq (r.header (codes "If-Match")) [] ≡ true
  pub no_unmodified : beq (r.header (codes "If-Unmodified-Since")) [] ≡ true
  pub no_none_match : beq (r.header (codes "If-None-Match")) [] ≡ true
  pub no_modified : beq (r.header (codes "If-Modified-Since")) [] ≡ true
  pub no_range : beq (r.header (codes "Range")) [] ≡ true

check_preconditions-pass :
    (parse_time : _) (r : Request) (info : ObjectInfo)
    → IsUnconditional r
    → check_preconditions parse_time r info ≡ pass
unfolding check_preconditions refuses known_to_client
check_preconditions-pass parse_time r info u =
    rw (u.no_match, u.no_unmodified, u.no_none_match, u.no_modified) refl

parse_range-none : (h : Bytes) (size : ℕ) → beq h [] ≡ true → parse_range h size ≡ ok none
unfolding parse_range
parse_range-none h size e = rw e refl

-- The header of an answer with the whole object.
abbrev pub object_headers : Packages → Call → ObjectInfo → Headers
object_headers go g info =
    write_checksum_headers go g.request info (write_object_headers go info g.base)

abbrev pub whole_object : Packages → Call → ObjectInfo → Bytes → Response
whole_object go g info bytes = record {
  status = 200;
  headers = object_headers go g info;
  body = content bytes;
}

module _ {S : Type 0} (sv : Server S) where
  -- An unconditional GET where the store has the object.
  get_object_served :
      (g : Call) (info info' : ObjectInfo) (bytes : Bytes) (s s' s'' : S)
      → IsUnconditional g.request
      → sv.store.head_object g.bucket g.key s ≡ (ok info, s')
      → sv.store.get_object g.bucket g.key s' ≡ (ok (bytes, info'), s'')
      → get_object sv true g s ≡ (whole_object sv.go g info bytes, s'')
  unfolding get_object get_found get_checked get_ranged send_range send
  get_object_served g info info' bytes s s' s'' plain there read =
      ap
        (λ (r : Result Error ObjectInfo × S). elim r.0 as (λ _. Response × S) [
          | ok i ↦ get_found sv true g i r.1
          | err e ↦ (write_error sv.go g (from_store e) g.base, r.1)
        ])
        there
      ∙ ap (λ o. get_checked sv true g info o s')
          (check_preconditions-pass sv.go.parse_time g.request info plain)
      ∙ ap (λ o. get_ranged sv true g info o s')
          (parse_range-none (g.request.header (codes "Range")) info.size plain.no_range)
      ∙ ap
          (λ (r : Result Error (Bytes × ObjectInfo) × S). elim r.0 as (λ _. Response × S) [
            | ok found ↦ (whole_object sv.go g info found.0, r.1)
            | err e ↦ (write_error sv.go g (from_store e) (object_headers sv.go g info), r.1)
          ])
          read

  settle_put_accepted :
      (c : Call) (v : Validator) (info : ObjectInfo) (s : S)
      → from_trailer v ≡ false
      → (finish_put sv c v info s).0.status ≡ 200
      → (finish_put sv c v info s).1 ≡ s
  unfolding finish_put settle_put record_trailer
  settle_put_accepted c v info s up_front h =
      go (verify sv.go v (received sv c) (trailers_met sv c)) refl h
    where
      go :
          (r : Result ApiError (Unit {0}))
          → verify sv.go v (received sv c) (trailers_met sv c) ≡ r
          → (settle_put sv c v info r s).0.status ≡ 200
          → (settle_put sv c v info r s).1 ≡ s
      go (ok u) e h = rw up_front refl
      go (err x) e h = absurd (
          omega (
            arith,
            verify-refuses sv.go v (received sv c) (trailers_met sv c) x e,
            sym (write_error-status sv.go c x c.base) ∙ h,
          ))

  -- A PUT answered 200, with no checksum behind the body, is one that the store took.
  put_object_accepted :
      (c : Call) (s : S)
      → from_trailer (new_validator sv.go c.request) ≡ false
      → (put_object sv c s).0.status ≡ 200
      → (info : ObjectInfo) × (sv.store.put_object
            (put_request sv c (new_validator sv.go c.request))
            s
          ≡ (ok info, (put_object sv c s).1))
  unfolding put_object
  put_object_accepted c s up_front h = go (sv.store.put_object (put_request sv c v) s) refl h
    where
      v : Validator
      v = new_validator sv.go c.request

      go :
          (r : Result Error ObjectInfo × S)
          → sv.store.put_object (put_request sv c v) s ≡ r
          → (attempt sv c c.base (λ _. r) (finish_put sv c v) s).0.status ≡ 200
          → (info : ObjectInfo) × (r
              ≡ (ok info, (attempt sv c c.base (λ _. r) (finish_put sv c v) s).1))
      go (ok info, s') e h =
          (info, ap (λ (x : S). (ok info, x)) (sym (settle_put_accepted c v info s' up_front h)))
      go (err x, s') e h =
          absurd (not_200 x (sym (write_error-status sv.go c (from_store x) c.base) ∙ h))

-- What a PUT has recorded of these bytes and of the request's header.
pub record IsRecorded (md5 : Bytes → Bytes) (c : Call) (bytes : Bytes) (info : ObjectInfo)
    : Type 0 where
  pub size : info.size ≡ length bytes
  pub etag : info.etag ≡ md5 bytes
  pub user_meta : info.user_meta ≡ user_meta_from_headers c.request.fields []
  pub content_type : info.content_type ≡ (
      if beq (c.request.header (codes "Content-Type")) []
      then default_content_type
      else c.request.header (codes "Content-Type"))

-- The request for an object that another call is about.
abbrev pub asks_for : Call → Request → Bytes → Headers → Call
asks_for c r rid base = record {
  request = r;
  rid = rid;
  base = base;
  bucket = c.bucket;
  key = c.key;
}

put_info-IsRecorded :
    {S : Type 0} (sv : Server S) (env : Env) (c : Call) (bytes : Bytes) (info : ObjectInfo)
    (fi : Node)
    → info
      ≡ put_info
          (put_request sv c (new_validator sv.go c.request))
          (put_sidecar env (put_request sv c (new_validator sv.go c.request)) bytes fi)
          fi
    → IsRecorded env.md5 c bytes info
put_info-IsRecorded sv env c bytes info fi e = record {
  size = ap (λ (i : ObjectInfo). i.size) e;
  etag = ap (λ (i : ObjectInfo). i.etag) e;
  user_meta = ap (λ (i : ObjectInfo). i.user_meta) e;
  content_type = ap (λ (i : ObjectInfo). i.content_type) e;
}

-- A server over the store of files at one root. Each call of the store has its own time and name of a
-- temporary file.
module _ (rs : List Bytes) (plain_root : All IsPlain rs) (env : Env) (rooted : env.root ≡ abs rs)
    (times : ℕ → ℕ) (temps : ℕ → Bytes) (plain_temp : (k : ℕ) → IsPlain (temps k)) (ms : Manifests)
    (ids : ℕ → Bytes) (region domain : Bytes) (go : Packages) where
  abbrev pub at : ℕ → Env
  at k = record env { now = times k; temp_name = temps k }

  abbrev pub files : Server Served
  files = over_files rs plain_root at (λ k. rooted) plain_temp ms ids region domain go

  stored_call :
      (c : Call) (k : ℕ) (n : Node) (info : ObjectInfo) (s : Served)
      → files.store.put_object (put_request files c (new_validator go c.request)) (k, n)
        ≡ (ok info, s)
      → Object.put_object (at k) (put_request files c (new_validator go c.request)) n
        ≡ (ok info, s.1)
  unfolding fs_store
  stored_call c k n info s h = ap (λ (r : Result Error ObjectInfo × Served). (r.0, r.1.1)) h

  -- Where a PUT for an object is answered 200, and no checksum comes behind its body, the body could be
  -- read to its end, and every unconditional GET of the key on the tree that the PUT left, whenever it
  -- comes and whatever else it says, is answered 200 with the bytes of that body, under a header that
  -- speaks of their size, their digest, and the content type and the user metadata that the PUT came
  -- with; and it leaves the tree alone.
  pub get_object_after_put :
      (c : Call) (k later : ℕ) (n : Node) (r : Request) (rid : Bytes) (base : Headers)
      → ReadsBack env
      → ((s : Bytes) → beq (env.md5 s) [] ≡ false)
      → ((s : Bytes) → IsAscii (env.md5 s))
      → IsPrintable (declared (put_request files c (new_validator go c.request)))
      → validate_bucket_name c.bucket ≡ ok tt
      → is_dir_marker c.key ≡ false
      → from_trailer (new_validator go c.request) ≡ false
      → (put_object files c (k, n)).0.status ≡ 200
      → IsUnconditional r
      → (bytes : Bytes) × (info : ObjectInfo) × (request_body c.request ≡ ok bytes)
        × IsRecorded env.md5 c bytes info
        × (get_object files true (asks_for c r rid base) (later, (put_object files c (k, n)).1.1)
            ≡ (
              whole_object go (asks_for c r rid base) info bytes,
              (suc (suc later), (put_object files c (k, n)).1.1),
            ))
  unfolding fs_store
  get_object_after_put c k later n r rid base reads_back digests ascii texts valid object up_front
        answered plain =
      let v = new_validator go c.request in
      let req = put_request files c v in
      let g = asks_for c r rid base in
      let n' : Node = (put_object files c (k, n)).1.1 in
      let (info, taken) = put_object_accepted files c (k, n) up_front answered in
      let put = stored_call c k n info (put_object files c (k, n)).1 taken in
      let (bytes, given, shape) =
        put_object_answer rs plain_root (at k) rooted (plain_temp k) req info n n' valid object
          put in
      let read_at = λ (j : ℕ).
        get_object-put_object rs plain_root (at k) rooted (plain_temp k) reads_back digests ascii
          req info n n' (times j) 0 none (temps j) valid object texts put in
      let first = read_at later in
      let second = read_at (suc later) in
      let same : second.0 ≡ bytes = same_body req.body second.1 given in
      (
        bytes,
        info,
        given,
        put_info-IsRecorded files env c bytes info (file bytes (times k)) shape,
        get_object_served files g info info bytes (later, n') (suc later, n') (suc (suc later), n')
            plain (ap (λ (x : Result Error ObjectInfo × Node). (x.0, (suc later, x.1))) first.2.0)
            (ap (λ (x : Result Error (Bytes × ObjectInfo) × Node). (x.0, (suc (suc later), x.1)))
                second.2.1
              ∙ ap (λ (b : Bytes). (ok (b, info), (suc (suc later), n'))) same),
      )
    where
      same_body : (r : Result Error Bytes) {a b : Bytes} → r ≡ ok a → r ≡ ok b → a ≡ b
      same_body r h k = cc
