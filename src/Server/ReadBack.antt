-- ===== src/Server/ReadBack.antt =====
-- A server from its options to the objects that it serves (server.go, internal/store/fs.go,
-- internal/s3api/object.go).
use locals.Base.{ℕ, suc, ◌≡◌, sym, subst, Bytes, beq, true, false, [], ok}
use locals.Store.Key.{is_dir_marker, validate_bucket_name}
use locals.Store.Key.Valid.{IsPlain}
use locals.Store.Fs.{Node}
use locals.Store.Info.{ObjectInfo}
use locals.Store.Json.{ReadsBack, IsPrintable, IsAscii}
use locals.Store.Object.{declared}
use locals.Store.Monad.{return, bind_done}
use locals.Store.Contract.{Served}
use locals.Store.Open.{FsStore, new_fs}
use locals.Store.Open.Ready.{Rooted, new_fs-IsReady}
use locals.Api.Request.{Request}
use locals.Api.Response.{Headers, Call}
use locals.Api.Body.{request_body}
use locals.Api.Checksum.{new_validator, from_trailer}
use locals.Api.Object.{put_object, put_request, get_object}
use locals.Api.Object.ReadBack.{
  IsUnconditional, IsRecorded, asks_for, whole_object, get_object_after_put,
}
use locals.Api.Server
use locals.Api.Serve
use locals.Server.{Options, Outside, with_defaults, env_of, over_store, open_server, new}

opened :
    {Float Logger : Type 0} (out : Outside Logger) (given : Options Float Logger)
    (srv : locals.Server.Server Float Logger) (n n' : Node)
    → new out given n ≡ (ok srv, n')
    → (st : FsStore) × (new_fs out.started out.working_dir
          (with_defaults given).dir
          (with_defaults given).auto_create_buckets
          n
        ≡ (ok st, n'))
      × (srv ≡ over_store out (with_defaults given) st)
unfolding new open_server
opened out given srv n n' h =
    let (st, k, opens, rest) =
      bind_done
        (new_fs out.started out.working_dir (with_defaults given).dir
          (with_defaults given).auto_create_buckets)
        (λ st. return (over_store out (with_defaults given) st)) n n' srv h in
    (st, cc, cc)

-- A handler answers an unconditional GET with what a PUT before it has brought.
module _ {Logger : Type 0} (out : Outside Logger) (c : Call) (r : Request) (rid : Bytes)
    (base : Headers) where
  abbrev Reads : Server.Server Served → (k later : ℕ) (m : Node) → Type 0
  Reads sv k later m =
      IsPrintable (declared (put_request sv c (new_validator out.go c.request)))
      → (put_object sv c (k, m)).0.status ≡ 200
      → (bytes : Bytes) × (info : ObjectInfo) × (request_body c.request ≡ ok bytes)
        × IsRecorded out.env.md5 c bytes info
        × (get_object sv true (asks_for c r rid base) (later, (put_object sv c (k, m)).1.1) ≡ (
          whole_object out.go (asks_for c r rid base) info bytes,
          (suc (suc later), (put_object sv c (k, m)).1.1),
        ))

-- Of the handlers of a server that New has made, on any directory and with any options: where
-- putObject answers the PUT of an object 200, and no checksum comes behind its body, getObject
-- answers every unconditional GET of the key that reaches it on the tree that the PUT left,
-- whenever it comes, 200 with the bytes of the PUT's body, under a header that speaks of their
-- size, their digest, and the content type and the user metadata that the PUT came with, and
-- leaves the tree alone; given a valid name of the bucket, a rooted working directory, plain names
-- of temporary files, digests that are printed in ASCII and are not empty, JSON that reads back
-- valid texts and maps of them, and a PUT whose content type, user metadata and checksum are such.
pub new-serves_puts :
    {Float Logger : Type 0} (out : Outside Logger) (given : Options Float Logger)
    (srv : locals.Server.Server Float Logger) (c : Call) (r : Request) (rid : Bytes)
    (base : Headers) (n n' m : Node) (k later : ℕ)
    → Rooted out.working_dir
    → ((j : ℕ) → IsPlain (out.temps j))
    → ReadsBack out.env
    → ((s : Bytes) → beq (out.env.md5 s) [] ≡ false)
    → ((s : Bytes) → IsAscii (out.env.md5 s))
    → new out given n ≡ (ok srv, n')
    → validate_bucket_name c.bucket ≡ ok tt
    → is_dir_marker c.key ≡ false
    → from_trailer (new_validator out.go c.request) ≡ false
    → IsUnconditional r
    → IsPrintable (declared (put_request srv.handler.server c (new_validator out.go c.request)))
    → (put_object srv.handler.server c (k, m)).0.status ≡ 200
    → (bytes : Bytes) × (info : ObjectInfo) × (request_body c.request ≡ ok bytes)
      × IsRecorded out.env.md5 c bytes info
      × (get_object srv.handler.server true
            (asks_for c r rid base)
            (later, (put_object srv.handler.server c (k, m)).1.1)
          ≡ (
            whole_object out.go (asks_for c r rid base) info bytes,
            (suc (suc later), (put_object srv.handler.server c (k, m)).1.1),
          ))
unfolding over_store Serve.new
new-serves_puts out given srv c r rid base n n' m k later rooted_wd plain_temp reads_back digests
      ascii opens valid object up_front plain =
    let opts = with_defaults given in
    let (st, made, same) = opened out given srv n n' opens in
    let (rs, rooted, plain_root, _, _) =
      new_fs-IsReady out.started out.working_dir opts.dir opts.auto_create_buckets st n n' rooted_wd
        made in
    subst (λ (x : locals.Server.Server _ _). Reads out c r rid base x.handler.server k later m)
      (sym same)
      (λ texts answered.
        get_object_after_put rs plain_root (env_of out st) rooted out.times out.temps plain_temp
          out.manifests out.ids (Serve.or_default opts.region Serve.default_region) opts.domain
          out.go c k later m r rid base reads_back digests ascii texts valid object up_front
          answered plain)
