-- ===== src/Server/Tests.antt =====
-- A server on a concrete directory (server.go), and an object that is put into it and read.
use locals.Base.{
  ℕ, ◌⊎◌, ◌++◌, Lacks, arith, All, ◌≡◌, refl, true, false, List, [], ◌∷◌, codes, Bytes, none, beq,
  if◌then◌else◌, ok,
}
use locals.Store.Key.{is_dir_marker, validate_bucket_name}
use locals.Store.Path.{is_rooted, segments, join_path}
use locals.Store.Fs.{Node, mkdir_all}
use locals.Store.Key.Valid.{IsPlain}
use locals.Store.Path.Clean.{abs}
use locals.Store.Bucket.{is_dir_at}
use locals.Store.Object
use locals.Store.Object.{head_object, prune_empty_dirs, delete_at, clear_away}
use locals.Store.Multipart.{Manifests}
use locals.Store.Tests.PutGet.{server, tree}
use locals.Api.Request.{Request, put_method, get_method}
use locals.Api.Response.{Call}
use locals.Api.Serve
use locals.Store.Open.{FsStore, WorkingDir, absolute, open_at, new_fs, tmp_dir}
use locals.Store.Open.Ready.{Rooted, new_fs-IsReady}
use locals.Server
use locals.Server.{Options, Outside, with_defaults, over_store, open_server, new}
use locals.Api.Router.{serve_http}
use locals.Server.Command.{port_of}
use locals.Server.Command.Port.{port_of_lem}
use locals.Base.Int.{pos}
use locals.Api.Tests.Handlers.{packages}

abbrev manifests : Manifests
manifests = record { write = λ up. []; read = λ s. none }

abbrev typed : Bytes → Bytes
typed name = if beq name (codes "Content-Type") then codes "text/plain" else []

abbrev c : Call
c = record {
  request = record {
    method = put_method;
    path = codes "/bkt/docs/a";
    host = codes "localhost";
    fields = (codes "X-Amz-Meta-Author", codes "me" ∷ []) ∷ [];
    body = codes "hello";
    header = typed;
    query = λ name. [];
    has_query = λ name. false;
  };
  rid = codes "R";
  base = [];
  bucket = codes "bkt";
  key = codes "docs/a";
}

abbrev asked : Request
asked = record {
  method = get_method;
  path = codes "/bkt/docs/a";
  host = codes "localhost";
  fields = [];
  body = [];
  header = λ name. [];
  query = λ name. [];
  has_query = λ name. false;
}

abbrev working_dir : WorkingDir
working_dir = ok (codes "/home")

abbrev outside : Outside ℕ
outside = record {
  started = 5;
  working_dir = working_dir;
  env = server;
  times = λ k. k;
  temps = λ k. codes "put-1";
  manifests = manifests;
  ids = λ k. [];
  go = packages;
  discard = 0;
}

abbrev options : Options ℕ ℕ
options = record {
  dir = codes "../srv/.";
  region = [];
  domain = [];
  auto_create_buckets = false;
  logger = none;
  latency = pos 0;
  fail_rate = 0;
}

abbrev store : FsStore
store = record { root = codes "/srv"; auto_create_buckets = false }

opened : new_fs 5 working_dir (codes "../srv/.") false tree ≡ (ok store, tree)
unfolding new_fs absolute open_at is_rooted join_path segments mkdir_all
opened = refl

rooted : Rooted working_dir
unfolding is_rooted
rooted d e = ground arith

new_fs-IsReady_example :
    (rs : List Bytes) × (store.root ≡ abs rs)
    × All IsPlain rs
    × (store.auto_create_buckets ≡ false)
    × (is_dir_at tree (segments (tmp_dir store.root)) ≡ true)
new_fs-IsReady_example =
    new_fs-IsReady 5 working_dir (codes "../srv/.") false store tree tree rooted opened

abbrev running : Server.Server ℕ ℕ
running = over_store outside (with_defaults options) store

started : new outside options tree ≡ (ok running, tree)
unfolding new open_server with_defaults Serve.or_default beq new_fs absolute open_at is_rooted
    join_path segments mkdir_all
started = refl

valid : validate_bucket_name (codes "bkt") ≡ ok tt
unfolding validate_bucket_name
valid = refl

object : is_dir_marker (codes "docs/a") ≡ false
unfolding is_dir_marker
object = refl

abbrev put_left : Node
put_left = (serve_http running.handler.server (codes "R") 5 false c.request (3, tree)).1.1

port_of_lem_example :
    ((port_of (codes "[::1]:9000") ≡ b':' ∷ codes "[::1]:9000") × Lacks b':' (codes "[::1]:9000"))
    ⊎ ((host : Bytes) × (port : Bytes) × (port_of (codes "[::1]:9000") ≡ b':' ∷ port)
        × (codes "[::1]:9000" ≡ host ++ (b':' ∷ port))
        × Lacks b':' port)
port_of_lem_example = port_of_lem (codes "[::1]:9000")
