-- ===== src/Server.antt =====
-- The package that other programs import (server.go): `Options`, `New`, and `Dir`. A server is the
-- handler of internal/s3api over the store of files of internal/store.
mod ReadBack
pub mod Traffic
mod Tests
pub mod Testing
pub mod Command
use locals.Base.{ℕ, Bool, Option, Bytes, codes, Result}
use locals.Base.Int.{ℤ}
use locals.Store.Fs.{Node}
use locals.Store.Info.{Env}
use locals.Store.Monad.{M, ◌>>=◌, return}
use locals.Store.Open.{FsStore, WorkingDir, new_fs}
use locals.Store.Multipart.{Manifests}
use locals.Store.Contract.{Served, Backend, fs_store}
use locals.Api.Packages.{Packages}
use locals.Api.Request.{Request}
use locals.Api.Status.{Printed}
use locals.Api.Serve
use locals.Api.Serve.{Configured, Moment, or_default, default_region}

-- `Options`
pub record Options (Float Logger : Type 0) : Type 0 where
  pub dir : Bytes
  pub region : Bytes
  pub domain : Bytes
  pub auto_create_buckets : Bool
  pub logger : Option Logger
  pub latency : ℤ
  pub fail_rate : Float

-- What a server is given from outside: the time and the working directory when it starts, the
-- functions of other packages, and what each call of the store meets. The root and the option in
-- `env` are not read.
pub record Outside (Logger : Type 0) : Type 0 where
  pub started : ℕ
  pub working_dir : WorkingDir
  pub env : Env
  pub times : ℕ → ℕ
  pub temps : ℕ → Bytes
  pub manifests : Manifests
  pub ids : ℕ → Bytes
  pub go : Packages
  pub discard : Logger

-- `Server`
pub record Server (Float Logger : Type 0) : Type 0 where
  pub handler : Configured Served Float Logger
  pub store : FsStore
  pub opts : Options Float Logger

-- The options with their defaults.
unfoldable pub with_defaults : {Float Logger : Type 0} → Options Float Logger → Options Float Logger
with_defaults opts = record opts {
  dir = or_default opts.dir (codes "data");
  region = or_default opts.region default_region;
}

module _ {Logger : Type 0} (out : Outside Logger) where
  -- What one call of an opened store is given.
  abbrev pub env_of : FsStore → Env
  env_of st = record out.env { root = st.root; auto_create = st.auto_create_buckets }

  abbrev pub call_env : FsStore → ℕ → Env
  call_env st k = record (env_of st) { now = out.times k; temp_name = out.temps k }

  -- An opened store as the handlers see it.
  abbrev pub backend : FsStore → Backend Served
  backend st = fs_store out.manifests (call_env st) out.ids

  -- The server over an opened store.
  unfoldable pub over_store :
      {Float : Type 0} → Options Float Logger → FsStore → Server Float Logger
  over_store opts st = record {
    handler = Serve.new out.go out.discard (record {
      store = backend st;
      region = opts.region;
      domain = opts.domain;
      logger = opts.logger;
      latency = opts.latency;
      fail_rate = opts.fail_rate;
    });
    store = st;
    opts = opts;
  }

  -- What `New` does with the options as they are completed.
  unfoldable pub open_server : {Float : Type 0} → Options Float Logger → M (Server Float Logger)
  open_server opts = do
    st ← new_fs out.started out.working_dir opts.dir opts.auto_create_buckets
    return (over_store opts st)

  -- `New`
  unfoldable pub new : {Float : Type 0} → Options Float Logger → M (Server Float Logger)
  new given = open_server (with_defaults given)

-- `ServeHTTP`
unfoldable pub serve :
    {Float Logger : Type 0} (zero : Float) (less : Float → Float → Bool) (hex : Bytes → Bytes)
    (xml : Printed)
    → Server Float Logger
    → Moment Float
    → Request
    → Served
    → Serve.Served × Served
serve zero less hex xml srv = Serve.serve zero less hex xml srv.handler

-- `Dir`
unfoldable pub dir_of : {Float Logger : Type 0} → Server Float Logger → Bytes
dir_of s = s.store.root
