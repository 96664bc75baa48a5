-- ===== src/Server/Testing.antt =====
-- Servers for tests (testserver.go): `NewTestServer`, which works on a new directory, and its cleanup.
-- The HTTP server around it is package httptest's; a failure ends the test.
use locals.Base.{ℕ, false, List, [], ◌∷◌, Option, none, some, Bytes, Result, ok, err}
use locals.Base.Int.{pos}
use locals.Store.Error.{Error, OsError, exist}
use locals.Store.Path.{segments}
use locals.Store.Fs.{Node, dir, end, alter, remove_all}
use locals.Server.{Options, Outside, Server, new, dir_of}

-- `TestServer`, less the server of package httptest.
pub record TestServer (Float Logger : Type 0) : Type 0 where
  pub url : Bytes
  pub root : Bytes
  pub server : Server Float Logger

-- What `os.MkdirTemp` does at the path that it picks.
pub empty_dir : ℕ → Option Node → Result OsError (Option Node)
empty_dir now none = ok (some (dir now end))
empty_dir now (some n) = err exist

unfoldable pub mkdir_temp : ℕ → Bytes → Node → Result OsError Node
unfolding empty_dir
mkdir_temp now path n = alter now (empty_dir now) n (segments path)

-- `Options{Dir: dir}`; `zero_rate` is 0 as a `float64`.
abbrev pub only_dir : {Float Logger : Type 0} → Float → Bytes → Options Float Logger
only_dir zero_rate path = record {
  dir = path;
  region = [];
  domain = [];
  auto_create_buckets = false;
  logger = none;
  latency = pos 0;
  fail_rate = zero_rate;
}

-- The loop over the functions that a test gives.
unfoldable pub adjust :
    {Float Logger : Type 0}
    → List (Options Float Logger → Options Float Logger)
    → Options Float Logger
    → Options Float Logger
adjust [] o = o
adjust (fn ∷ fns) o = adjust fns (fn o)

-- `os.RemoveAll(dir)`, whose error is dropped.
unfoldable pub remove_temp : ℕ → Bytes → Node → Node
remove_temp now path n = elim (remove_all now n (segments path)) [ ok n' ↦ n' | err e ↦ n ]

module _ {Float Logger : Type 0} (out : Outside Logger) (zero_rate : Float) (temp url : Bytes) where
  -- What follows `New`.
  unfoldable pub wrap :
      Result Error (Server Float Logger) × Node → Option (TestServer Float Logger) × Node
  wrap (ok srv, n) = (some (record { url = url; root = dir_of srv; server = srv }), n)
  wrap (err e, n) = (none, remove_temp out.started temp n)

  -- `NewTestServer`; `temp` is the directory that `os.MkdirTemp` picks, and none is the end of the test.
  unfoldable pub new_test_server :
      List (Options Float Logger → Options Float Logger)
      → Node
      → Option (TestServer Float Logger) × Node
  new_test_server opts n = elim (mkdir_temp out.started temp n) [
    | err e ↦ (none, n)
    | ok n' ↦ wrap (new out (adjust opts (only_dir zero_rate temp)) n')
  ]

  -- What the cleanup that `NewTestServer` registers does to the tree.
  unfoldable pub cleanup : ℕ → Node → Node
  cleanup now n = remove_temp now temp n
