-- ===== src/Server/Command.antt =====
-- The command (cmd/locals3/main.go): `run`, `parseLevel` and `portOf`. The parsing of the flags is
-- package flag's. What is printed for people is left out, but for the version.
pub mod Port
use locals.Base.{
  ℕ, zero, suc, Bool, true, false, [], ◌∷◌, Option, none, some, Bytes, codes, beq, ◌==◌, length,
  drop, get_elem?, if◌then◌else◌, Result, ok, err,
}
use locals.Base.Int.{ℤ, pos}
use locals.Store.Error.{Error}
use locals.Store.Fs.{Node}
use locals.Server.{Options, Outside, Server, new}

pub data Level : Type 0 where
  error_level info_level debug_level : Level

-- `parseLevel`
unfoldable pub parse_level : Bytes → Option Level
parse_level s =
    if beq s (codes "error")
    then some error_level
    else if beq s (codes "info")
    then some info_level
    else if beq s (codes "debug")
    then some debug_level
    else none

-- The loop of `portOf`, at the first `i` bytes.
unfoldable pub from_last_colon : ℕ → Bytes → Option Bytes
from_last_colon zero addr = none
from_last_colon (suc i) addr = elim (get_elem? addr i) [
  | none ↦ from_last_colon i addr
  | some c ↦ elim (c == b':') [ true ↦ some (drop i addr) | false ↦ from_last_colon i addr ]
]

-- `portOf`
unfoldable pub port_of : Bytes → Bytes
unfolding from_last_colon
port_of addr = elim (from_last_colon (length addr) addr) [ some port ↦ port | none ↦ b':' ∷ addr ]

-- The flags, as package flag leaves them.
pub record Flags (Float : Type 0) : Type 0 where
  pub dir : Bytes
  pub addr : Bytes
  pub region : Bytes
  pub domain : Bytes
  pub auto_create : Bool
  pub log_level : Bytes
  pub latency : ℤ
  pub fail_rate : Float
  pub show_version : Bool

-- What the flags are where none is given; `zero_rate` is 0 as a `float64`.
abbrev pub default_flags : {Float : Type 0} → Float → Flags Float
default_flags zero_rate = record {
  dir = codes "data";
  addr = codes ":9000";
  region = codes "us-east-1";
  domain = codes "localhost";
  auto_create = false;
  log_level = codes "info";
  latency = pos 0;
  fail_rate = zero_rate;
  show_version = false;
}

-- How the serving ends: `ListenAndServe` returns, because the server was closed or for another reason,
-- or a signal comes and `Close` returns.
pub data Ending (Failure : Type 0) : Type 0 where
  server_closed : Ending Failure
  listen_failed : Failure → Ending Failure
  signalled : Option Failure → Ending Failure

pub data RunError (Failure : Type 0) : Type 0 where
  unknown_level : Bytes → RunError Failure
  not_opened : Error → RunError Failure
  serving : Failure → RunError Failure

-- What `run` returns, and the version where it prints that.
pub data Run (Failure : Type 0) : Type 0 where
  version_shown : Bytes → Run Failure
  done : Run Failure
  refused : RunError Failure → Run Failure

-- The options of the server that the flags ask for; `logger` is the one of the level.
abbrev pub options_of : {Float Logger : Type 0} → Flags Float → Logger → Options Float Logger
options_of flags logger = record {
  dir = flags.dir;
  region = flags.region;
  domain = flags.domain;
  auto_create_buckets = flags.auto_create;
  logger = some logger;
  latency = flags.latency;
  fail_rate = flags.fail_rate;
}

-- The `select` at the end of `run`.
unfoldable pub ended : {Failure : Type 0} → Ending Failure → Run Failure
ended server_closed = done
ended (listen_failed e) = refused (serving e)
ended (signalled none) = done
ended (signalled (some e)) = refused (serving e)

-- A server's life: how it ends, and what the requests till then make of the tree.
pub record Life (Float Logger Failure : Type 0) : Type 0 where
  pub requests : Server Float Logger → Node → Node
  pub ending : Ending Failure

module _ {Float Logger Failure : Type 0} (life : Life Float Logger Failure) where
  -- From the opening of the server on.
  unfoldable pub serve_until : Result Error (Server Float Logger) × Node → Run Failure × Node
  serve_until (ok srv, n) = (ended life.ending, life.requests srv n)
  serve_until (err e, n) = (refused (not_opened e), n)

  unfoldable pub with_level :
      Outside Logger → (Level → Logger) → Flags Float → Option Level → Node → Run Failure × Node
  with_level out logger_at flags none n = (refused (unknown_level flags.log_level), n)
  with_level out logger_at flags (some level) n =
      serve_until (new out (options_of flags (logger_at level)) n)

  -- `run`
  unfoldable pub run :
      Outside Logger → (Level → Logger) → Bytes → Flags Float → Node → Run Failure × Node
  run out logger_at version flags n =
      if flags.show_version
      then (version_shown version, n)
      else with_level out logger_at flags (parse_level flags.log_level) n

-- `main`: the status that the process ends with.
unfoldable pub exit_status : {Failure : Type 0} → Run Failure → ℕ
exit_status (version_shown v) = 0
exit_status done = 0
exit_status (refused e) = 1
