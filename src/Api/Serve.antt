-- ===== src/Api/Serve.antt =====
-- The handler as it is configured (internal/s3api/router.go): `Config`, `New`, `requestID`, and
-- `ServeHTTP` with its delay, its draw for `FailRate` and its log. The query and the duration that the
-- log names are left out.
use locals.Base.{
  ℕ, Bool, ◌&&◌, [], Option, none, some, Bytes, codes, map, upper, beq, if◌then◌else◌, Result, ok,
  err,
}
use locals.Base.Int.{ℤ, pos, negsuc}
use locals.Store.Contract.{Backend}
use locals.Api.Error.{ApiError}
use locals.Api.Request.{Method, Request}
use locals.Api.Packages.{Packages}
use locals.Api.Presign.{access_key, check_presign_expiry}
use locals.Api.Response.{Response, Call}
use locals.Api.Server.{Server}
use locals.Api.Status.{Printed, new_status_writer, after, calls_of}
use locals.Api.Router.{routed, serve_http}

-- `Config`, with `float64` and `*slog.Logger` as types that are given.
pub record Config (S Float Logger : Type 0) : Type 0 where
  pub store : Backend S
  pub region : Bytes
  pub domain : Bytes
  pub logger : Option Logger
  pub latency : ℤ
  pub fail_rate : Float

-- `Handler`
pub record Configured (S Float Logger : Type 0) : Type 0 where
  pub server : Server S
  pub log : Logger
  pub latency : ℤ
  pub fail_rate : Float

abbrev pub default_region : Bytes
default_region = codes "us-east-1"

-- `if given == "" { given = fallback }`
unfoldable pub or_default : Bytes → Bytes → Bytes
or_default given fallback = if beq given [] then fallback else given

-- `New`; `discard` is `slog.New(slog.DiscardHandler)`.
unfoldable pub new :
    {S Float Logger : Type 0}
    → Packages
    → Logger
    → Config S Float Logger
    → Configured S Float Logger
new go discard cfg = record {
  server = record {
    store = cfg.store;
    region = or_default cfg.region default_region;
    domain = cfg.domain;
    go = go;
  };
  log = elim cfg.logger [ none ↦ discard | some log ↦ log ];
  latency = cfg.latency;
  fail_rate = cfg.fail_rate;
}

-- What a request meets: the random bytes of its id, the time, and the draw of `mrand.Float64`.
pub record Moment (Float : Type 0) : Type 0 where
  pub random : Bytes
  pub now : ℕ
  pub draw : Float

-- One line of the log. There is no access key where a link has expired.
pub record LogEntry : Type 0 where
  pub method : Method
  pub bucket : Bytes
  pub key : Bytes
  pub status : ℕ
  pub access_key : Option Bytes

pub record Served : Type 0 where
  pub response : Response
  pub entry : LogEntry
  pub slept : ℕ

-- `requestID`; `hex` is `hex.EncodeToString`.
unfoldable pub request_id : (Bytes → Bytes) → Bytes → Bytes
request_id hex random = map upper (hex random)

-- `if h.cfg.Latency > 0 { time.Sleep(h.cfg.Latency) }`
unfoldable pub delay : ℤ → ℕ
delay (pos n) = n
delay (negsuc n) = 0

unfoldable pub logged_key : Request → Result ApiError (Unit {0}) → Option Bytes
logged_key r (ok u) = some (access_key r)
logged_key r (err e) = none

-- What the log says of a request that is answered so.
unfoldable pub log_entry : Printed → Call → Result ApiError (Unit {0}) → Response → LogEntry
log_entry xml c admitted response = record {
  method = c.request.method;
  bucket = c.bucket;
  key = c.key;
  status = (after (calls_of xml response) new_status_writer).status;
  access_key = logged_key c.request admitted;
}

module _ {Float : Type 0} (zero : Float) (less : Float → Float → Bool) where
  -- `h.cfg.FailRate > 0 && mrand.Float64() < h.cfg.FailRate`
  unfoldable pub picked : Float → Float → Bool
  picked rate draw = less zero rate && less draw rate

  -- `ServeHTTP`
  unfoldable pub serve :
      {S Logger : Type 0} (hex : Bytes → Bytes) (xml : Printed)
      → Configured S Float Logger
      → Moment Float
      → Request
      → S
      → Served × S
  serve hex xml h m r s =
      let rid = request_id hex m.random in
      let (response, s') = serve_http h.server rid m.now (picked h.fail_rate m.draw) r s in
      (
        record {
          response = response;
          entry =
              log_entry xml (routed h.server rid r)
                (check_presign_expiry h.server.go.parse_date r m.now) response;
          slept = delay h.latency;
        },
        s',
      )
