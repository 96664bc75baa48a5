-- ===== src/Api/Packages.antt =====
-- What the handlers call of packages that do not lie in the repository, as functions that they are
-- given.
use locals.Base.{ℕ, Bytes, List, Option}
use locals.Store.Multipart.{CompletedPart}
use locals.Api.Xml.{DeleteRequest}

pub record Packages : Type 0 where
  -- digests as raw bytes: crypto/md5, crypto/sha1, crypto/sha256 and hash/crc32 with its two tables
  pub md5 : Bytes → Bytes
  pub crc32 : Bytes → Bytes
  pub crc32c : Bytes → Bytes
  pub sha1 : Bytes → Bytes
  pub sha256 : Bytes → Bytes
  -- `base64.StdEncoding.EncodeToString`
  pub base64 : Bytes → Bytes
  -- `http.CanonicalHeaderKey`
  pub canonical : Bytes → Bytes
  -- `url.QueryEscape` and `url.QueryUnescape`
  pub query_escape : Bytes → Bytes
  pub query_unescape : Bytes → Option Bytes
  -- `http.ParseTime` in seconds, and `time.Parse` with the layout of X-Amz-Date in nanoseconds
  pub parse_time : Bytes → Option ℕ
  pub parse_date : Bytes → Option ℕ
  -- `Time.Format(http.TimeFormat)` of seconds
  pub http_time : ℕ → Bytes
  -- `strconv.FormatInt`
  pub decimal : ℕ → Bytes
  -- `xml.Unmarshal` of the two bodies that requests have
  pub read_delete : Bytes → Option DeleteRequest
  pub read_complete : Bytes → Option (List CompletedPart)
