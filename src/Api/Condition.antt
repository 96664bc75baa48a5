-- ===== src/Api/Condition.antt =====
-- Conditional requests (internal/s3api/rangehdr.go, object.go): `quoteETag`, `etagMatches` and
-- `checkPreconditions`.
pub mod Laws
use locals.Base.{
  ℕ, Bool, true, false, ◌&&◌, ◌||◌, not, List, [], ◌∷◌, ◌++◌, Option, none, some, Bytes, codes, ltb,
  leb, if◌then◌else◌, beq, has_prefix, trim_prefix, split, trim_space,
}
use locals.Api.Request.{Request}
use locals.Store.Info.{ObjectInfo}

abbrev pub quote : ℕ
quote = b'"'

-- `quoteETag`
unfoldable pub quote_etag : Bytes → Bytes
quote_etag etag =
    if beq etag []
    then []
    else if has_prefix etag (quote ∷ [])
    then etag
    else quote ∷ (etag ++ (quote ∷ []))

-- One candidate of the list.
candidate_matches : Bytes → Bytes → Bool
candidate_matches etag candidate =
    let c = trim_space candidate in beq c (codes "*") || beq (trim_prefix c (codes "W/")) etag

any_matches : Bytes → List Bytes → Bool
any_matches etag [] = false
any_matches etag (c ∷ cs) = candidate_matches etag c || any_matches etag cs

-- `etagMatches`
unfoldable pub etag_matches : Bytes → Bytes → Bool
unfolding any_matches candidate_matches
etag_matches header etag = any_matches etag (split header b',')

pub data Outcome : Type 0 where
  pass not_modified failed : Outcome

-- Whether a date given by the client lies before the object's last change. The dates are parsed
-- by `http.ParseTime`, and one that is none is ignored.
changed_after : Option ℕ → ℕ → Bool
changed_after none modified = false
changed_after (some ts) modified = ltb ts modified

unchanged_since : Option ℕ → ℕ → Bool
unchanged_since none modified = false
unchanged_since (some ts) modified = leb modified ts

module _ (parse_time : Bytes → Option ℕ) where
  -- `If-Match`, or else `If-Unmodified-Since`.
  unfoldable pub refuses : Request → ObjectInfo → Bool
  unfolding changed_after
  refuses r info =
      if not (beq (r.header (codes "If-Match")) [])
      then not (etag_matches (r.header (codes "If-Match")) (quote_etag info.etag))
      else not (beq (r.header (codes "If-Unmodified-Since")) [])
        && changed_after (parse_time (r.header (codes "If-Unmodified-Since"))) info.last_modified

  -- `If-None-Match`, or else `If-Modified-Since`.
  unfoldable pub known_to_client : Request → ObjectInfo → Bool
  unfolding unchanged_since
  known_to_client r info =
      if not (beq (r.header (codes "If-None-Match")) [])
      then etag_matches (r.header (codes "If-None-Match")) (quote_etag info.etag)
      else not (beq (r.header (codes "If-Modified-Since")) [])
        && unchanged_since (parse_time (r.header (codes "If-Modified-Since"))) info.last_modified

  unfoldable pub check_preconditions : Request → ObjectInfo → Outcome
  check_preconditions r info =
      if refuses r info then failed else if known_to_client r info then not_modified else pass
