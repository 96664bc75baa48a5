-- ===== src/Api/Condition/Laws.antt =====
-- A client that sends an object's own ETag back.
use mathlib.Core.List.{reverse, reverse-append, reverse-reverse}
use locals.Base.{
  ℕ, ◌≡◌, refl, sym, ap, ◌∙◌, Bool, true, false, ◌||◌, [], ◌∷◌, ◌++◌, Option, arith, Bytes, codes,
  if◌then◌else◌, beq, beq_refl, has_prefix, trim_prefix, split_of_Lacks, Lacks, contains_byte,
  trim_space, trim_left, trim_right, is_space,
}
use locals.Api.Request.{Request}
use locals.Store.Info.{ObjectInfo}
use locals.Api.Condition.{
  quote, quote_etag, candidate_matches, etag_matches, pass, not_modified, failed, refuses,
  known_to_client, check_preconditions,
}

trim_right_last :
    (s : Bytes) (d : ℕ) → is_space d ≡ false → trim_right is_space (s ++ (d ∷ [])) ≡ s ++ (d ∷ [])
unfolding trim_right trim_left
trim_right_last s d h =
    rw (reverse-append s (d ∷ []), h)
      (ap reverse (sym (reverse-append s (d ∷ []))) ∙ reverse-reverse (s ++ (d ∷ [])))

trim_space-quoted :
    (s : Bytes) → trim_space (quote ∷ (s ++ (quote ∷ []))) ≡ quote ∷ (s ++ (quote ∷ []))
unfolding trim_space
trim_space-quoted s = trim_right_last (quote ∷ s) quote (unfold is_space in refl)

quote_etag-quoted :
    (e : Bytes)
    → beq e [] ≡ false
    → has_prefix e (quote ∷ []) ≡ false
    → quote_etag e ≡ quote ∷ (e ++ (quote ∷ []))
unfolding quote_etag
quote_etag-quoted e full bare = rw (full, bare)

Lacks-quoted : (e : Bytes) → Lacks b',' e → Lacks b',' (e ++ (quote ∷ []))
unfolding contains_byte
Lacks-quoted [] h = refl
Lacks-quoted (c ∷ e) h = ground (arith, Lacks-quoted e)

not_weak : (s : Bytes) → trim_prefix (quote ∷ s) (codes "W/") ≡ quote ∷ s
unfolding trim_prefix
not_weak s = refl

candidate_own :
    (s : Bytes)
    → candidate_matches (quote ∷ (s ++ (quote ∷ []))) (quote ∷ (s ++ (quote ∷ []))) ≡ true
unfolding candidate_matches
candidate_own s = rw (trim_space-quoted s, not_weak (s ++ (quote ∷ [])), beq_refl) (or_true _)
  where
    or_true : (b : Bool) → (b || true) ≡ true
    or_true true = refl
    or_true false = refl

matches_single :
    (etag h : Bytes) → Lacks b',' h → etag_matches h etag ≡ (candidate_matches etag h || false)
unfolding etag_matches
matches_single etag h lacks = rw (split_of_Lacks h b',' lacks)

-- The ETag as it stands in a response matches itself in a request, if the digest is not empty,
-- begins with no quote, and holds no comma.
pub etag_matches-own :
    (e : Bytes)
    → beq e [] ≡ false
    → has_prefix e (quote ∷ []) ≡ false
    → Lacks b',' e
    → etag_matches (quote_etag e) (quote_etag e) ≡ true
etag_matches-own e full bare lacks = rw (
  quote_etag-quoted e full bare,
  matches_single (quote ∷ (e ++ (quote ∷ []))) (quote ∷ (e ++ (quote ∷ [])))
      (unfold contains_byte in Lacks-quoted e lacks),
  candidate_own e,
)

-- What a digest looks like, so that a quoted one is a single candidate of a list.
pub record IsDigest (e : Bytes) : Type 0 where
  pub full : beq e [] ≡ false
  pub bare : has_prefix e (quote ∷ []) ≡ false
  pub single : Lacks b',' e

quoted_full : (e : Bytes) → IsDigest e → beq (quote_etag e) [] ≡ false
quoted_full e d = rw (quote_etag-quoted e d.full d.bare) (unfold beq in refl)

module _ (parse_time : Bytes → Option ℕ) (r : Request) (info : ObjectInfo)
    (d : IsDigest info.etag) where
  not_refused :
      r.header (codes "If-Match") ≡ quote_etag info.etag → refuses parse_time r info ≡ false
  unfolding refuses
  not_refused h = rw (h, quoted_full info.etag d, etag_matches-own info.etag d.full d.bare d.single)

  known :
      r.header (codes "If-None-Match") ≡ quote_etag info.etag
      → known_to_client parse_time r info ≡ true
  unfolding known_to_client
  known h = rw (h, quoted_full info.etag d, etag_matches-own info.etag d.full d.bare d.single)

  answer : check_preconditions parse_time r info ≡ (
      if refuses parse_time r info
      then failed
      else if known_to_client parse_time r info
      then not_modified
      else pass)
  unfolding check_preconditions
  answer = refl

  -- A request that sends the object's ETag in `If-Match`, and neither `If-None-Match` nor
  -- `If-Modified-Since`, passes, whatever date `If-Unmodified-Since` has.
  pub check_preconditions-match :
      r.header (codes "If-Match") ≡ quote_etag info.etag
      → r.header (codes "If-None-Match") ≡ []
      → r.header (codes "If-Modified-Since") ≡ []
      → check_preconditions parse_time r info ≡ pass
  check_preconditions-match m n s =
      rw (answer, not_refused m) (unfold known_to_client in unfold beq in rw (n, s))

  -- A request that sends the object's ETag in `If-None-Match`, and neither `If-Match` nor
  -- `If-Unmodified-Since`, is answered "not modified", whatever date `If-Modified-Since` has.
  pub check_preconditions-none_match :
      r.header (codes "If-Match") ≡ []
      → r.header (codes "If-Unmodified-Since") ≡ []
      → r.header (codes "If-None-Match") ≡ quote_etag info.etag
      → check_preconditions parse_time r info ≡ not_modified
  check_preconditions-none_match m u n =
      let unasked : refuses parse_time r info ≡ false = unfold refuses in unfold beq in rw (m, u) in
      rw (answer, unasked, known n)
