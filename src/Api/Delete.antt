-- ===== src/Api/Delete.antt =====
-- The deletion of many objects (internal/s3api/delete.go): `deleteObjects`.
pub mod Account
use locals.Base.{
  ℕ, Bool, not, List, [], ◌∷◌, none, some, Bytes, length, ltb, if◌then◌else◌, ok, err,
}
use locals.Store.Listing.{max_keys_limit}
use locals.Api.Error.{from_store, err_incomplete_body, err_invalid_request}
use locals.Api.Xml.{DeleteRequest, DeleteResult, delete_result}
use locals.Api.Response.{Call, write_error, write_xml}
use locals.Api.Body.{limited_body}
use locals.Api.Server.{Server, Handler, answer}

-- `maxDeleteBody`
abbrev pub max_delete_body : ℕ
max_delete_body = 8388608

module _ {S : Type 0} (sv : Server S) (bucket : Bytes) (quiet : Bool) where
  -- The loop over the keys: an error is reported in the body, and the next key goes on.
  unfoldable pub delete_loop : List Bytes → S → DeleteResult × S
  delete_loop [] s = (record { deleted = []; errors = [] }, s)
  delete_loop (key ∷ keys) s =
      let (r, s') = sv.store.delete_object bucket key s in
      let (rest, s'') = delete_loop keys s' in
      (
        elim r [
          | ok u ↦ if quiet then rest else record rest { deleted = key ∷ rest.deleted }
          | err e ↦ record rest {
            errors = record { key = key; code = (from_store e).code } ∷ rest.errors;
          }
        ],
        s'',
      )

-- From one key up to as many as a listing's page has.
unfoldable pub delete_named : {S : Type 0} → Server S → Call → DeleteRequest → Handler S
delete_named sv c req s = elim req.keys [
  | [] ↦ (write_error sv.go c err_invalid_request c.base, s)
  | k ∷ ks ↦
      let (result, s') = delete_loop sv c.bucket req.quiet (k ∷ ks) s in
      if ltb max_keys_limit (length (k ∷ ks))
      then (write_error sv.go c err_invalid_request c.base, s)
      else (write_xml sv.go 200 (delete_result result) c.base, s')
]

-- `deleteObjects`
unfoldable pub delete_objects : {S : Type 0} → Server S → Call → Handler S
delete_objects sv c = elim (limited_body max_delete_body c.request) [
  | err e ↦ answer (write_error sv.go c err_incomplete_body c.base)
  | ok raw ↦ elim (sv.go.read_delete raw) [
    | none ↦ answer (write_error sv.go c err_invalid_request c.base)
    | some req ↦ delete_named sv c req
  ]
]
