-- ===== src/Api/Error.antt =====
-- S3 error codes (internal/s3api/errors.go): `APIError` and `fromStore`. Messages are dropped.
use locals.Base.{ℕ, ◌≤◌, ◌<◌, ◌≡◌, ◌⊎◌, inl, inr, refl, arith, Bytes, codes}
use locals.Store.Error.{
  Error, no_such_bucket, bucket_already_exists, bucket_not_empty, invalid_bucket_name, no_such_key,
  key_too_long, invalid_key, key_dir_conflict, invalid_argument, no_such_upload, invalid_part,
  invalid_part_meta, entity_too_small, os, incomplete_body, bad_body,
}

pub record ApiError : Type 0 where
  pub code : Bytes
  pub http_status : ℕ

abbrev pub err_internal : ApiError
err_internal = record { code = codes "InternalError"; http_status = 500 }

abbrev pub err_incomplete_body : ApiError
err_incomplete_body = record { code = codes "IncompleteBody"; http_status = 400 }

abbrev pub err_invalid_argument : ApiError
err_invalid_argument = record { code = codes "InvalidArgument"; http_status = 400 }

abbrev pub err_invalid_request : ApiError
err_invalid_request = record { code = codes "InvalidRequest"; http_status = 400 }

abbrev pub err_unsatisfiable_range : ApiError
err_unsatisfiable_range = record { code = codes "InvalidRange"; http_status = 416 }

abbrev pub err_access_denied : ApiError
err_access_denied = record { code = codes "AccessDenied"; http_status = 403 }

abbrev pub err_bad_digest : ApiError
err_bad_digest = record { code = codes "BadDigest"; http_status = 400 }

abbrev pub err_method_not_allowed : ApiError
err_method_not_allowed = record { code = codes "MethodNotAllowed"; http_status = 405 }

abbrev pub err_precondition_failed : ApiError
err_precondition_failed = record { code = codes "PreconditionFailed"; http_status = 412 }

abbrev pub err_not_implemented : ApiError
err_not_implemented = record { code = codes "NotImplemented"; http_status = 501 }

abbrev pub err_slow_down : ApiError
err_slow_down = record { code = codes "SlowDown"; http_status = 503 }

unfoldable pub from_store : Error → ApiError
from_store no_such_bucket = record { code = codes "NoSuchBucket"; http_status = 404 }
from_store bucket_already_exists = record {
  code = codes "BucketAlreadyOwnedByYou";
  http_status = 409;
}
from_store bucket_not_empty = record { code = codes "BucketNotEmpty"; http_status = 409 }
from_store invalid_bucket_name = record { code = codes "InvalidBucketName"; http_status = 400 }
from_store no_such_key = record { code = codes "NoSuchKey"; http_status = 404 }
from_store key_too_long = record { code = codes "KeyTooLongError"; http_status = 400 }
from_store invalid_key = err_invalid_argument
from_store key_dir_conflict = record err_invalid_request { http_status = 409 }
from_store invalid_argument = err_invalid_argument
from_store no_such_upload = record { code = codes "NoSuchUpload"; http_status = 404 }
from_store invalid_part = record { code = codes "InvalidPart"; http_status = 400 }
from_store invalid_part_meta = record { code = codes "InvalidPartOrder"; http_status = 400 }
from_store entity_too_small = record { code = codes "EntityTooSmall"; http_status = 400 }
from_store (os e) = err_internal
from_store incomplete_body = err_incomplete_body
from_store bad_body = err_internal

-- The errors that are answered by 500: those of the file system, and a body that is no well-formed
-- aws-chunked stream.
abbrev pub IsUnexpected : Error → Type 0
IsUnexpected (os e) = Unit
IsUnexpected bad_body = Unit
IsUnexpected _ = ⊥

-- Every error of the store is answered by a status from 400 to 499, but for the unexpected ones,
-- and exactly for those by 500.
pub from_store_status :
    (e : Error)
    → ((400 ≤ (from_store e).http_status) × ((from_store e).http_status < 500) × ¬ IsUnexpected e)
      ⊎ (((from_store e).http_status ≡ 500) × IsUnexpected e)
unfolding from_store
from_store_status (os e) = inr (refl, tt)
from_store_status bad_body = inr (refl, tt)
from_store_status no_such_bucket = inl (omega arith, omega arith, λ h. h)
from_store_status bucket_already_exists = inl (omega arith, omega arith, λ h. h)
from_store_status bucket_not_empty = inl (omega arith, omega arith, λ h. h)
from_store_status invalid_bucket_name = inl (omega arith, omega arith, λ h. h)
from_store_status _ = inl (omega arith, omega arith, λ h. h)
