-- ===== src/Store/Error.antt =====
-- The errors of package store (internal/store/store.go, multipart.go). A wrapped error
-- (`fmt.Errorf("%w: …")`) is its sentinel: callers only ask `errors.Is`, and the message is dropped.

-- What the operating system answers, as far as the code tells the cases apart: `ErrNotExist`,
-- "not a directory", `ErrExist`, "directory not empty", and the rest.
pub data OsError : Type 0 where
  not_exist not_dir exist not_empty is_dir : OsError

pub data Error : Type 0 where
  no_such_bucket bucket_already_exists bucket_not_empty invalid_bucket_name : Error
  no_such_key key_too_long invalid_key key_dir_conflict invalid_argument : Error
  no_such_upload invalid_part invalid_part_meta entity_too_small : Error
  -- an error of the file system, passed on as it is
  os : OsError → Error
  -- an error that a request's body reader returned (`errIncompleteBody`, or another)
  incomplete_body bad_body : Error
