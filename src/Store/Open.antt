-- ===== src/Store/Open.antt =====
-- The opening of a store (internal/store/fs.go): `NewFS` and `Root`.
pub mod Ready
use locals.Base.{ℕ, Bool, Bytes, codes, ◌++◌, if◌then◌else◌, Result, ok, err}
use locals.Store.Error.{OsError, os}
use locals.Store.Key.{meta_dir_name}
use locals.Store.Path.{is_rooted, clean, join_path, segments}
use locals.Store.Fs.{mkdir_all}
use locals.Store.Monad.{M, ◌>>=◌, ◌>>◌, return, lift, sys}

-- `FSStore`, less its lock.
pub record FsStore : Type 0 where
  pub root : Bytes
  pub auto_create_buckets : Bool

-- `os.Getwd`
abbrev pub WorkingDir : Type 0
WorkingDir = Result OsError Bytes

-- `filepath.Abs` on Unix, with what `os.Getwd` answers.
unfoldable pub absolute : WorkingDir → Bytes → Result OsError Bytes
absolute wd path =
    if is_rooted path
    then ok (clean path)
    else elim wd as (λ _. Result OsError Bytes) [ ok dir ↦ ok (join_path dir path) | err e ↦ err e ]

abbrev pub tmp_dir : Bytes → Bytes
tmp_dir root = join_path root (meta_dir_name ++ codes "/tmp")

-- `if err != nil { return nil, err }`
abbrev pub or_fail {ℓ} : {A : Type ℓ} → Result OsError A → M A
or_fail r = lift (elim r [ ok a ↦ ok a | err e ↦ err (os e) ])

-- What `NewFS` does with the directory's absolute path.
unfoldable pub open_at : ℕ → Bool → Bytes → M FsStore
open_at now auto_create abs = do
  sys (λ n. mkdir_all now n (segments (tmp_dir abs)))
  return (record { root = abs; auto_create_buckets = auto_create })

-- `NewFS`
unfoldable pub new_fs : ℕ → WorkingDir → Bytes → Bool → M FsStore
new_fs now wd dir auto_create = do abs ← or_fail (absolute wd dir); open_at now auto_create abs
