-- ===== src/Store/Fs.antt =====
-- The file system that package store works on: a tree of directories and files, and the calls of
-- package os that the store makes, as Unix answers them. A path is its list of segments.
pub mod Laws
pub mod Frame
pub mod Kept
pub mod Written
pub mod Gone
use locals.Base.{
  ℕ, suc, Bool, true, false, List, [], ◌∷◌, Option, none, some, Bytes, if◌then◌else◌, beq, length,
  Result, ok, err, ◌>>=◌,
}
use locals.Store.Error.{OsError, not_exist, not_dir, exist, not_empty, is_dir}

-- A file with its content, or a directory, each with the time of its last change in nanoseconds.
mutual
  pub data Node : Type 0 where
    file : Bytes → ℕ → Node
    dir : ℕ → Entries → Node

  pub data Entries : Type 0 where
    end : Entries
    entry : Bytes → Node → Entries → Entries

-- `fi.IsDir()`, `fi.Size()`, `fi.ModTime().UnixNano()`. The size of a
-- directory, which the system chooses, is taken as 0: SetObjectChecksum and a copy onto itself read it
-- where the key is a marker.
unfoldable pub is_directory : Node → Bool
is_directory (file body t) = false
is_directory (dir t es) = true

unfoldable pub size_of : Node → ℕ
size_of (file body t) = length body
size_of (dir t es) = 0

unfoldable pub mod_time : Node → ℕ
mod_time (file body t) = t
mod_time (dir t es) = t

unfoldable pub find : Bytes → Entries → Option Node
unfolding beq
find s end = none
find s (entry name n es) = let rest = find s es in if beq name s then some n else rest

unfoldable pub put_entry : Bytes → Node → Entries → Entries
unfolding beq
put_entry s n end = entry s n end
put_entry s n (entry name old es) =
    let rest = put_entry s n es in if beq name s then entry name n es else entry name old rest

unfoldable pub drop_entry : Bytes → Entries → Entries
unfolding beq
drop_entry s end = end
drop_entry s (entry name n es) =
    let rest = drop_entry s es in if beq name s then rest else entry name n rest

unfoldable pub set_entry : Bytes → Option Node → Entries → Entries
unfolding put_entry drop_entry
set_entry s none es = drop_entry s es
set_entry s (some n) es = put_entry s n es

-- `os.Stat`: the node that a path leads to.
unfoldable pub stat_node : Node → List Bytes → Result OsError Node
unfolding find
stat_node n [] = ok n
stat_node (file body t) (s ∷ p) = err not_dir
stat_node (dir t es) (s ∷ p) = elim (find s es) [ none ↦ err not_exist | some n ↦ stat_node n p ]

-- Changes one entry of the directory that holds the path's last segment; that directory's time
-- becomes `now`.
unfoldable pub alter :
    ℕ → (Option Node → Result OsError (Option Node)) → Node → List Bytes → Result OsError Node
unfolding find set_entry
alter now f n [] = err is_dir
alter now f (file body t) (s ∷ p) = err not_dir
alter now f (dir t es) (s ∷ []) = do o ← f (find s es); ok (dir now (set_entry s o es))
alter now f (dir t es) (s ∷ s' ∷ p) = elim (find s es) [
  | none ↦ err not_exist
  | some n ↦ do n' ← alter now f n (s' ∷ p); ok (dir t (set_entry s (some n') es))
]

-- A chain of new directories.
unfoldable pub new_dirs : ℕ → List Bytes → Node
new_dirs now [] = dir now end
new_dirs now (s ∷ p) = dir now (entry s (new_dirs now p) end)

-- `os.MkdirAll`
unfoldable pub mkdir_all : ℕ → Node → List Bytes → Result OsError Node
unfolding find set_entry new_dirs
mkdir_all now (file body t) p = err not_dir
mkdir_all now (dir t es) [] = ok (dir t es)
mkdir_all now (dir t es) (s ∷ p) = elim (find s es) [
  | none ↦ ok (dir now (set_entry s (some (new_dirs now p)) es))
  | some n ↦ do n' ← mkdir_all now n p; ok (dir t (set_entry s (some n') es))
]

-- What `os.Remove` does to an entry: a file or an empty directory goes.
pub remove_node : Option Node → Result OsError (Option Node)
remove_node none = err not_exist
remove_node (some (file body t)) = ok none
remove_node (some (dir t end)) = ok none
remove_node (some (dir t (entry s n es))) = err not_empty

unfoldable pub remove : ℕ → Node → List Bytes → Result OsError Node
unfolding alter remove_node
remove now root p = alter now remove_node root p

-- `os.RemoveAll`: a path that is not there is no error.
pub drop_node : Option Node → Result OsError (Option Node)
drop_node o = ok none

unfoldable pub remove_all : ℕ → Node → List Bytes → Result OsError Node
unfolding stat_node alter drop_node
remove_all now root p = elim (stat_node root p) [
  | ok n ↦ alter now drop_node root p
  | err e ↦ elim e [ not_exist ↦ ok root | other ↦ err other ]
]

-- What `os.WriteFile` and a rename put at an entry: a directory there refuses.
pub place_node : Node → Option Node → Result OsError (Option Node)
place_node new none = ok (some new)
place_node new (some (file body t)) = ok (some new)
place_node new (some (dir t es)) = err is_dir

unfoldable pub write_file : ℕ → Bytes → Node → List Bytes → Result OsError Node
unfolding alter place_node
write_file now body root p = alter now (place_node (file body now)) root p

-- `os.Rename` of a file.
unfoldable pub rename : ℕ → Node → List Bytes → List Bytes → Result OsError Node
unfolding stat_node alter place_node drop_node
rename now root from to = do
  n ← stat_node root from
  placed ← alter now (place_node n) root to
  alter now drop_node placed from

-- `os.ReadFile`
unfoldable pub read_file : Node → List Bytes → Result OsError Bytes
unfolding stat_node
read_file root p = do n ← stat_node root p; elim n [ file body t ↦ ok body | dir t es ↦ err is_dir ]

unfoldable pub names : Entries → List Bytes
names end = []
names (entry s n es) = s ∷ names es

-- `os.ReadDir`
unfoldable pub read_dir : Node → List Bytes → Result OsError Entries
unfolding stat_node
read_dir root p = do n ← stat_node root p; elim n [ file body t ↦ err not_dir | dir t es ↦ ok es ]
