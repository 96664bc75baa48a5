-- ===== src/Store/Object/Laws.antt =====
-- Reads of keys below an object (internal/store/fs.go).
use locals.Base.{
  ℕ, ◌≡◌, refl, ap, ◌∙◌, List, [], ◌∷◌, ◌++◌, Option-cases, inl, inr, arith, Bytes, ok, err,
}
use locals.Store.Error.{os, not_dir}
use locals.Store.Path.{key_to_path, segments}
use locals.Store.Fs.{Node, file, dir, find, stat_node}
use locals.Store.Info.{Env}
use locals.Store.Monad.{◌>>=◌, return, lift, ask_or, >>=-goes, >>=-stops}
use locals.Store.Bucket.{bucket_exists}
use locals.Store.Object.{not_found, stat_object, stat_path, describe, head_object}

-- A path that leads on from a file is "not a directory", not "not found".
stat_under_file :
    (root : Node) (p : List Bytes) (x : Bytes) (q : List Bytes) (body : Bytes) (t : ℕ)
    → stat_node root p ≡ ok (file body t)
    → stat_node root (p ++ (x ∷ q)) ≡ err not_dir
unfolding stat_node
stat_under_file (file b u) [] x q body t h = refl
stat_under_file (dir u es) [] x q body t h = cc
stat_under_file (file b u) (s ∷ p) x q body t h = cc
stat_under_file (dir u es) (s ∷ p) x q body t h = elim (Option-cases (find s es)) [
  | inl absent ↦ absurd (ground arith)
  | inr (n, found) ↦
      rw (found, stat_node) (stat_under_file n p x q body t (rw (found, stat_node) at h))
]

-- A read of a key that leads on from an object fails with an error of the file system, which the
-- wire layer can only report as an internal error.
pub head_object_under_file :
    (env : Env) (bucket key path : Bytes) (n : Node) (p : List Bytes) (x : Bytes) (q : List Bytes)
    (body : Bytes) (t : ℕ)
    → bucket_exists env bucket n ≡ (ok tt, n)
    → key_to_path env.root bucket key ≡ ok path
    → segments path ≡ p ++ (x ∷ q)
    → stat_node n p ≡ ok (file body t)
    → head_object env bucket key n ≡ (err (os not_dir), n)
unfolding head_object stat_object stat_path not_found
head_object_under_file env bucket key path n p x q body t there found parts blocking =
    let tree : stat_node n (segments path) ≡ err not_dir =
      ap (stat_node n) parts ∙ stat_under_file n p x q body t blocking in
    let at_path : stat_path env bucket key path n ≡ (err (os not_dir), n) =
      >>=-stops (ask_or not_found (λ m. stat_node m (segments path))) (describe env bucket key path)
        n n (os not_dir)
        (ap (λ r. elim r [ ok a ↦ (ok a, n) | err e ↦ (err (not_found e), n) ]) tree) in
    let whole : stat_object env bucket key n ≡ (err (os not_dir), n) =
      >>=-goes (bucket_exists env bucket)
        (λ _. lift (key_to_path env.root bucket key) >>= stat_path env bucket key) n n tt there
      ∙ >>=-goes (lift (key_to_path env.root bucket key)) (stat_path env bucket key) n n path
          (ap (λ r. (r, n)) found)
      ∙ at_path in
    >>=-stops (stat_object env bucket key) (λ r. return r.0) n n (os not_dir) whole
