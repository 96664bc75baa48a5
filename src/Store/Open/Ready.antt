-- ===== src/Store/Open/Ready.antt =====
-- What an opened store stands on (internal/store/fs.go, `NewFS`).
use locals.Base.{
  ℕ, ◌≡◌, refl, sym, ap, ◌∙◌, subst, Bool, true, List, [], ◌∷◌, ◌++◌, some, Bytes, All, Bool-cases,
  inl, inr, beq_refl, Result, ok, err,
}
use locals.Store.Error.{OsError, os}
use locals.Store.Key.{slash}
use locals.Store.Key.Valid.{IsPlain}
use locals.Store.Path.{is_rooted, clean, join_path, segments}
use locals.Store.Path.Clean.{abs, clean-IsPlain}
use locals.Store.Fs.{Node, file, dir, find, stat_node, set_entry, new_dirs, mkdir_all, is_directory}
use locals.Store.Fs.Laws.{mkdir_down, mkdir_nil, stat_same}
use locals.Store.Monad.{return, sys, bind_done, sys_done}
use locals.Store.Bucket.{is_dir_at}
use locals.Store.Open.{FsStore, WorkingDir, absolute, tmp_dir, or_fail, open_at, new_fs}

same_dir :
    (n m : Node) (p q : List Bytes)
    → stat_node n p ≡ stat_node m q
    → is_dir_at m q ≡ true
    → is_dir_at n p ≡ true
unfolding is_dir_at
same_dir n m p q same h = rw (same, is_dir_at) h

is_dir_at-new_dirs : (now : ℕ) (p : List Bytes) → is_dir_at (new_dirs now p) p ≡ true
unfolding is_dir_at stat_node find new_dirs is_directory
is_dir_at-new_dirs now [] = refl
is_dir_at-new_dirs now (s ∷ p) =
    same_dir (new_dirs now (s ∷ p)) (new_dirs now p) (s ∷ p) p
      (rw (stat_node, find, beq_refl s) refl) (is_dir_at-new_dirs now p)

-- The directories that were asked for are there.
pub is_dir_at-mkdir_all :
    (now : ℕ) (n n' : Node) (p : List Bytes) → mkdir_all now n p ≡ ok n' → is_dir_at n' p ≡ true
is_dir_at-mkdir_all now (file b t) n' p h = absurd (unfold mkdir_all in cc)
is_dir_at-mkdir_all now (dir t es) n' [] h =
    rw (mkdir_nil now t es n' h) (unfold is_dir_at stat_node is_directory in refl)
is_dir_at-mkdir_all now (dir t es) n' (s ∷ p) h = elim (mkdir_down now t es s p n' h) [
  | inl (absent, shape) ↦ rw shape (
      same_dir (dir now (set_entry s (some (new_dirs now p)) es)) (new_dirs now p) (s ∷ p) p
        (stat_same now es s s (new_dirs now p) p (beq_refl s)) (is_dir_at-new_dirs now p))
  | inr (m, m', found, changed, shape) ↦ rw shape (
      same_dir (dir t (set_entry s (some m') es)) m' (s ∷ p) p
        (stat_same t es s s m' p (beq_refl s)) (is_dir_at-mkdir_all now m m' p changed))
]

-- The working directory that the system names is rooted.
abbrev pub Rooted : WorkingDir → Type 0
Rooted wd = (d : Bytes) → wd ≡ ok d → is_rooted d ≡ true

join_path-IsPlain :
    (a b : Bytes)
    → is_rooted a ≡ true
    → (rs : List Bytes) × (join_path a b ≡ abs rs) × All IsPlain rs
unfolding join_path is_rooted
join_path-IsPlain [] b h = absurd cc
join_path-IsPlain (c ∷ a) b h = clean-IsPlain ((c ∷ a) ++ (slash ∷ b)) h

absolute-IsPlain :
    (wd : WorkingDir) (path out : Bytes)
    → Rooted wd
    → absolute wd path ≡ ok out
    → (rs : List Bytes) × (out ≡ abs rs) × All IsPlain rs
unfolding absolute
absolute-IsPlain wd path out h e = elim (Bool-cases (is_rooted path)) [
  | inl rooted ↦
      let (rs, same, plain) = clean-IsPlain path rooted in
      let given : clean path ≡ out = cc (rw rooted at e) in (rs, sym given ∙ same, plain)
  | inr relative ↦ go wd h (rw relative at e)
]
  where
    go :
        (w : WorkingDir)
        → Rooted w
        → (elim w as (λ _. Result OsError Bytes) [ ok d ↦ ok (join_path d path) | err x ↦ err x ])
          ≡ ok out
        → (rs : List Bytes) × (out ≡ abs rs) × All IsPlain rs
    go (ok d) h e =
        let (rs, same, plain) = join_path-IsPlain d path (h d refl) in
        let given : join_path d path ≡ out = cc in (rs, sym given ∙ same, plain)
    go (err x) h e = absurd cc

open_at_done :
    (now : ℕ) (auto : Bool) (root : Bytes) (st : FsStore) (n n' : Node)
    → open_at now auto root n ≡ (ok st, n')
    → (st ≡ record { root = root; auto_create_buckets = auto })
      × (is_dir_at n' (segments (tmp_dir root)) ≡ true)
unfolding open_at
open_at_done now auto root st n n' h =
    let make : Node → Result OsError Node = λ m. mkdir_all now m (segments (tmp_dir root)) in
    let opened : FsStore = record { root = root; auto_create_buckets = auto } in
    let (u, k, made, given) = bind_done (sys make) (λ _. return opened) n n' st h in
    let same : k ≡ n' = cc in
    (
      cc,
      subst (λ m. is_dir_at m (segments (tmp_dir root)) ≡ true) same
          (is_dir_at-mkdir_all now n k (segments (tmp_dir root)) (sys_done os make n k u made)),
    )

-- Whatever directory is asked for, relative or not, a store that opens has an absolute root of plain
-- segments, in which the directory of the temporary files is there; where the working directory that
-- the system names is rooted.
pub new_fs-IsReady :
    (now : ℕ) (wd : WorkingDir) (path : Bytes) (auto : Bool) (st : FsStore) (n n' : Node)
    → Rooted wd
    → new_fs now wd path auto n ≡ (ok st, n')
    → (rs : List Bytes) × (st.root ≡ abs rs)
      × All IsPlain rs
      × (st.auto_create_buckets ≡ auto)
      × (is_dir_at n' (segments (tmp_dir st.root)) ≡ true)
unfolding new_fs
new_fs-IsReady now wd path auto st n n' h e =
    let (root, k, named, opened) =
      bind_done (or_fail (absolute wd path)) (open_at now auto) n n' st e in
    let named' : absolute wd path ≡ ok root = or_fail_done (absolute wd path) named in
    let (rs, same, plain) = absolute-IsPlain wd path root h named' in
    let (shape, there) = open_at_done now auto root st k n' opened in
    (
      rs,
      ap (λ (x : FsStore). x.root) shape ∙ same,
      plain,
      ap (λ (x : FsStore). x.auto_create_buckets) shape,
      subst (λ (x : FsStore). is_dir_at n' (segments (tmp_dir x.root)) ≡ true) (sym shape) there,
    )
  where
    or_fail_done :
        (r : Result OsError Bytes) {root : Bytes} {k : Node}
        → or_fail r n ≡ (ok root, k)
        → r ≡ ok root
    or_fail_done (ok a) e = cc
    or_fail_done (err x) e = absurd cc
