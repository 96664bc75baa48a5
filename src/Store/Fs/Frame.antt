-- ===== src/Store/Fs/Frame.antt =====
-- Calls that change one path, seen from a path apart from it.
use locals.Base.{
  ℕ, ◌≡◌, ◌≢◌, ap, sym, ◌∙◌, subst, List, [], ◌∷◌, some, Bytes, Bool-cases, beq, inl, inr, Result,
  ok, err, ◌>>=◌, >>=-eq-ok,
}
use locals.Store.Error.{OsError, not_exist, not_dir, exist, not_empty, is_dir}
use locals.Store.Fs.{
  Node, file, dir, find, stat_node, alter, remove, remove_all, write_file, rename, remove_node,
  place_node, drop_node, new_dirs, mkdir_all,
}
use locals.Store.Fs.Laws.{
  Apart, stat_node-alter_elsewhere, mkdir_down, mkdir_nil, stat_other, stat_same, stat_found,
}

pub stat_node-remove :
    (now : ℕ) (root root' : Node) (p q : List Bytes)
    → Apart p q
    → remove now root q ≡ ok root'
    → stat_node root' p ≡ stat_node root p
unfolding remove
stat_node-remove now root root' p q a h =
    stat_node-alter_elsewhere now remove_node root root' p q a h

pub stat_node-write_file :
    (now : ℕ) (body : Bytes) (root root' : Node) (p q : List Bytes)
    → Apart p q
    → write_file now body root q ≡ ok root'
    → stat_node root' p ≡ stat_node root p
unfolding write_file
stat_node-write_file now body root root' p q a h =
    stat_node-alter_elsewhere now (place_node (file body now)) root root' p q a h

pub stat_node-rename :
    (now : ℕ) (root root' : Node) (p from to : List Bytes)
    → Apart p from
    → Apart p to
    → rename now root from to ≡ ok root'
    → stat_node root' p ≡ stat_node root p
unfolding rename
stat_node-rename now root root' p from to a b h =
    let drops : Node → Result OsError Node = λ placed. alter now drop_node placed from in
    let (n, found, after) =
      >>=-eq-ok (stat_node root from) (λ n. alter now (place_node n) root to >>= drops) h in
    let (placed, put, dropped) = >>=-eq-ok (alter now (place_node n) root to) drops after in
    stat_node-alter_elsewhere now drop_node placed root' p from a dropped
    ∙ stat_node-alter_elsewhere now (place_node n) root placed p to b put

pub stat_node-remove_all :
    (now : ℕ) (root root' : Node) (p q : List Bytes)
    → Apart p q
    → remove_all now root q ≡ ok root'
    → stat_node root' p ≡ stat_node root p
unfolding remove_all
stat_node-remove_all now root root' p q a h = go (stat_node root q) h
  where
    go :
        (r : Result OsError Node)
        → elim r as (λ _. Result OsError Node) [
          | ok n ↦ alter now drop_node root q
          | err e ↦ elim e [ not_exist ↦ ok root | other ↦ err other ]
        ]
          ≡ ok root'
        → stat_node root' p ≡ stat_node root p
    go (ok n) e = stat_node-alter_elsewhere now drop_node root root' p q a e
    go (err not_exist) e = ap (λ m. stat_node m p) cc
    go (err not_dir) e = absurd cc
    go (err exist) e = absurd cc
    go (err not_empty) e = absurd cc
    go (err is_dir) e = absurd cc

-- In new directories there is no file.
stat_node-new_dirs :
    (now : ℕ) (p q : List Bytes) (body : Bytes) (t : ℕ)
    → stat_node (new_dirs now q) p ≢ ok (file body t)
unfolding stat_node new_dirs find
stat_node-new_dirs now [] [] body t h = cc
stat_node-new_dirs now [] (k ∷ q) body t h = cc
stat_node-new_dirs now (s ∷ p) [] body t h = cc
stat_node-new_dirs now (s ∷ p) (k ∷ q) body t h = elim (Bool-cases (beq k s)) [
  | inl same ↦ stat_node-new_dirs now p q body t (rw (same, stat_node) at h)
  | inr other ↦ absurd (cc (rw (other, stat_node) at h))
]

-- A file that is there when directories were made was there before.
pub stat_node-mkdir_all_back :
    (now : ℕ) (root root' : Node) (p q : List Bytes) (body : Bytes) (t : ℕ)
    → mkdir_all now root q ≡ ok root'
    → stat_node root' p ≡ ok (file body t)
    → stat_node root p ≡ ok (file body t)
stat_node-mkdir_all_back now (file b u) root' p q body t h e = absurd (unfold mkdir_all in cc)
stat_node-mkdir_all_back now (dir u es) root' p [] body t h e =
    subst (λ r. stat_node r p ≡ ok (file body t)) (mkdir_nil now u es root' h) e
stat_node-mkdir_all_back now (dir u es) root' [] (k ∷ q) body t h e =
    elim (mkdir_down now u es k q root' h) [
      | inl (_, shape) ↦ absurd (unfold stat_node in cc)
      | inr (n, n', _, _, shape) ↦ absurd (unfold stat_node in cc)
    ]
stat_node-mkdir_all_back now (dir u es) root' (s ∷ p) (k ∷ q) body t h e =
    elim (Bool-cases (beq k s)) [
      | inl same ↦ elim (mkdir_down now u es k q root' h) [
        | inl (_, shape) ↦ absurd (
            stat_node-new_dirs now p q body t (
              sym (stat_same now es k s (new_dirs now q) p same)
              ∙ subst (λ r. stat_node r (s ∷ p) ≡ ok (file body t)) shape e))
        | inr (n, n', found, changed, shape) ↦
            stat_found u es k s n p same found
            ∙ stat_node-mkdir_all_back now n n' p q body t changed (
                sym (stat_same u es k s n' p same)
                ∙ subst (λ r. stat_node r (s ∷ p) ≡ ok (file body t)) shape e)
      ]
      | inr other ↦ elim (mkdir_down now u es k q root' h) [
        | inl (_, shape) ↦
            sym (stat_other u now es k s (some (new_dirs now q)) p other)
            ∙ subst (λ r. stat_node r (s ∷ p) ≡ ok (file body t)) shape e
        | inr (n, n', found, changed, shape) ↦
            sym (stat_other u u es k s (some n') p other)
            ∙ subst (λ r. stat_node r (s ∷ p) ≡ ok (file body t)) shape e
      ]
    ]
