-- ===== src/Store/Fs/Kept.antt =====
-- Files beside a path that is written, those above and below it among them.
use locals.Base.{
  ℕ, ◌≡◌, ◌≢◌, sym, ap, ap₂, ◌∙◌, subst, false, List, [], ◌∷◌, Option, Option-cases, some, Bytes,
  Bool-cases, beq, beq_sound, beq_refl, inl, inr, Result, ok, ◌>>=◌, >>=-eq-ok,
}
use locals.Store.Error.{OsError}
use locals.Store.Fs.{Node, file, dir, find, stat_node, alter, place_node, drop_node, rename}
use locals.Store.Fs.Laws.{
  Apart, alter_last, alter_down, stat_dir, stat_other, stat_same, stat_found,
  stat_node-alter_elsewhere,
}

-- Paths that part are not the same.
pub Apart-differs : (p q : List Bytes) → Apart p q → p ≢ q
unfolding beq
Apart-differs [] q a e = a
Apart-differs (s ∷ p) [] a e = absurd cc
Apart-differs (s ∷ p) (k ∷ q) (inl other) e =
    let same : k ≡ s = cc in absurd (cc (subst (λ x. beq x s ≡ false) same other, beq_refl s))
Apart-differs (s ∷ p) (k ∷ q) (inr (_, below)) e = Apart-differs p q below cc

-- What is placed at an entry replaces no directory, so that a file below it is not there.
below_entry :
    (new n : Node) (o : Option Node) (x : Bytes) (p : List Bytes) (body : Bytes) (t : ℕ)
    → place_node new (some n) ≡ ok o
    → stat_node n (x ∷ p) ≢ ok (file body t)
unfolding place_node stat_node
below_entry new (file b u) o x p body t placed h = absurd cc
below_entry new (dir u es) o x p body t placed h = absurd cc

-- What is placed at one path leaves the files at all others.
pub stat_node-alter_place :
    (now : ℕ) (new root root' : Node) (p q : List Bytes) (body : Bytes) (t : ℕ)
    → p ≢ q
    → alter now (place_node new) root q ≡ ok root'
    → stat_node root p ≡ ok (file body t)
    → stat_node root' p ≡ ok (file body t)
stat_node-alter_place now new root root' p [] body t d h e = absurd (unfold alter in cc)
stat_node-alter_place now new (file b u) root' p (k ∷ q) body t d h e = absurd (unfold alter in cc)
stat_node-alter_place now new (dir u es) root' [] (k ∷ q) body t d h e =
    absurd (unfold stat_node in cc)
stat_node-alter_place now new (dir u es) root' (s ∷ []) (k ∷ []) body t d h e =
    let (o, placed, shape) = alter_last now (place_node new) u es k h in
    elim (Bool-cases (beq k s)) [
      | inl same ↦ absurd (d (ap (λ x. x ∷ []) (sym (beq_sound k s same))))
      | inr other ↦ rw shape (stat_other u now es k s o [] other ∙ e)
    ]
stat_node-alter_place now new (dir u es) root' (s ∷ x ∷ p) (k ∷ []) body t d h e =
    let (o, placed, shape) = alter_last now (place_node new) u es k h in
    elim (Bool-cases (beq k s)) [
      | inr other ↦ rw shape (stat_other u now es k s o (x ∷ p) other ∙ e)
      | inl same ↦ elim (Option-cases (find k es)) [
        | inl absent ↦ absurd (cc (rw (stat_dir u es s (x ∷ p), ← beq_sound k s same, absent) at e))
        | inr (n, found) ↦ absurd (
            below_entry new n o x p body t (ap (place_node new) (sym found) ∙ placed)
              (sym (stat_found u es k s n (x ∷ p) same found) ∙ e))
      ]
    ]
stat_node-alter_place now new (dir u es) root' (s ∷ p) (k ∷ k' ∷ q) body t d h e =
    let (n, n', found, changed, shape) = alter_down now (place_node new) u es k k' q h in
    elim (Bool-cases (beq k s)) [
      | inr other ↦ rw shape (stat_other u u es k s (some n') p other ∙ e)
      | inl same ↦ rw shape (
          stat_same u es k s n' p same
          ∙ stat_node-alter_place now new n n' p (k' ∷ q) body t
              (λ l. d (ap₂ (λ x y. x ∷ y) (sym (beq_sound k s same)) l)) changed
              (sym (stat_found u es k s n p same found) ∙ e))
    ]

pub stat_node-rename_file :
    (now : ℕ) (root root' : Node) (p from to : List Bytes) (body : Bytes) (t : ℕ)
    → Apart p from
    → p ≢ to
    → rename now root from to ≡ ok root'
    → stat_node root p ≡ ok (file body t)
    → stat_node root' p ≡ ok (file body t)
unfolding rename
stat_node-rename_file now root root' p from to body t a b h e =
    let drops : Node → Result OsError Node = λ placed. alter now drop_node placed from in
    let (n, found, after) =
      >>=-eq-ok (stat_node root from) (λ n. alter now (place_node n) root to >>= drops) h in
    let (placed, put, dropped) = >>=-eq-ok (alter now (place_node n) root to) drops after in
    stat_node-alter_elsewhere now drop_node placed root' p from a dropped
    ∙ stat_node-alter_place now n root placed p to body t b put e
