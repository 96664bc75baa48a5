-- ===== src/Store/Fs/Laws.antt =====
-- What a change of the tree leaves alone, and what it makes visible.
use locals.Base.{
  ℕ, ◌≡◌, ◌⊎◌, refl, sym, ◌∙◌, subst, true, false, List, [], ◌∷◌, Option, none, some, Option-cases,
  >>=-eq-ok, arith, Bytes, if◌then◌else◌, Bool-cases, beq, beq_iff, beq_sound, beq_refl, Result, ok,
  err, inl, inr,
}
use locals.Store.Error.{OsError, not_exist}
use locals.Store.Fs.{
  Node, Entries, file, dir, end, entry, find, put_entry, drop_entry, set_entry, stat_node, alter,
  new_dirs, mkdir_all,
}

pub find-put_entry :
    (s k : Bytes) (n : Node) (es : Entries)
    → find s (put_entry k n es) ≡ (if beq k s then some n else find s es)
unfolding find put_entry
find-put_entry s k n end = refl
find-put_entry s k n (entry name old es) =
    ground (arith, beq_iff name k, beq_iff name s, beq_iff k s, find-put_entry s k n es)

pub find-drop_entry :
    (s k : Bytes) (es : Entries) → find s (drop_entry k es) ≡ (if beq k s then none else find s es)
unfolding find drop_entry
find-drop_entry s k end = ground arith
find-drop_entry s k (entry name old es) =
    ground (arith, beq_iff name k, beq_iff name s, beq_iff k s, find-drop_entry s k es)

pub find-set_entry :
    (s k : Bytes) (o : Option Node) (es : Entries)
    → find s (set_entry k o es) ≡ (if beq k s then o else find s es)
find-set_entry s k none es = unfold set_entry in find-drop_entry s k es
find-set_entry s k (some n) es = unfold set_entry in find-put_entry s k n es

-- Neither path leads through the other: they part at some segment.
abbrev pub Apart : List Bytes → List Bytes → Type 0
Apart [] q = ⊥
Apart (s ∷ p) [] = ⊥
Apart (s ∷ p) (k ∷ q) = (beq k s ≡ false) ⊎ ((beq k s ≡ true) × Apart p q)

abbrev pub Change : Type 0
Change = Option Node → Result OsError (Option Node)

-- One step of `alter`, taken apart.
pub alter_last :
    (now : ℕ) (f : Change) (t : ℕ) (es : Entries) (k : Bytes) {root' : Node}
    → alter now f (dir t es) (k ∷ []) ≡ ok root'
    → (o : Option Node) × (f (find k es) ≡ ok o) × (root' ≡ dir now (set_entry k o es))
unfolding alter
alter_last now f t es k h = ground arith

pub alter_down :
    (now : ℕ) (f : Change) (t : ℕ) (es : Entries) (k k' : Bytes) (q : List Bytes) {root' : Node}
    → alter now f (dir t es) (k ∷ k' ∷ q) ≡ ok root'
    → (n : Node) × (n' : Node) × (find k es ≡ some n)
      × (alter now f n (k' ∷ q) ≡ ok n')
      × (root' ≡ dir t (set_entry k (some n') es))
unfolding alter
alter_down now f t es k k' q h = ground arith

pub stat_dir :
    (t : ℕ) (es : Entries) (s : Bytes) (p : List Bytes)
    → stat_node (dir t es) (s ∷ p)
      ≡ elim (find s es) [ none ↦ err not_exist | some n ↦ stat_node n p ]
unfolding stat_node
stat_dir t es s p = refl

Apart-nil : (p : List Bytes) → ¬ Apart p []
Apart-nil [] a = a
Apart-nil (s ∷ p) a = a

-- An entry of another name is what it was.
pub stat_other :
    (t t' : ℕ) (es : Entries) (k s : Bytes) (o : Option Node) (p : List Bytes)
    → beq k s ≡ false
    → stat_node (dir t' (set_entry k o es)) (s ∷ p) ≡ stat_node (dir t es) (s ∷ p)
stat_other t t' es k s o p h =
    rw (stat_dir t' (set_entry k o es) s p, stat_dir t es s p, find-set_entry s k o es, h)

-- The entry that was set.
pub stat_same :
    (t : ℕ) (es : Entries) (k s : Bytes) (n : Node) (p : List Bytes)
    → beq k s ≡ true
    → stat_node (dir t (set_entry k (some n) es)) (s ∷ p) ≡ stat_node n p
stat_same t es k s n p h =
    rw (stat_dir t (set_entry k (some n) es) s p, find-set_entry s k (some n) es, h)

pub stat_found :
    (t : ℕ) (es : Entries) (k s : Bytes) (n : Node) (p : List Bytes)
    → beq k s ≡ true
    → find k es ≡ some n
    → stat_node (dir t es) (s ∷ p) ≡ stat_node n p
stat_found t es k s n p h e = rw (stat_dir t es s p, ← beq_sound k s h, e)

-- A change at one path does not show at a path apart from it.
pub stat_node-alter_elsewhere :
    (now : ℕ) (f : Change) (root root' : Node) (p q : List Bytes)
    → Apart p q
    → alter now f root q ≡ ok root'
    → stat_node root' p ≡ stat_node root p
stat_node-alter_elsewhere now f root root' [] q a h = elim a [ ]
stat_node-alter_elsewhere now f root root' (s ∷ p) [] a h = elim a [ ]
stat_node-alter_elsewhere now f (file body t) root' (s ∷ p) (k ∷ q) a h =
    absurd (unfold alter in cc)
stat_node-alter_elsewhere now f (dir t es) root' (s ∷ p) (k ∷ []) a h =
    let (o, _, e) = alter_last now f t es k h in
    elim a [
      | inl other ↦ rw e (stat_other t now es k s o p other)
      | inr (_, below) ↦ absurd (Apart-nil p below)
    ]
stat_node-alter_elsewhere now f (dir t es) root' (s ∷ p) (k ∷ k' ∷ q) a h =
    let (n, n', found, changed, e) = alter_down now f t es k k' q h in
    elim a [
      | inl other ↦ rw e (stat_other t t es k s (some n') p other)
      | inr (same, below) ↦ rw e (
          stat_same t es k s n' p same
          ∙ stat_node-alter_elsewhere now f n n' p (k' ∷ q) below changed
          ∙ sym (stat_found t es k s n p same found))
    ]

-- What a change leaves at its own path: the entry that `f` made of the old one.
pub stat_node-alter_self :
    (now : ℕ) (f : Change) (root root' : Node) (q : List Bytes) (n : Node)
    → ((o : Option Node) (o' : Option Node) → f o ≡ ok o' → o' ≡ some n)
    → alter now f root q ≡ ok root'
    → stat_node root' q ≡ ok n
stat_node-alter_self now f root root' [] n made h = absurd (unfold alter in cc)
stat_node-alter_self now f (file body t) root' (k ∷ q) n made h = absurd (unfold alter in cc)
stat_node-alter_self now f (dir t es) root' (k ∷ []) n made h =
    let (o, changed, e) = alter_last now f t es k h in
    rw (e, made (find k es) o changed)
      (stat_same now es k k n [] (beq_refl k) ∙ unfold stat_node in refl)
stat_node-alter_self now f (dir t es) root' (k ∷ k' ∷ q) n made h =
    let (m, m', found, changed, e) = alter_down now f t es k k' q h in
    rw e (
      stat_same t es k k m' (k' ∷ q) (beq_refl k)
      ∙ stat_node-alter_self now f m m' (k' ∷ q) n made changed)

pub mkdir_down :
    (now t : ℕ) (es : Entries) (k : Bytes) (q : List Bytes) (root' : Node)
    → mkdir_all now (dir t es) (k ∷ q) ≡ ok root'
    → ((find k es ≡ none) × (root' ≡ dir now (set_entry k (some (new_dirs now q)) es)))
      ⊎ ((n : Node) × (n' : Node) × (find k es ≡ some n)
          × (mkdir_all now n q ≡ ok n')
          × (root' ≡ dir t (set_entry k (some n') es)))
unfolding mkdir_all
mkdir_down now t es k q root' h = elim (Option-cases (find k es)) [
  | inl none_there ↦ inl (none_there, ground arith)
  | inr (n, found) ↦
      let (n', changed, e) = >>=-eq-ok (mkdir_all now n q) _ (rw (found, mkdir_all) at h) in
      inr (n, n', found, changed, ground arith)
]

pub mkdir_nil :
    (now t : ℕ) (es : Entries) (root' : Node)
    → mkdir_all now (dir t es) [] ≡ ok root'
    → root' ≡ dir t es
unfolding mkdir_all
mkdir_nil now t es root' h = cc

stat_missing :
    (t : ℕ) (es : Entries) (k s : Bytes) (p : List Bytes)
    → beq k s ≡ true
    → find k es ≡ none
    → stat_node (dir t es) (s ∷ p) ≡ err not_exist
stat_missing t es k s p h e = rw (stat_dir t es s p, ← beq_sound k s h, e)

-- Making directories keeps every file as it was.
pub stat_node-mkdir_all_file :
    (now : ℕ) (root root' : Node) (p q : List Bytes) (body : Bytes) (t : ℕ)
    → mkdir_all now root q ≡ ok root'
    → stat_node root p ≡ ok (file body t)
    → stat_node root' p ≡ ok (file body t)
stat_node-mkdir_all_file now (file b u) root' p q body t h e = absurd (unfold mkdir_all in cc)
stat_node-mkdir_all_file now (dir u es) root' [] q body t h e = absurd (unfold stat_node in cc)
stat_node-mkdir_all_file now (dir u es) root' (s ∷ p) [] body t h e =
    subst (λ r. stat_node r (s ∷ p) ≡ ok (file body t)) (sym (mkdir_nil now u es root' h)) e
stat_node-mkdir_all_file now (dir u es) root' (s ∷ p) (k ∷ q) body t h e =
    elim (Bool-cases (beq k s)) [
      | inl same ↦ elim (mkdir_down now u es k q root' h) [
        | inl (absent, _) ↦ absurd (cc (stat_missing u es k s p same absent))
        | inr (n, n', found, changed, shape) ↦ rw shape (
            stat_same u es k s n' p same
            ∙ stat_node-mkdir_all_file now n n' p q body t changed
                (sym (stat_found u es k s n p same found) ∙ e))
      ]
      | inr other ↦ elim (mkdir_down now u es k q root' h) [
        | inl (_, shape) ↦ rw shape (stat_other u now es k s _ p other ∙ e)
        | inr (n, n', found, changed, shape) ↦
            rw shape (stat_other u u es k s (some n') p other ∙ e)
      ]
    ]
