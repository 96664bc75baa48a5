-- ===== src/Store/Fs/Gone.antt =====
-- What a removal takes away, and what it leaves.
use locals.Base.{
  ℕ, ◌≡◌, refl, sym, ◌∙◌, true, List, [], ◌∷◌, ◌++◌, Option, none, some, Bytes, Bool-cases, beq,
  beq_refl, ok, err, inl, inr,
}
use locals.Store.Error.{not_exist}
use locals.Store.Fs.{
  Node, Entries, file, dir, end, entry, find, set_entry, stat_node, alter, remove, remove_node,
}
use locals.Store.Fs.Laws.{
  find-set_entry, alter_last, alter_down, stat_dir, stat_other, stat_same, stat_found,
}

removed : (o o' : Option Node) → remove_node o ≡ ok o' → o' ≡ none
unfolding remove_node
removed none o' h = absurd cc
removed (some (file body t)) o' h = cc
removed (some (dir t end)) o' h = cc
removed (some (dir t (entry s n es))) o' h = absurd cc

-- An entry that was taken out.
stat_dropped :
    (t : ℕ) (es : Entries) (k s : Bytes) (p : List Bytes)
    → beq k s ≡ true
    → stat_node (dir t (set_entry k none es)) (s ∷ p) ≡ err not_exist
stat_dropped t es k s p h =
    rw (stat_dir t (set_entry k none es) s p, find-set_entry s k none es, h) refl

-- What is removed is no longer there.
pub stat_node-remove_self :
    (now : ℕ) (root root' : Node) (q : List Bytes)
    → remove now root q ≡ ok root'
    → stat_node root' q ≡ err not_exist
unfolding remove
stat_node-remove_self now root root' [] h = absurd (unfold alter in cc)
stat_node-remove_self now (file body t) root' (k ∷ q) h = absurd (unfold alter in cc)
stat_node-remove_self now (dir t es) root' (k ∷ []) h =
    let (o, changed, e) = alter_last now remove_node t es k h in
    rw (e, removed (find k es) o changed) (stat_dropped now es k k [] (beq_refl k))
stat_node-remove_self now (dir t es) root' (k ∷ k' ∷ q) h =
    let (n, n', found, changed, e) = alter_down now remove_node t es k k' q h in
    rw e (
      stat_same t es k k n' (k' ∷ q) (beq_refl k) ∙ stat_node-remove_self now n n' (k' ∷ q) changed)

-- What is not there is not there after a removal of anything.
pub stat_node-remove_gone :
    (now : ℕ) (root root' : Node) (p q : List Bytes)
    → stat_node root p ≡ err not_exist
    → remove now root q ≡ ok root'
    → stat_node root' p ≡ err not_exist
unfolding remove
stat_node-remove_gone now root root' [] q gone h = absurd (unfold stat_node in cc)
stat_node-remove_gone now (file body t) root' (s ∷ p) q gone h = absurd (unfold stat_node in cc)
stat_node-remove_gone now (dir t es) root' (s ∷ p) [] gone h = absurd (unfold alter in cc)
stat_node-remove_gone now (dir t es) root' (s ∷ p) (k ∷ []) gone h =
    let (o, changed, e) = alter_last now remove_node t es k h in
    rw (e, removed (find k es) o changed)
      (elim (Bool-cases (beq k s)) [
        | inl same ↦ stat_dropped now es k s p same
        | inr other ↦ stat_other t now es k s none p other ∙ gone
      ])
stat_node-remove_gone now (dir t es) root' (s ∷ p) (k ∷ k' ∷ q) gone h =
    let (n, n', found, changed, e) = alter_down now remove_node t es k k' q h in
    rw e (elim (Bool-cases (beq k s)) [
      | inl same ↦
          stat_same t es k s n' p same
          ∙ stat_node-remove_gone now n n' p (k' ∷ q)
              (sym (stat_found t es k s n p same found) ∙ gone) changed
      | inr other ↦ stat_other t t es k s (some n') p other ∙ gone
    ])

-- A directory above what is removed stays.
pub stat_node-remove_above :
    (now : ℕ) (root root' : Node) (b : List Bytes) (x : Bytes) (q : List Bytes)
    → remove now root (b ++ (x ∷ q)) ≡ ok root'
    → (t : ℕ) × (es : Entries) × (stat_node root' b ≡ ok (dir t es))
unfolding remove stat_node
stat_node-remove_above now (file body t) root' [] x q h = absurd (unfold alter in cc)
stat_node-remove_above now (dir t es) root' [] x [] h =
    let (o, changed, e) = alter_last now remove_node t es x h in (now, set_entry x o es, rw e refl)
stat_node-remove_above now (dir t es) root' [] x (y ∷ q) h =
    let (m, m', found, changed, e) = alter_down now remove_node t es x y q h in
    (t, set_entry x (some m') es, rw e refl)
stat_node-remove_above now (file body t) root' (s ∷ b) x q h = absurd (unfold alter in cc)
stat_node-remove_above now (dir t es) root' (s ∷ []) x q h =
    let (m, m', found, changed, e) = alter_down now remove_node t es s x q h in
    let (u, fs, there) = stat_node-remove_above now m m' [] x q changed in
    (u, fs, rw e (stat_same t es s s m' [] (beq_refl s) ∙ there))
stat_node-remove_above now (dir t es) root' (s ∷ s' ∷ b) x q h =
    let (m, m', found, changed, e) = alter_down now remove_node t es s s' (b ++ (x ∷ q)) h in
    let (u, fs, there) = stat_node-remove_above now m m' (s' ∷ b) x q changed in
    (u, fs, rw e (stat_same t es s s m' (s' ∷ b) (beq_refl s) ∙ there))
