-- ===== src/Store/Fs/Written.antt =====
-- What a write or a move leaves at its own path.
use locals.Base.{ℕ, ◌≡◌, sym, ◌∙◌, List, Option, none, some, Bytes, Result, ok, ◌>>=◌, >>=-eq-ok}
use locals.Store.Error.{OsError}
use locals.Store.Fs.{Node, file, dir, stat_node, alter, write_file, rename, place_node, drop_node}
use locals.Store.Fs.Laws.{Apart, stat_node-alter_elsewhere, stat_node-alter_self}

placed_node : (new : Node) (o o' : Option Node) → place_node new o ≡ ok o' → o' ≡ some new
unfolding place_node
placed_node new none o' h = cc
placed_node new (some (file body t)) o' h = cc
placed_node new (some (dir t es)) o' h = absurd cc

pub stat_node-write_file_self :
    (now : ℕ) (body : Bytes) (root root' : Node) (q : List Bytes)
    → write_file now body root q ≡ ok root'
    → stat_node root' q ≡ ok (file body now)
unfolding write_file
stat_node-write_file_self now body root root' q h =
    stat_node-alter_self now (place_node (file body now)) root root' q (file body now)
      (placed_node (file body now)) h

pub stat_node-rename_self :
    (now : ℕ) (root root' : Node) (from to : List Bytes) (n : Node)
    → Apart to from
    → stat_node root from ≡ ok n
    → rename now root from to ≡ ok root'
    → stat_node root' to ≡ ok n
unfolding rename
stat_node-rename_self now root root' from to n a found h =
    let drops : Node → Result OsError Node = λ placed. alter now drop_node placed from in
    let (m, found', after) =
      >>=-eq-ok (stat_node root from) (λ m. alter now (place_node m) root to >>= drops) h in
    let (placed, put, dropped) = >>=-eq-ok (alter now (place_node m) root to) drops after in
    stat_node-alter_elsewhere now drop_node placed root' to from a dropped
    ∙ stat_node-alter_self now (place_node m) root placed to m (placed_node m) put
    ∙ sym found'
    ∙ found

-- Written to one path and moved to another.
pub moved :
    (now : ℕ) (body : Bytes) (n k n' : Node) (from to : List Bytes)
    → Apart to from
    → write_file now body n from ≡ ok k
    → rename now k from to ≡ ok n'
    → stat_node n' to ≡ ok (file body now)
moved now body n k n' from to a w r =
    stat_node-rename_self now k n' from to (file body now) a
      (stat_node-write_file_self now body n k from w) r
