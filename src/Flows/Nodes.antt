-- ===== src/Flows/Nodes.antt =====
-- The nodes of an execution with one more behind them: what is read and written there.
use flon.Base.{◌≡◌, refl, arith, false, none, some, List, [], ◌∷◌, ◌++◌}
use flon.Base.Text.{Text, text_eq, text_eq_refl}
use flon.State.{Node, find_in, set_in, update_in, remove_in}

abbrev pub with_node : List (Text × Node) → Text → Node → List (Text × Node)
with_node l k v = l ++ (k, v) ∷ []

pub find_in-with_node :
    (k : Text) (v : Node) (l : List (Text × Node))
    → find_in k l ≡ none
    → find_in k (with_node l k v) ≡ some v
unfolding find_in
find_in-with_node k v [] e = ground (arith, text_eq_refl k)
find_in-with_node k v ((i, w) ∷ l) e = ground (arith, find_in-with_node k v l)

pub find_in-with_other :
    (k j : Text) (v : Node) (l : List (Text × Node))
    → text_eq k j ≡ false
    → find_in j (with_node l k v) ≡ find_in j l
unfolding find_in
find_in-with_other k j v [] e = ground arith
find_in-with_other k j v ((i, w) ∷ l) e = ground (arith, find_in-with_other k j v l)

pub set_in-with_node :
    (k : Text) (v : Node) (l : List (Text × Node))
    → find_in k l ≡ none
    → set_in k v l ≡ with_node l k v
unfolding find_in set_in
set_in-with_node k v [] e = refl
set_in-with_node k v ((i, w) ∷ l) e = ground (arith, set_in-with_node k v l)

pub update_in-with_node :
    (k : Text) (f : Node → Node) (v : Node) (l : List (Text × Node))
    → find_in k l ≡ none
    → update_in k f (with_node l k v) ≡ with_node l k (f v)
unfolding find_in update_in
update_in-with_node k f v [] e = ground (arith, text_eq_refl k)
update_in-with_node k f v ((i, w) ∷ l) e = ground (arith, update_in-with_node k f v l)

pub remove_in-with_node :
    (k : Text) (v : Node) (l : List (Text × Node))
    → find_in k l ≡ none
    → remove_in k (with_node l k v) ≡ l
unfolding find_in remove_in
remove_in-with_node k v [] e = ground (arith, text_eq_refl k)
remove_in-with_node k v ((i, w) ∷ l) e = ground (arith, remove_in-with_node k v l)
