-- ===== src/State/Store.antt =====
-- The nodes of an execution as a map from ids: what is read after a write.
use flon.Base.{◌≡◌, refl, arith, Option, none, some, List, [], ◌∷◌, if◌then◌else◌}
use flon.Base.Text.{Text, text_eq, text_eq_iff, text_eq_refl}
use flon.State.{Node, Exec, find_node, update_node, set_node, find_in, set_in, update_in, remove_in}

abbrev pub map_option : (Node → Node) → Option Node → Option Node
map_option f none = none
map_option f (some v) = some (f v)

pub find_in-set_in :
    (k j : Text) (v : Node) (l : List (Text × Node))
    → find_in j (set_in k v l) ≡ (if text_eq k j then some v else find_in j l)
unfolding find_in set_in
find_in-set_in k j v [] = refl
find_in-set_in k j v ((i, w) ∷ l) =
    ground (arith, text_eq_iff k j, text_eq_iff i k, text_eq_iff i j, find_in-set_in k j v l)

pub find_in-update_in :
    (k j : Text) (f : Node → Node) (l : List (Text × Node))
    → find_in j (update_in k f l)
      ≡ (if text_eq k j then map_option f (find_in j l) else find_in j l)
unfolding find_in update_in
find_in-update_in k j f [] = ground arith
find_in-update_in k j f ((i, w) ∷ l) =
    ground (arith, text_eq_iff k j, text_eq_iff i k, text_eq_iff i j, find_in-update_in k j f l)

-- No id has two entries.
abbrev pub IsDistinct : List (Text × Node) → Type 0
IsDistinct [] = Unit
IsDistinct ((k, v) ∷ l) = (find_in k l ≡ none) × IsDistinct l

pub find_in-remove_in :
    (k j : Text) (l : List (Text × Node))
    → IsDistinct l
    → find_in j (remove_in k l) ≡ (if text_eq k j then none else find_in j l)
unfolding find_in remove_in
find_in-remove_in k j [] d = ground arith
find_in-remove_in k j ((i, w) ∷ l) d =
    ground (arith, text_eq_iff k j, text_eq_iff i k, text_eq_iff i j, find_in-remove_in k j l)

pub set_in-IsDistinct :
    (k : Text) (v : Node) (l : List (Text × Node)) → IsDistinct l → IsDistinct (set_in k v l)
unfolding set_in
set_in-IsDistinct k v [] d = (unfold find_in in refl, tt)
set_in-IsDistinct k v ((i, w) ∷ l) d =
    ground
      (arith, text_eq_iff i k, text_eq_iff k i, find_in-set_in k i v l, set_in-IsDistinct k v l)

pub update_in-IsDistinct :
    (k : Text) (f : Node → Node) (l : List (Text × Node))
    → IsDistinct l
    → IsDistinct (update_in k f l)
unfolding update_in
update_in-IsDistinct k f [] d = tt
update_in-IsDistinct k f ((i, w) ∷ l) d =
    ground (
      arith,
      text_eq_iff i k,
      text_eq_iff k i,
      find_in-update_in k i f l,
      update_in-IsDistinct k f l,
    )

pub remove_in-IsDistinct :
    (k : Text) (l : List (Text × Node)) → IsDistinct l → IsDistinct (remove_in k l)
unfolding remove_in
remove_in-IsDistinct k [] d = tt
remove_in-IsDistinct k ((i, w) ∷ l) d =
    ground
      (arith, text_eq_iff i k, text_eq_iff k i, find_in-remove_in k i l, remove_in-IsDistinct k l)

-- An update of a node that is there is read back.
pub find_node-update_node :
    (s : Exec) (nid : Text) (f : Node → Node) {v : Node}
    → find_node s nid ≡ some v
    → find_node (update_node nid f s) nid ≡ some (f v)
unfolding find_node
find_node-update_node s nid f e =
    ground (arith, find_in-update_in nid nid f s.nodes, text_eq_refl nid, e)

pub find_node-set_node :
    (s : Exec) (nid : Text) (v : Node) → find_node (set_node nid v s) nid ≡ some v
unfolding find_node
find_node-set_node s nid v = ground (arith, find_in-set_in nid nid v s.nodes, text_eq_refl nid)

pub find_node-update_at :
    (s : Exec) (nid k : Text) (f : Node → Node) {v : Node}
    → k ≡ nid
    → find_node s nid ≡ some v
    → find_node (update_node k f s) nid ≡ some (f v)
find_node-update_at s nid k f {v} q e = rw q (find_node-update_node s nid f e)
