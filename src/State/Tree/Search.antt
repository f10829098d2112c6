-- ===== src/State/Tree/Search.antt =====
-- Where `flon_node_tree` finds the tree of a node, and that its search ends.
use flon.Base.{ℕ, zero, suc, ◌<◌, ◌≡◌, refl, arith, Bool, true, false, Option, none, some}
use flon.Base.Text.{Text}
use flon.Base.Hex.{u32}
use flon.Ids.{nid_parent, nid_child, nid_index}
use flon.Ids.Paths.{nid_of, IsNode, IsCounter, nid_parent-nid_child, nid_index-nid_child}
use flon.Json.{Value}
use flon.State.{Node, Exec, find_node}
use flon.State.Tree.{child_tree, stored_parent, node_tree, tree_fuel, flon_node_tree}

node_tree_stored :
    (f : ℕ) (s : Exec) (nid : Text) (n : Node) (t : Value)
    → find_node s nid ≡ some n
    → n.tree ≡ some t
    → node_tree (suc f) s nid ≡ some t
unfolding node_tree
node_tree_stored f s nid n t e et = ground arith

node_tree_child :
    (f : ℕ) (s : Exec) (nid pnid : Text) (t v : Value)
    → find_node s nid ≡ none
    → nid_parent nid false ≡ some pnid
    → node_tree f s pnid ≡ some t
    → child_tree (some t) (nid_index nid) ≡ some v
    → node_tree (suc f) s nid ≡ some v
unfolding node_tree
node_tree_child f s nid pnid t v e ep et ev = ground arith

-- Before the i-th child of a node has a node of its own, its tree is the i-th child of the node's
-- tree, where the node keeps a tree and that has an i-th child.
pub flon_node_tree-nid_child :
    {node : Text} (s : Exec) (c : Option Text) (i : ℕ) (n : Node) (t v : Value)
    → IsNode node
    → IsCounter c
    → i < u32
    → find_node s (nid_of node c) ≡ some n
    → n.tree ≡ some t
    → find_node s (nid_child (nid_of node c) i) ≡ none
    → child_tree (some t) i ≡ some v
    → flon_node_tree s (nid_child (nid_of node c) i) ≡ some v
unfolding flon_node_tree tree_fuel
flon_node_tree-nid_child {node} s c i n t v h k lt e et en ev =
    let nid = nid_child (nid_of node c) i in
    node_tree_child _ s nid (nid_of node c) t v en (nid_parent-nid_child c i false h k)
      (node_tree_stored _ s (nid_of node c) n t e et) (rw (nid_index-nid_child c i h k lt) ev)

-- Ids among which the search stays, with a rank that falls whenever it goes up: by the parent that
-- a node names, and by the last index of an id, with and without its counter.
pub record Falls (s : Exec) (Known : Text → Type 0) (rank : Text → ℕ) : Type 0 where
  pub by_parent :
      (nid p : Text)
      → Known nid
      → stored_parent (find_node s nid) ≡ some p
      → Known p × (rank p < rank nid)
  pub by_path :
      (nid p : Text) (chop : Bool)
      → Known nid
      → nid_parent nid chop ≡ some p
      → Known p × (rank p < rank nid)

abbrev up : (Text → Option Value) → Option Text → Option Value
up f none = none
up f (some p) = f p

up_same :
    (f g : Text → Option Value) (o : Option Text)
    → ((p : Text) → o ≡ some p → f p ≡ g p)
    → up f o ≡ up g o
up_same f g none h = refl
up_same f g (some p) h = h p refl

-- Among such ids any fuel above the rank gives the same answer: the search ends by itself and not
-- for want of fuel.
pub node_tree_enough :
    {Known : Text → Type 0} {rank : Text → ℕ} (s : Exec) (f g : ℕ) (nid : Text)
    → Falls s Known rank
    → Known nid
    → rank nid < f
    → rank nid < g
    → node_tree f s nid ≡ node_tree g s nid
unfolding node_tree
node_tree_enough s zero g nid w k a b = absurd (omega arith)
node_tree_enough s (suc f) zero nid w k a b = absurd (omega arith)
node_tree_enough {Known} {rank} s (suc f) (suc g) nid w k a b = ground (
  arith,
  up_same (node_tree f s) (node_tree g s) (stored_parent (find_node s nid)) (λ p e.
      let (kp, lt) = w.by_parent nid p k e in
      node_tree_enough s f g p w kp (omega arith) (omega arith)),
  up_same (node_tree f s) (node_tree g s) (nid_parent nid false) (λ p e.
      let (kp, lt) = w.by_path nid p false k e in
      node_tree_enough s f g p w kp (omega arith) (omega arith)),
  up_same (node_tree f s) (node_tree g s) (nid_parent nid true) (λ p e.
      let (kp, lt) = w.by_path nid p true k e in
      node_tree_enough s f g p w kp (omega arith) (omega arith)),
)
