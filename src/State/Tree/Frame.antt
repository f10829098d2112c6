-- ===== src/State/Tree/Frame.antt =====
-- What a change of a node leaves alone: the trees, where the change keeps the tree and the parent.
use flon.Base.{ℕ, zero, suc, ◌≡◌, refl, ap, arith, true, false, Option, none, some, List, [], ◌∷◌}
use flon.Base.Text.{Text}
use flon.Ids.{nid_parent}
use flon.Json.{Value}
use flon.State.{Node, Exec, find_in, update_in, find_node, update_node}
use flon.State.Store.{find_in-update_in, map_option}
use flon.State.Tree.{
  stored_tree, stored_parent, node_tree, tree_fuel, flon_node_tree, parent_lengths, parent_text,
}

-- A change that keeps the tree and the parent of every node.
pub record KeepsTree (f : Node → Node) : Type 0 where
  pub same_tree : (v : Node) → (f v).tree ≡ v.tree
  pub same_parent : (v : Node) → (f v).parent ≡ v.parent

module _ {f : Node → Node} (k : KeepsTree f) where
  stored_tree-map_option : (o : Option Node) → stored_tree (map_option f o) ≡ stored_tree o
  stored_tree-map_option none = refl
  stored_tree-map_option (some v) = k.same_tree v

  stored_parent-map_option : (o : Option Node) → stored_parent (map_option f o) ≡ stored_parent o
  stored_parent-map_option none = refl
  stored_parent-map_option (some v) = ap parent_text (k.same_parent v)

  stored_tree-update_in :
      (nid j : Text) (l : List (Text × Node))
      → stored_tree (find_in j (update_in nid f l)) ≡ stored_tree (find_in j l)
  stored_tree-update_in nid j l =
      ground (arith, find_in-update_in nid j f l, stored_tree-map_option (find_in j l))

  stored_parent-update_in :
      (nid j : Text) (l : List (Text × Node))
      → stored_parent (find_in j (update_in nid f l)) ≡ stored_parent (find_in j l)
  stored_parent-update_in nid j l =
      ground (arith, find_in-update_in nid j f l, stored_parent-map_option (find_in j l))

  parent_lengths-update_in :
      (nid : Text) (l : List (Text × Node)) → parent_lengths (update_in nid f l) ≡ parent_lengths l
  unfolding parent_lengths update_in
  parent_lengths-update_in nid [] = refl
  parent_lengths-update_in nid ((j, v) ∷ l) =
      ground (arith, k.same_parent v, parent_lengths-update_in nid l)

abbrev up : (Text → Option Value) → Option Text → Option Value
up g none = none
up g (some p) = g p

up_same : (f g : Text → Option Value) (o : Option Text) → ((p : Text) → f p ≡ g p) → up f o ≡ up g o
up_same f g none h = refl
up_same f g (some p) h = h p

node_tree-same :
    (fuel : ℕ) (s t : Exec)
    → ((j : Text) → stored_tree (find_node s j) ≡ stored_tree (find_node t j))
    → ((j : Text) → stored_parent (find_node s j) ≡ stored_parent (find_node t j))
    → (nid : Text) → node_tree fuel s nid ≡ node_tree fuel t nid
unfolding node_tree
node_tree-same zero s t et ep nid = refl
node_tree-same (suc fuel) s t et ep nid = ground (
  arith,
  et nid,
  ep nid,
  up_same (node_tree fuel s) (node_tree fuel t) (stored_parent (find_node t nid))
      (node_tree-same fuel s t et ep),
  up_same (node_tree fuel s) (node_tree fuel t) (nid_parent nid false)
      (node_tree-same fuel s t et ep),
  up_same (node_tree fuel s) (node_tree fuel t) (nid_parent nid true)
      (node_tree-same fuel s t et ep),
)

-- A node changed so leaves every tree as it was.
pub flon_node_tree-update_node :
    {f : Node → Node} (s : Exec) (nid j : Text)
    → KeepsTree f
    → flon_node_tree (update_node nid f s) j ≡ flon_node_tree s j
unfolding flon_node_tree tree_fuel find_node
flon_node_tree-update_node {f} s nid j k = rw (parent_lengths-update_in k nid s.nodes) (
    node_tree-same _ (update_node nid f s) s
      (λ i. unfold find_node in stored_tree-update_in k nid i s.nodes)
      (λ i. unfold find_node in stored_parent-update_in k nid i s.nodes) j)

-- The trees depend on the nodes alone.
pub flon_node_tree-nodes :
    (s t : Exec) (j : Text) → s.nodes ≡ t.nodes → flon_node_tree s j ≡ flon_node_tree t j
unfolding flon_node_tree tree_fuel find_node
flon_node_tree-nodes s t j e = simp e (
    node_tree-same _ s t (λ i. unfold find_node in rw e refl) (λ i. unfold find_node in rw e refl)
      j)
