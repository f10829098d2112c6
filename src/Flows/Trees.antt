-- ===== src/Flows/Trees.antt =====
-- src/fl_exe_nodes.c: where the tree of a node of a flow comes from, and flon_node_tree there.
use flon.Base.{ℕ, zero, suc, ◌<◌, ◌≤◌, ◌≡◌, arith, false, true, none, some}
use flon.Base.Text.{Text}
use flon.Base.Lists.{length}
use flon.Ids.{nid_parent, nid_index}
use flon.Json.{Value}
use flon.State.{Exec, find_node}
use flon.State.Tree.{child_tree, stored_tree, stored_parent, node_tree, tree_fuel, flon_node_tree}

-- A node keeps its tree, or its parent, whose id is shorter, has the tree whose child it is.
pub data HasTree (s : Exec) : Text → Value → Type 0 where
  kept : {nid : Text} {t : Value} → stored_tree (find_node s nid) ≡ some t → HasTree s nid t
  of_parent :
      {nid p : Text} {t u : Value}
      → stored_tree (find_node s nid) ≡ none
      → stored_parent (find_node s nid) ≡ some p
      → length p < length nid
      → HasTree s p u
      → child_tree (some u) (nid_index nid) ≡ some t
      → HasTree s nid t

pub node_tree-HasTree :
    {s : Exec} {nid : Text} {t : Value} (f : ℕ)
    → HasTree s nid t
    → length nid < f
    → node_tree f s nid ≡ some t
unfolding node_tree
node_tree-HasTree zero h lt = absurd (omega arith)
node_tree-HasTree (suc f) (kept e) lt = ground arith
node_tree-HasTree (suc f) (of_parent {p = p} e ep sh h ec) lt =
    ground (arith, node_tree-HasTree f h (omega arith))

child-HasTree :
    {s : Exec} (nid : Text) {p : Text} {t : Value} (f : ℕ)
    → HasTree s p t
    → find_node s nid ≡ none
    → nid_parent nid false ≡ some p
    → nid_parent nid true ≡ some p
    → length p < f
    → node_tree (suc f) s nid ≡ child_tree (some t) (nid_index nid)
unfolding node_tree
child-HasTree nid f h e ef et lt = ground (arith, node_tree-HasTree f h lt)

-- The tree of a child that has no node yet, or none if there is no such child.
pub flon_node_tree-HasTree :
    {s : Exec} (nid : Text) {p : Text} {t : Value}
    → HasTree s p t
    → find_node s nid ≡ none
    → nid_parent nid false ≡ some p
    → nid_parent nid true ≡ some p
    → length p < length nid
    → flon_node_tree s nid ≡ child_tree (some t) (nid_index nid)
unfolding flon_node_tree tree_fuel
flon_node_tree-HasTree {s} nid h e ef et lt = child-HasTree nid _ h e ef et (omega arith)

-- What states have in common that agree on the trees and the parents of the shorter ids.
pub HasTree-agrees :
    {s s' : Exec} {nid : Text} {t : Value}
    → HasTree s nid t
    → ((j : Text)
        → length j ≤ length nid
        → stored_tree (find_node s' j) ≡ stored_tree (find_node s j))
    → ((j : Text)
        → length j ≤ length nid
        → stored_parent (find_node s' j) ≡ stored_parent (find_node s j))
    → HasTree s' nid t
HasTree-agrees (kept {nid} e) at ap = kept (ground (arith, at nid (omega arith)))
HasTree-agrees (of_parent {nid} {p} e ep sh h ec) at ap =
    of_parent (ground (arith, at nid (omega arith))) (ground (arith, ap nid (omega arith))) sh
      (HasTree-agrees h (λ j le. at j (omega arith)) (λ j le. ap j (omega arith))) ec
