-- ===== src/State/Tree.antt =====
-- src/fl_exe_nodes.c: the tree of a node, found through its ancestors, and its parent's id.
pub mod Search
pub mod Frame
use flon.Base.{ℕ, zero, suc, ◌+◌, true, false, Option, none, some, List, [], ◌∷◌}
use flon.Base.Text.{Text, codes}
use flon.Base.Lists.{length}
use flon.Ids.{text_or, nid_parent, nid_index}
use flon.Json.{Value, arr, at}
use flon.State.{Node, Parent, absent, null_parent, parent_nid, Exec, find_node}

-- fdja_at(v, i), where an array is at hand
unfoldable pub item : Option Value → ℕ → Option Value
item (some (arr vs)) i = at vs i
item _ i = none

-- `fdja_at(fdja_at(t, 3), index)`
abbrev pub child_tree : Option Value → ℕ → Option Value
child_tree t index = item (item t 3) index

-- `fdja_ls(execution, "nodes.%s.parent", nid, NULL)`: a null reads as the text "null".
abbrev pub parent_text : Parent → Option Text
parent_text absent = none
parent_text null_parent = some (codes "null")
parent_text (parent_nid p) = some p

abbrev pub stored_tree : Option Node → Option Value
stored_tree none = none
stored_tree (some n) = n.tree

abbrev pub stored_parent : Option Node → Option Text
stored_parent none = none
stored_parent (some n) = parent_text n.parent

abbrev pub or_else : Option Value → Option Value → Option Value
or_else none w = w
or_else (some v) w = some v

-- node_tree(nid): its own tree, else the child of its parent node's tree, else the child of the
-- tree of the id without its last index, else of that id without the counter too.
unfoldable pub node_tree : ℕ → Exec → Text → Option Value
node_tree zero s nid = none
node_tree (suc fuel) s nid =
    let index = nid_index nid in
    let of_parent : Option Value = elim (stored_parent (find_node s nid)) [
      | none ↦ none
      | some p ↦ node_tree fuel s p
    ] in
    let of_path : Option Value = elim (nid_parent nid false) [
      | none ↦ none
      | some p ↦ node_tree fuel s p
    ] in
    let of_chopped : Option Value = elim (nid_parent nid true) [
      | none ↦ none
      | some p ↦ node_tree fuel s p
    ] in
    elim (stored_tree (find_node s nid)) [
      | some t ↦ some t
      | none ↦ elim of_parent [
        | some t ↦ child_tree (some t) index
        | none ↦ or_else (child_tree of_path index) (child_tree of_chopped index)
      ]
    ]

-- How far up the search can go: to the parent that a node names, once for each node, and from
-- there one `_` or one counter of the id at a time.
unfoldable pub parent_lengths : List (Text × Node) → ℕ
parent_lengths [] = 0
parent_lengths ((k, v) ∷ l) = suc (length (text_or (parent_text v.parent) [])) + parent_lengths l

unfoldable pub tree_fuel : Exec → Text → ℕ
unfolding parent_lengths
tree_fuel s nid = suc (suc (length nid + parent_lengths s.nodes))

-- flon_node_tree(nid)
unfoldable pub flon_node_tree : Exec → Text → Option Value
flon_node_tree s nid = node_tree (tree_fuel s nid) s nid

-- flon_parent_nid(nid)
unfoldable pub flon_parent_nid : Exec → Text → Option Text
flon_parent_nid s nid = elim (find_node s nid) [
  | none ↦ none
  | some node ↦ elim node.parent [
    | absent ↦ nid_parent nid true
    | null_parent ↦ none
    | parent_nid p ↦ some p
  ]
]
