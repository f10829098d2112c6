-- ===== src/Flows/Children.antt =====
-- The places of the children of a sequence.
use mathlib.Core.List.{append_assoc}
use flon.Base.{
  ℕ, zero, suc, ◌+◌, ◌<◌, ◌≡◌, ◌≢◌, refl, ◌∙◌, ap, sym, subst, arith, Bool, true, false, Option,
  none, some, List, ◌∷◌, ◌++◌,
}
use flon.Base.Text.{Text, codes, text_eq, text_eq_iff}
use flon.Base.Lists.{length, length-append}
use flon.Base.Hex.{u32, hex}
use flon.Ids.{nid_parent, nid_child, underscore}
use flon.Ids.Paths.{
  IsNode, IsNode-child_node, nid_child-nid_of, nid_parent-nid_child, nid_index-nid_child,
}
use flon.Json.{Value, at}
use flon.State.{Node, Parent, Exec, find_in}
use flon.State.Tree.{child_tree, item, flon_node_tree}
use flon.Inst.Seq.Order.{nid_child-longer}
use flon.Flows.{Flows, sequence, flow_tree, flow_trees}
use flon.Flows.Nodes.{with_node, find_in-with_other}
use flon.Flows.Trees.{flon_node_tree-HasTree}
use flon.Flows.Places.{IsFresh, IsFresh-self, longer-ne, Place, Grounded, find_node-nodes}

child_tree-sequence :
    (line : Text) (all : Flows) (i : ℕ)
    → child_tree (some (flow_tree (sequence line all))) i ≡ at (flow_trees all) i
unfolding flow_tree item at
child_tree-sequence line all i = refl

root_path : nid_parent (codes "0") false ≡ none
unfolding nid_parent flon.Base.Text.split_last
root_path = refl

not_child : {t : Text} → ¬ (some t ≡ none)
not_child e = cc

module _ {l : List (Text × Node)} {nid : Text} {q : Parent} {k : Option Value} (line : Text)
    (all : Flows) (here : Grounded l nid q k (flow_tree (sequence line all))) where
  child_shape : (i : ℕ) → nid_child nid i ≡ nid ++ underscore ∷ hex i
  child_shape i = nid_child-nid_of none i here.node

  child-longer : (i : ℕ) → length nid < length (nid_child nid i)
  child-longer i = rw (child_shape i) (nid_child-longer nid none i)

  child_path : (i : ℕ) (chop : Bool) → nid_parent (nid_child nid i) chop ≡ some nid
  child_path i true = nid_parent-nid_child none i true here.node tt
  child_path i false = nid_parent-nid_child none i false here.node tt

  child-not_root : (i : ℕ) → text_eq (nid_child nid i) (codes "0") ≡ false
  child-not_root i =
      let apart : nid_child nid i ≢ codes "0" =
        λ e. not_child (sym (child_path i false) ∙ ap (λ t. nid_parent t false) e ∙ root_path) in
      ground (arith, text_eq_iff (nid_child nid i) (codes "0"), apart)

  child-IsFresh : (v : Node) (i : ℕ) → IsFresh (with_node l nid v) (nid_child nid i)
  child-IsFresh v i u =
      let longer = child-longer i in
      find_in-with_other nid (nid_child nid i ++ u) v l
        (longer-ne nid _ (omega (arith, longer, length-append {0} (nid_child nid i) u)))
      ∙ ap (λ t. find_in (t ++ u) l) (child_shape i)
      ∙ ap (λ t. find_in t l) (append_assoc nid (underscore ∷ hex i) u)
      ∙ here.fresh ((underscore ∷ hex i) ++ u)

  -- The tree of the i-th child, or none behind the last.
  pub flon_node_tree-child :
      (s : Exec) (v : Node) (i : ℕ)
      → i < u32
      → v.parent ≡ q
      → v.tree ≡ k
      → s.nodes ≡ with_node l nid v
      → flon_node_tree s (nid_child nid i) ≡ at (flow_trees all) i
  flon_node_tree-child s v i lt ep et es =
      flon_node_tree-HasTree (nid_child nid i) (here.finds_tree s v ep et es)
        (find_node-nodes s (nid_child nid i) _ es
          ∙ IsFresh-self _ (nid_child nid i) (child-IsFresh v i))
        (child_path i false) (child_path i true) (child-longer i)
      ∙ ap (child_tree (some (flow_tree (sequence line all))))
          (nid_index-nid_child none i here.node tt lt)
      ∙ child_tree-sequence line all i

  pub child-Place :
      (v : Node) (i : ℕ) (t : Value)
      → i < u32
      → v.parent ≡ q
      → v.tree ≡ k
      → at (flow_trees all) i ≡ some t
      → Place (with_node l nid v) (nid_child nid i) nid t
  child-Place v i t lt ep et e = record {
    node = subst IsNode (sym (child_shape i)) (IsNode-child_node i here.node);
    not_root = child-not_root i;
    fresh = child-IsFresh v i;
    path = child_path i;
    shorter = child-longer i;
    parent_tree = flow_tree (sequence line all);
    has_parent = λ s es. here.finds_tree s v ep et es;
    is_child =
        ap (child_tree (some (flow_tree (sequence line all))))
          (nid_index-nid_child none i here.node tt lt)
        ∙ child_tree-sequence line all i
        ∙ e;
  }
