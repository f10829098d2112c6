-- ===== src/Flows/Places.antt =====
-- Where a flow runs: the id of its node, the nodes that stand there before, and the tree that
-- flon_node_tree finds for it and for its children.
use flon.Base.{
  ◌<◌, ◌≤◌, ◌≡◌, ◌≢◌, refl, ◌∙◌, ap, sym, arith, Bool, true, false, Option, none, some, List, [],
  ◌∷◌, ◌++◌,
}
use flon.Base.Text.{Text, codes, text_eq, text_eq_iff}
use flon.Base.Lists.{length}
use flon.Ids.{nid_parent, nid_index}
use flon.Ids.Paths.{IsNode}
use flon.Json.{Value}
use flon.State.{Node, Parent, parent_nid, Exec, find_in, find_node}
use flon.State.Tree.{child_tree, stored_tree, stored_parent, flon_node_tree}
use flon.Flows.Nodes.{with_node, find_in-with_node, find_in-with_other}
use flon.Flows.Trees.{HasTree, of_parent, HasTree-agrees, flon_node_tree-HasTree}

-- No node has that id or one that goes on behind it.
abbrev pub IsFresh : List (Text × Node) → Text → Type 0
IsFresh l nid = (k : Text) → find_in (nid ++ k) l ≡ none

append_none : (t : Text) → t ++ [] ≡ t
append_none [] = refl
append_none (c ∷ t) = ap (λ u. c ∷ u) (append_none t)

pub IsFresh-self : (l : List (Text × Node)) (nid : Text) → IsFresh l nid → find_in nid l ≡ none
IsFresh-self l nid h = ap (λ t. find_in t l) (sym (append_none nid)) ∙ h []

pub longer-ne : (a b : Text) → length a < length b → text_eq a b ≡ false
longer-ne a b lt =
    let apart : a ≢ b = λ q. omega (arith, lt, ap length q) in
    ground (arith, text_eq_iff a b, apart)

shorter-ne : (a b : Text) → length b < length a → text_eq a b ≡ false
shorter-ne a b lt =
    let apart : a ≢ b = λ q. omega (arith, lt, ap length q) in
    ground (arith, text_eq_iff a b, apart)

-- A flow whose node is to come: the id of a child, the tree of its parent, and its own.
pub record Place (l : List (Text × Node)) (nid par : Text) (t : Value) : Type 0 where
  pub node : IsNode nid
  pub not_root : text_eq nid (codes "0") ≡ false
  pub fresh : IsFresh l nid
  pub path : (chop : Bool) → nid_parent nid chop ≡ some par
  pub shorter : length par < length nid
  pub parent_tree : Value
  pub has_parent : (s : Exec) → s.nodes ≡ l → HasTree s par parent_tree
  pub is_child : child_tree (some parent_tree) (nid_index nid) ≡ some t

-- A node behind those of `l` that has a tree.
pub record Grounded (l : List (Text × Node)) (nid : Text) (q : Parent) (k : Option Value)
    (t : Value) : Type 0 where
  pub node : IsNode nid
  pub fresh : IsFresh l nid
  pub finds_tree :
      (s : Exec) (v : Node)
      → v.parent ≡ q
      → v.tree ≡ k
      → s.nodes ≡ with_node l nid v
      → HasTree s nid t

pub find_node-nodes :
    (s : Exec) (j : Text) (l : List (Text × Node)) → s.nodes ≡ l → find_node s j ≡ find_in j l
unfolding find_node
find_node-nodes s j l e = ap (find_in j) e

-- The tree of a flow whose node is to come.
pub flon_node_tree-Place :
    {nid par : Text} {t : Value} (l : List (Text × Node)) (s : Exec)
    → Place l nid par t
    → s.nodes ≡ l
    → flon_node_tree s nid ≡ some t
flon_node_tree-Place {nid} l s p e =
    flon_node_tree-HasTree nid (p.has_parent s e)
      (find_node-nodes s nid l e ∙ IsFresh-self l nid p.fresh) (p.path false) (p.path true)
      p.shorter
    ∙ p.is_child

-- Once it has a node it has a tree through its parent.
pub Place-Grounded :
    {nid par : Text} {t : Value} (l : List (Text × Node))
    → Place l nid par t
    → Grounded l nid (parent_nid par) none t
Place-Grounded {nid} {par} l p = record {
  node = p.node;
  fresh = p.fresh;
  finds_tree = λ s v ep et es.
      let s0 = record s { nodes = l } in
      let found =
        find_node-nodes s nid _ es ∙ find_in-with_node nid v l (IsFresh-self l nid p.fresh) in
      let same : (j : Text) → length j ≤ length par → find_node s j ≡ find_node s0 j = λ j le.
        find_node-nodes s j _ es
        ∙ find_in-with_other nid j v l (shorter-ne nid j (omega (arith, le, p.shorter)))
        ∙ sym (find_node-nodes s0 j l refl) in
      of_parent (ground (arith, found, et)) (ground (arith, found, ep)) p.shorter
        (HasTree-agrees (p.has_parent s0 refl) (λ j le. ap stored_tree (same j le))
          (λ j le. ap stored_parent (same j le)))
        p.is_child;
}
