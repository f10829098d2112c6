-- ===== src/State/Tests.antt =====
-- Instances of the theorems about the trees of nodes.
use mathlib.Core.Path.{subst}
use flon.Base.{
  ◌+◌, ◌<◌, ◌≡◌, refl, arith, ℕ, none, some, List, [], ◌∷◌, inl, inr, ◌⊎◌, Bool, true, false,
  if◌then◌else◌,
}
use flon.Base.Text.{Text, codes, text_eq}
use flon.Ids.{nid_child, nid_parent}
use flon.Ids.Tests.{root_IsNode}
use flon.Json.{Value, Items, arr, obj, num, sym, nil, cons, end}
use flon.State.{Node, Exec, null_parent, find_node}
use flon.State.Tree.{node_tree, flon_node_tree, stored_parent}
use flon.State.Tree.Search.{Falls, flon_node_tree-nid_child}

abbrev leaf : Value
leaf =
    arr (cons (sym (codes "noop")) (cons (obj end) (cons (num (codes "2")) (cons (arr nil) nil))))

abbrev root_tree : Value
root_tree = arr (
    cons (sym (codes "sequence"))
      (cons (obj end) (cons (num (codes "1")) (cons (arr (cons leaf nil)) nil))))

abbrev root_node : Node
root_node = record {
  nid = codes "0";
  parent = null_parent;
  inst = none;
  tree = some root_tree;
  vars = none;
  children = none;
  bastards = none;
  rets = none;
  errors = none;
  status = none;
  timers = none;
  wars = none;
  map = none;
  task = none;
}

abbrev one_node : Exec
one_node = record {
  nodes = (codes "0", root_node) ∷ [];
  msg_counter = 0;
  counter = 0;
  msgs = [];
  msg_log = none;
  orders = [];
  locked = λ nid. false;
  processed = [];
  rejected = [];
}

flon_node_tree-nid_child_example : flon_node_tree one_node (nid_child (codes "0") 0) ≡ some leaf
unfolding flon.State.find_node flon.State.find_in flon.Base.Text.text_eq nid_child
    flon.Base.Text.before flon.State.Tree.item flon.Json.at
flon_node_tree-nid_child_example =
    flon_node_tree-nid_child one_node none 0 root_node root_tree leaf root_IsNode tt (omega arith)
      refl refl refl refl

abbrev KnownIds : Text → Type 0
KnownIds t = (t ≡ codes "0") ⊎ (t ≡ codes "0_0") ⊎ (t ≡ codes "null")

abbrev known_rank : Text → ℕ
known_rank t = if text_eq t (codes "0_0") then 2 else if text_eq t (codes "0") then 1 else 0

one_up :
    (q p : Text) (k : ℕ)
    → KnownIds q
    → known_rank q < k
    → some q ≡ some p
    → KnownIds p × (known_rank p < k)
one_up q p k a b h = let e : q ≡ p = cc in (subst KnownIds e a, subst (λ x. known_rank x < k) e b)

parent_of :
    (nid p : Text)
    → KnownIds nid
    → stored_parent (find_node one_node nid) ≡ some p
    → KnownIds p × (known_rank p < known_rank nid)
unfolding find_node text_eq flon.State.find_in
parent_of nid p (inl e) h =
    rw e (one_up (codes "null") p 1 (inr (inr refl)) (omega arith) (rw e at h))
parent_of nid p (inr (inl e)) h = cc (rw e at h)
parent_of nid p (inr (inr e)) h = cc (rw e at h)

path_of :
    (nid p : Text) (chop : Bool)
    → KnownIds nid
    → nid_parent nid chop ≡ some p
    → KnownIds p × (known_rank p < known_rank nid)
unfolding nid_parent flon.Base.Text.split_last flon.Base.Text.after text_eq
path_of nid p chop (inl e) h = cc (rw e at h)
path_of nid p chop (inr (inl e)) h =
    rw e (one_up (codes "0") p 2 (inl refl) (omega arith) (rw e at h))
path_of nid p chop (inr (inr e)) h = cc (rw e at h)

one_node-Falls : Falls one_node KnownIds known_rank
one_node-Falls = record { by_parent = parent_of; by_path = path_of }
