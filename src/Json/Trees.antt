-- ===== src/Json/Trees.antt =====
-- What `flon_is_tree` accepts, and what a tree guarantees to the code that walks it.
use flon.Base.{◌≡◌, refl, arith, true, false, if◌then◌else◌, ◌↔◌, Bool-cases, inl, inr, &&-true}
use flon.Json.{Value, Items, arr, nil, cons, is_array, is_object, is_number, is_tree, all_trees}

-- A node of a tree: its head is a tree or no array, its children are trees.
mutual
  pub data IsTree : Value → Type 0 where
    tree :
        {head atts line : Value} {children rest : Items}
        → IsHead head
        → is_object atts ≡ true
        → is_number line ≡ true
        → AllTrees children
        → IsTree (arr (cons head (cons atts (cons line (cons (arr children) rest)))))

  pub data IsHead : Value → Type 0 where
    plain : {v : Value} → is_array v ≡ false → IsHead v
    nested : {v : Value} → IsTree v → IsHead v

  pub data AllTrees : Items → Type 0 where
    no_trees : AllTrees nil
    one_tree : {v : Value} {vs : Items} → IsTree v → AllTrees vs → AllTrees (cons v vs)

mutual
  unfolding is_tree is_array

  IsTree-is_tree : {v : Value} → IsTree v → is_tree v ≡ true
  IsTree-is_tree (tree {head} h a l c) = ground (arith, IsHead-head h, AllTrees-all_trees c)

  IsHead-head : {v : Value} → IsHead v → (if is_array v then is_tree v else true) ≡ true
  IsHead-head (plain e) = ground arith
  IsHead-head (nested t) = ground (arith, IsTree-is_tree t)

  AllTrees-all_trees : {vs : Items} → AllTrees vs → all_trees vs ≡ true
  AllTrees-all_trees no_trees = refl
  AllTrees-all_trees (one_tree t ts) = ground (arith, IsTree-is_tree t, AllTrees-all_trees ts)

IsHead-of :
    (head : Value)
    → (if is_array head then is_tree head else true) ≡ true
    → (is_tree head ≡ true → IsTree head)
    → IsHead head
IsHead-of head h below = elim (Bool-cases (is_array head)) [
  | inl a ↦ nested (below (ground arith))
  | inr p ↦ plain p
]

mutual
  unfolding is_tree is_array

  is_tree-IsTree : (v : Value) → is_tree v ≡ true → IsTree v
  is_tree-IsTree (arr (cons head (cons atts (cons line (cons (arr children) rest))))) h =
      let (hd, t1) = &&-true _ _ h in
      let (ha, t2) = &&-true _ _ t1 in
      let (hl, hc) = &&-true _ _ t2 in
      tree (IsHead-of head hd (is_tree-IsTree head)) ha hl (all_trees-AllTrees children hc)
  is_tree-IsTree _ h = cc

  all_trees-AllTrees : (vs : Items) → all_trees vs ≡ true → AllTrees vs
  all_trees-AllTrees nil h = no_trees
  all_trees-AllTrees (cons v vs) h =
      let (t, ts) = &&-true _ _ h in one_tree (is_tree-IsTree v t) (all_trees-AllTrees vs ts)

-- `flon_is_tree` accepts exactly the trees: an array of a head that is a tree or no array, an
-- object, a number and an array of trees, with anything behind them.
pub is_tree_iff : (v : Value) → (is_tree v ≡ true) ↔ IsTree v
is_tree_iff v = (is_tree-IsTree v, λ t. IsTree-is_tree t)
