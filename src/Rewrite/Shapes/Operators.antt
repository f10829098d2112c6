-- ===== src/Rewrite/Shapes/Operators.antt =====
-- src/n/fl_rewrite.c: the passes for operators and parentheses keep trees in shape.
use flon.Base.{
  ℕ, ◌+◌, ◌≡◌, refl, ◌∙◌, Bool, true, false, ◌&&◌, List, [], ◌∷◌, if◌then◌else◌, &&-true, &&-both,
}
use flon.Base.Text.{Text}
use flon.Base.Lists.{All}
use flon.Json.{
  Value, Items, Fields, str, nil, cons, end, field, is_array, is_number, is_tree, all_trees, put,
  push,
}
use flon.Rewrite.Built.{Tree, value_of, Run, done, Tools, says, is_op, v_to_tree, l_to_tree}
use flon.Rewrite.Operators.{
  Groups, groups, has_op, trees_of, operation, rewrite_infix, alone, no_items, rewrite_prefix,
  rewrite_pinfix, has_tree, w_text, w_sets, w_atts, core_tree, rewrite_parens,
}
use flon.Rewrite.Shapes.{
  head_ok, heads_ok, IsGood, IsFaithful, Ensures, Ensures-bind, Ensures-if, IsKind, IsGood-is_tree,
  heads_ok-put, all_trees-push,
}
use flon.Rewrite.Shapes.Parts.{head_ok-clone, v_to_tree-is_tree, l_to_tree-is_tree}

abbrev GroupsOk : Groups → Type 0
GroupsOk x = (heads_ok (x.0) ≡ true) × All (λ (g : Fields). heads_ok g ≡ true) (x.1)

module _ (tools : Tools) (ok : IsFaithful tools) where
  groups-GroupsOk : (op : Text) (fs : Fields) → heads_ok fs ≡ true → GroupsOk (groups tools op fs)
  unfolding groups heads_ok
  groups-GroupsOk op end h = (refl, tt)
  groups-GroupsOk op (field k v fs) h =
      let x = &&-true (head_ok v) (heads_ok fs) h in
      by_op x.0 (is_op tools op v) (groups tools op fs) (groups-GroupsOk op fs x.1)
    where
      by_op :
          head_ok v ≡ true
          → (b : Bool) (x : Groups) → GroupsOk x
          → GroupsOk (if b then (end, x.0 ∷ x.1) else (field k v x.0, x.1))
      by_op h true x o = (refl, o)
      by_op h false x o = (&&-both (head_ok v) (heads_ok x.0) h o.0, o.1)

  trees_of-all_trees :
      (line : Value) (gs : List Fields)
      → is_number line ≡ true
      → All (λ (g : Fields). heads_ok g ≡ true) gs
      → Ensures (λ cs. all_trees cs ≡ true) (trees_of tools line gs)
  unfolding trees_of all_trees
  trees_of-all_trees line [] n a = refl
  trees_of-all_trees line (g ∷ gs) n a =
      Ensures-bind (λ v. is_tree v ≡ true) (λ cs. all_trees cs ≡ true) (l_to_tree tools line g) _
        (l_to_tree-is_tree tools ok line g n a.0)
        (λ v t.
          Ensures-bind (λ vs. all_trees vs ≡ true) (λ cs. all_trees cs ≡ true)
            (trees_of tools line gs) (λ vs. done (cons v vs)) (trees_of-all_trees line gs n a.1)
            (λ vs ts. &&-both (is_tree v) (all_trees vs) t ts))

  operation-IsGood :
      (op : Text) (line : Value) (cs : Items)
      → is_number line ≡ true
      → all_trees cs ≡ true
      → IsGood (operation tools op line cs)
  unfolding is_array heads_ok
  operation-IsGood op line cs n a = record {
    head_is = refl;
    atts_are = refl;
    line_is = ok.clone-is_number line ∙ n;
    children_are = a;
  }

  rewrite_infix-IsKind : (op : Text) → IsKind (rewrite_infix tools op)
  unfolding rewrite_infix
  rewrite_infix-IsKind op t g =
      let x = groups tools op t.atts in
      let o = groups-GroupsOk op t.atts g.atts_are in
      Ensures-if _ _ _ (has_op tools op t.atts)
        (Ensures-bind (λ cs. all_trees cs ≡ true) _
          (trees_of tools t.line (field [] t.head x.0 ∷ x.1)) _
          (trees_of-all_trees t.line (field [] t.head x.0 ∷ x.1) g.line_is
            (unfold heads_ok in &&-both (head_ok t.head) (heads_ok x.0) g.head_is o.0, o.1))
          (λ cs a. operation-IsGood op t.line cs g.line_is a))
        g

  alone-all_trees :
      (line : Value) (fs : Fields) → is_number line ≡ true → all_trees (alone tools line fs) ≡ true
  unfolding alone all_trees
  alone-all_trees line end n = refl
  alone-all_trees line (field k v fs) n =
      &&-both (is_tree (v_to_tree tools line v)) _ (v_to_tree-is_tree tools ok line v n)
        (alone-all_trees line fs n)

  rewrite_prefix-IsKind : (op : Text) → IsKind (rewrite_prefix tools op)
  unfolding rewrite_prefix
  rewrite_prefix-IsKind op t g =
      Ensures-if _ _ _ (says tools t.head op && no_items tools t.children)
        (operation-IsGood op t.line (alone tools t.line t.atts) g.line_is
          (alone-all_trees t.line t.atts g.line_is))
        g

  pub rewrite_pinfix-IsKind : (op : Text) → IsKind (rewrite_pinfix tools op)
  unfolding rewrite_pinfix
  rewrite_pinfix-IsKind op t g =
      Ensures-bind (λ (r : Bool × Tree). IsGood (r.1)) (λ (r : Bool × Tree). IsGood (r.1))
        (rewrite_infix tools op t) _ (rewrite_infix-IsKind op t g) by_flag
    where
      by_flag :
          (r : Bool × Tree)
          → IsGood (r.1)
          → Ensures
              (λ (r : Bool × Tree). IsGood (r.1))
              (elim r.0 as (λ _. Run (Bool × Tree)) [
                | true ↦ done r
                | false ↦ rewrite_prefix tools op r.1
              ])
      by_flag (true, t) h = h
      by_flag (false, t) h = rewrite_prefix-IsKind op t h

  w_sets-all_trees :
      (line : Value) (j : ℕ) (fs : Fields) (after : Items)
      → is_number line ≡ true
      → all_trees after ≡ true
      → all_trees (w_sets tools line j fs after) ≡ true
  unfolding w_sets all_trees
  w_sets-all_trees line j end after n a = a
  w_sets-all_trees line j (field k v fs) after n a =
      by_tree (is_tree v) refl (w_sets tools line (if is_tree v then j + 1 else j) fs after)
        (w_sets-all_trees line (if is_tree v then j + 1 else j) fs after n a)
    where
      set : Tree
      set = tools.set_w j line

      by_tree :
          (b : Bool)
          → is_tree v ≡ b
          → (rest : Items) → all_trees rest ≡ true
          → all_trees (
              if b
              then cons
                  (value_of (record set { children = push set.children (tools.clone v) }))
                  rest
              else rest)
            ≡ true
      by_tree false e rest a = a
      by_tree true e rest a =
          let s = ok.set_w-IsGood j line n in
          let whole : IsGood (record set { children = push set.children (tools.clone v) }) =
            record {
              head_is = s.head_is;
              atts_are = s.atts_are;
              line_is = s.line_is;
              children_are =
                  all_trees-push set.children (tools.clone v) s.children_are
                    (ok.clone-is_tree v ∙ e);
            } in
          &&-both _ (all_trees rest) (IsGood-is_tree _ whole) a

  w_atts-heads :
      (j : ℕ) (fs acc : Fields)
      → heads_ok fs ≡ true
      → heads_ok acc ≡ true
      → heads_ok (w_atts tools j fs acc) ≡ true
  unfolding w_atts heads_ok is_array
  w_atts-heads j end acc h a = a
  w_atts-heads j (field k v fs) acc h a =
      let x = &&-true (head_ok v) (heads_ok fs) h in
      let w = if is_tree v then str (w_text tools j) else tools.clone v in
      w_atts-heads (if is_tree v then j + 1 else j) fs (put k w acc) x.1
        (heads_ok-put k w acc (by_tree x.0 (is_tree v)) a)
    where
      by_tree :
          head_ok v ≡ true
          → (b : Bool) → head_ok (if b then str (w_text tools j) else tools.clone v) ≡ true
      by_tree h true = refl
      by_tree h false = head_ok-clone tools ok v h

  core_tree-IsGood : (t : Tree) → IsGood t → IsGood (core_tree tools t)
  core_tree-IsGood t g = record {
    head_is = head_ok-clone tools ok t.head g.head_is;
    atts_are = w_atts-heads 0 t.atts end g.atts_are (unfold heads_ok in refl);
    line_is = ok.clone-is_number t.line ∙ g.line_is;
    children_are = ok.clone_all-all_trees t.children ∙ g.children_are;
  }

  pub rewrite_parens-IsKind : IsKind (rewrite_parens tools)
  unfolding rewrite_parens is_array heads_ok
  rewrite_parens-IsKind t g =
      Ensures-if _ _ _ (has_tree tools t.atts)
        (record {
          head_is = refl;
          atts_are = refl;
          line_is = ok.clone-is_number t.line ∙ g.line_is;
          children_are =
              w_sets-all_trees t.line 0 t.atts (cons (value_of (core_tree tools t)) nil) g.line_is (
                unfold all_trees in
                &&-both _ true (IsGood-is_tree (core_tree tools t) (core_tree-IsGood t g)) refl);
        })
        g
