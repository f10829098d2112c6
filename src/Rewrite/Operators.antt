-- ===== src/Rewrite/Operators.antt =====
-- src/n/fl_rewrite.c: the passes for operators and for trees among the attributes.
use flon.Base.{ℕ, ◌+◌, Bool, true, false, ◌&&◌, ◌||◌, List, [], ◌∷◌, ◌++◌, if◌then◌else◌}
use flon.Base.Text.{Text, codes}
use flon.Base.Decimal.{decimal}
use flon.Json.{Value, Items, Fields, str, sym, nil, cons, end, field, is_tree, put, push}
use flon.Rewrite.Built.{
  Tree, value_of, Run, done, ◌>>=◌, Pass, Tools, says, is_op, v_to_tree, l_to_tree,
}

-- A list of items in groups: the one at the front, and those behind the operators.
abbrev pub Groups : Type 0
Groups = Fields × List Fields

module _ (tools : Tools) where
  -- The lists that the loop of rewrite_infix fills, from an item on.
  unfoldable pub groups : Text → Fields → Groups
  groups op end = (end, [])
  groups op (field k v fs) =
      let (g, gs) = groups op fs in if is_op tools op v then (end, g ∷ gs) else (field k v g, gs)

  unfoldable pub has_op : Text → Fields → Bool
  has_op op end = false
  has_op op (field k v fs) = is_op tools op v || has_op op fs

  -- `fdja_push(nchildren, l_to_tree(l, line, node, msg))` for each
  unfoldable pub trees_of : Value → List Fields → Run Items
  trees_of line [] = done nil
  trees_of line (g ∷ gs) =
      l_to_tree tools line g >>= λ v. (trees_of line gs >>= λ vs. done (cons v vs))

  abbrev pub operation : Text → Value → Items → Tree
  operation op line children = record {
    head = str op;
    atts = end;
    line = tools.clone line;
    children = children;
    rest = nil;
  }

  -- rewrite_infix(op, node, msg, tree)
  unfoldable pub rewrite_infix : Text → Pass
  unfolding groups has_op trees_of
  rewrite_infix op t =
      let (g, gs) = groups op t.atts in
      if has_op op t.atts
      then (trees_of t.line (field [] t.head g ∷ gs) >>= λ cs. done (true, operation op t.line cs))
      else done (false, t)

  unfoldable pub alone : Value → Fields → Items
  alone line end = nil
  alone line (field k v fs) = cons (v_to_tree tools line v) (alone line fs)

  abbrev pub no_items : Items → Bool
  no_items nil = true
  no_items (cons v vs) = false

  -- rewrite_prefix(op, node, msg, tree)
  unfoldable pub rewrite_prefix : Text → Pass
  unfolding alone
  rewrite_prefix op t =
      if says tools t.head op && no_items t.children
      then done (true, operation op t.line (alone t.line t.atts))
      else done (false, t)

  -- rewrite_pinfix(op, node, msg, tree)
  unfoldable pub rewrite_pinfix : Text → Pass
  unfolding rewrite_infix rewrite_prefix
  rewrite_pinfix op t =
      rewrite_infix op t >>= λ r. elim r.0 [ true ↦ done r | false ↦ rewrite_prefix op r.1 ]

  unfoldable pub has_tree : Fields → Bool
  has_tree end = false
  has_tree (field k v fs) = is_tree v || has_tree fs

  -- `$(w._%zu)`
  abbrev pub w_text : ℕ → Text
  w_text j = codes "$(w._" ++ (decimal j ++ codes ")")

  -- The loop of rewrite_parens: the trees that set a w, in front of those given.
  unfoldable pub w_sets : Value → ℕ → Fields → Items → Items
  w_sets line j end after = after
  w_sets line j (field k v fs) after =
      let set = tools.set_w j line in
      let rest = w_sets line (if is_tree v then j + 1 else j) fs after in
      if is_tree v
      then cons (value_of (record set { children = push set.children (tools.clone v) })) rest
      else rest

  -- The same loop: the attributes of the core.
  unfoldable pub w_atts : ℕ → Fields → Fields → Fields
  w_atts j end acc = acc
  w_atts j (field k v fs) acc =
      w_atts (if is_tree v then j + 1 else j) fs
        (put k (if is_tree v then str (w_text j) else tools.clone v) acc)

  abbrev pub core_tree : Tree → Tree
  core_tree t = record {
    head = tools.clone t.head;
    atts = w_atts 0 t.atts end;
    line = tools.clone t.line;
    children = tools.clone_all t.children;
    rest = nil;
  }

  -- rewrite_parens(node, msg, tree)
  unfoldable pub rewrite_parens : Pass
  unfolding has_tree w_sets w_atts
  rewrite_parens t =
      if has_tree t.atts
      then done (
        true,
        record {
          head = sym (codes "sequence");
          atts = end;
          line = tools.clone t.line;
          children = w_sets t.line 0 t.atts (cons (value_of (core_tree t)) nil);
          rest = nil;
        },
      )
      else done (false, t)
