-- ===== src/Rewrite/Heads.antt =====
-- src/n/fl_rewrite.c: the passes that go by the head of the tree, and the postfix if.
use flon.Base.{
  ℕ, Bool, true, false, not, ◌&&◌, ◌||◌, Option, none, some, List, [], ◌∷◌, ◌==◌, ltb,
  if◌then◌else◌,
}
use flon.Base.Text.{Text, codes}
use flon.State.{starts_with_byte}
use flon.Json.{
  Value, Items, Fields, str, sym, nil, cons, end, field, is_stringy, get, put, push, size,
}
use flon.Rewrite.Built.{
  Tree, value_of, Run, done, ◌>>=◌, Pass, Tools, is_index, unshift_attribute, width, says,
  v_to_tree, l_to_tree, call_tree,
}

-- The three lists of rewrite_head_if.
pub data Part : Type 0 where
  cond_part then_part else_part : Part

pub record Parts : Type 0 where
  pub cond : Fields
  pub then_ : Fields
  pub else_ : Fields

abbrev pub add_part : Part → Text → Value → Parts → Parts
add_part cond_part k v p = record p { cond = field k v p.cond }
add_part then_part k v p = record p { then_ = field k v p.then_ }
add_part else_part k v p = record p { else_ = field k v p.else_ }

-- `fdja_free(flu_list_shift(l))`
abbrev pub shift : Fields → Fields
shift end = end
shift (field k v fs) = fs

abbrev pub values_of : List Tree → Items
values_of [] = nil
values_of (t ∷ ts) = cons (value_of t) (values_of ts)

module _ (tools : Tools) where
  -- rewrite_as_call_invoke_or_val(node, msg, tree)
  unfoldable pub rewrite_as_call : Pass
  rewrite_as_call t =
      let name = tools.to_text t.head in
      let headed =
        λ (inst : Text). record t { head = str inst; atts = unshift_attribute name t.atts } in
      if not (is_stringy t.head)
      then done (false, t)
      else if tools.is_known name
      then done (false, t)
      else if tools.is_callable name
      then done (true, headed (codes "call"))
      else if width t.atts == 0 && size t.children == 0
      then done (true, headed (codes "val"))
      else done (false, t)

  -- `fdja_set(natts, a->key, fdja_clone(a))` for each
  unfoldable pub copy_atts : Fields → Fields → Fields
  copy_atts end acc = acc
  copy_atts (field k v fs) acc = copy_atts fs (put k (tools.clone v) acc)

  abbrev pub says_at : Text → Text → Fields → Bool
  says_at k s fs = elim (get k fs) [ none ↦ false | some v ↦ says tools v s ]

  -- rewrite_else_if(node, msg, tree)
  unfoldable pub rewrite_else_if : Pass
  unfolding copy_atts
  rewrite_else_if t =
      if says tools t.head (codes "else") && says_at (codes "_0") (codes "if") t.atts
      then done (true, record t { head = sym (codes "elsif"); atts = copy_atts (shift t.atts) end })
      else done (false, t)

  -- The first attribute that is an `if` or an `unless`, with those before it and behind it.
  unfoldable pub split_if : Fields → Option (Fields × Value × Fields)
  split_if end = none
  split_if (field k v fs) =
      let rest = split_if fs in
      if says tools v (codes "if") || says tools v (codes "unless")
      then some (end, v, fs)
      else elim rest [ none ↦ none | some (a, c, b) ↦ some (field k v a, c, b) ]

  -- The tree that is left of the one that has a postfix condition.
  unfoldable pub then_tree : Tree → Fields → Tree
  unfolding copy_atts
  then_tree t before = record {
    head = tools.clone t.head;
    atts = copy_atts before end;
    line = tools.clone t.line;
    children = tools.clone_all t.children;
    rest = nil;
  }

  -- The condition, rewritten, with the rest of the tree as its last child.
  abbrev pub turned : Tree → Fields → Tree → Tree
  turned t before u = record u {
    head =
        if starts_with_byte b'i' (tools.to_text u.head)
        then sym (codes "ife")
        else sym (codes "unlesse");
    children = push u.children (value_of (then_tree t before));
  }

  -- rewrite_post_if(node, msg, tree), where `rewrite` is the rewriting of the condition
  unfoldable pub rewrite_post_if : Pass → Pass
  unfolding split_if then_tree
  rewrite_post_if rewrite t = elim (split_if t.atts) [
    | none ↦ done (false, t)
    | some (before, c, behind) ↦
        rewrite (call_tree tools t.line c behind) >>= λ r. done (true, turned t before r.1)
  ]

  -- The loop of rewrite_head_if: which list an attribute goes to.
  unfoldable pub parts : Part → Fields → Parts
  parts p end = record { cond = end; then_ = end; else_ = end }
  parts p (field k v fs) =
      let q =
        if says tools v (codes "then")
        then then_part
        else if says tools v (codes "else")
        then else_part
        else p in
      add_part q k v (parts q fs)

  abbrev pub heads_if : Value → Bool
  heads_if v =
      says tools v (codes "if")
      || (says tools v (codes "elif")
          || (says tools v (codes "elsif")
              || (says tools v (codes "unless") || says tools v (codes "else"))))

  -- The children that come before those of the tree.
  unfoldable pub if_children : Value → Parts → Items → Run Items
  if_children line p cs =
      let with_else =
        if ltb 0 (width p.else_)
        then (l_to_tree tools line (shift p.else_) >>= λ e. done (cons e cs))
        else done cs in
      let with_then =
        if ltb 0 (width p.then_)
        then (with_else >>= λ es. (l_to_tree tools line (shift p.then_) >>= λ t. done (cons t es)))
        else done cs in
      if ltb 0 (width p.cond)
      then (with_then >>= λ ts. (l_to_tree tools line p.cond >>= λ c. done (cons c ts)))
      else done cs

  -- rewrite_head_if(node, msg, tree)
  unfoldable pub rewrite_head_if : Pass
  unfolding parts if_children
  rewrite_head_if t =
      let p = parts cond_part t.atts in
      let byte = λ (c : ℕ). starts_with_byte c (tools.to_text t.head) in
      let inst =
        if byte b'u'
        then sym (codes "unlesse")
        else if byte b'e'
        then sym (codes "elsif")
        else sym (codes "ife") in
      if heads_if t.head
      then (if_children t.line p t.children >>= λ cs. done (
        true,
        record t {
          head = if ltb 0 (width p.then_) then inst else t.head;
          atts = end;
          children = cs;
        },
      ))
      else done (false, t)

  -- The tree that rewrite_set makes of an attribute that has a name.
  unfoldable pub set_tree : Value → Text → Value → Tree
  set_tree line k v = record {
    head = sym (codes "set");
    atts = field (codes "_0") (str k) end;
    line = tools.clone line;
    children = cons (v_to_tree tools line v) nil;
    rest = nil;
  }

  unfoldable pub sets_of : Value → Fields → List Tree
  unfolding set_tree
  sets_of line end = []
  sets_of line (field k v fs) =
      let rest = sets_of line fs in if is_index k then rest else set_tree line k v ∷ rest

  abbrev pub sequence_of : Value → List Tree → Tree
  sequence_of line ts = record {
    head = sym (codes "sequence");
    atts = end;
    line = tools.clone line;
    children = values_of ts;
    rest = nil;
  }

  -- `fdja_replace(tree, sets->first->item)`, or the sequence of them
  unfoldable pub set_or_sequence : Value → List Tree → Tree
  set_or_sequence line [] = sequence_of line []
  set_or_sequence line (s ∷ []) = s
  set_or_sequence line (s ∷ (r ∷ ts)) = sequence_of line (s ∷ r ∷ ts)

  -- rewrite_set(node, msg, tree)
  unfoldable pub rewrite_set : Pass
  unfolding sets_of set_or_sequence
  rewrite_set t =
      if says tools t.head (codes "set") && (ltb 0 (width t.atts) && not (ltb 0 (size t.children)))
      then done (true, set_or_sequence t.line (sets_of t.line t.atts))
      else done (false, t)
