-- ===== src/Rewrite/Shapes/Heads.antt =====
-- src/n/fl_rewrite.c: the passes that go by the head keep trees in shape.
use flon.Base.{
  ◌≡◌, refl, ◌∙◌, Bool, true, false, not, ◌&&◌, ◌||◌, Option, none, some, List, [], ◌∷◌, ◌==◌, ltb,
  if◌then◌else◌, &&-true, &&-both,
}
use flon.Base.Text.{Text, codes}
use flon.Base.Lists.{All}
use flon.State.{starts_with_byte}
use flon.Json.{
  Value, Items, Fields, str, sym, cons, end, field, is_array, is_stringy, is_number, is_tree,
  all_trees, put, push, size,
}
use flon.Rewrite.Built.{
  Tree, value_of, Run, done, ◌>>=◌, Pass, Tools, is_index, unshift_attribute, width, says,
  l_to_tree, call_tree,
}
use flon.Rewrite.Heads.{
  Part, cond_part, then_part, else_part, Parts, add_part, shift, values_of, rewrite_as_call,
  copy_atts, says_at, rewrite_else_if, split_if, then_tree, rewrite_post_if, parts, heads_if,
  if_children, rewrite_head_if, set_tree, sets_of, sequence_of, set_or_sequence, rewrite_set,
}
use flon.Rewrite.Shapes.{
  head_ok, heads_ok, IsGood, IsFaithful, Ensures, Ensures-bind, Ensures-if, IsKind, IsGood-is_tree,
  heads_ok-put, all_trees-push,
}
use flon.Rewrite.Shapes.Parts.{
  unshift_attribute-heads, head_ok-clone, v_to_tree-is_tree, call_tree-IsGood, l_to_tree-is_tree,
}

-- The three parts of a split have heads.
abbrev SplitOk : Option (Fields × Value × Fields) → Type 0
SplitOk none = Unit
SplitOk (some (a, c, b)) = (heads_ok a ≡ true) × (head_ok c ≡ true) × (heads_ok b ≡ true)

abbrev PartsOk : Parts → Type 0
PartsOk p = (heads_ok p.cond ≡ true) × (heads_ok p.then_ ≡ true) × (heads_ok p.else_ ≡ true)

shift-heads : (fs : Fields) → heads_ok fs ≡ true → heads_ok (shift fs) ≡ true
unfolding heads_ok
shift-heads end h = h
shift-heads (field k v fs) h = (&&-true (head_ok v) (heads_ok fs) h).1

add_part-PartsOk :
    (q : Part) (k : Text) (v : Value) (p : Parts)
    → head_ok v ≡ true
    → PartsOk p
    → PartsOk (add_part q k v p)
unfolding heads_ok
add_part-PartsOk cond_part k v p h o = (&&-both (head_ok v) _ h o.0, o.1, o.2)
add_part-PartsOk then_part k v p h o = (o.0, &&-both (head_ok v) _ h o.1, o.2)
add_part-PartsOk else_part k v p h o = (o.0, o.1, &&-both (head_ok v) _ h o.2)

module _ (tools : Tools) (ok : IsFaithful tools) where
  pub rewrite_as_call-IsKind : IsKind (rewrite_as_call tools)
  unfolding rewrite_as_call is_array
  rewrite_as_call-IsKind t g =
      let name = tools.to_text t.head in
      let kept : (inst : Text)
          → IsGood (record t { head = str inst; atts = unshift_attribute name t.atts }) =
        λ inst. record {
          head_is = refl;
          atts_are = unshift_attribute-heads name t.atts g.atts_are;
          line_is = g.line_is;
          children_are = g.children_are;
        } in
      Ensures-if _ _ _ (not (is_stringy t.head)) g (
        Ensures-if _ _ _ (tools.is_known name) g (
          Ensures-if _ _ _ (tools.is_callable name) (kept (codes "call"))
            (Ensures-if _ _ _ (width t.atts == 0 && size t.children == 0) (kept (codes "val")) g)))

  copy_atts-heads :
      (fs acc : Fields)
      → heads_ok fs ≡ true
      → heads_ok acc ≡ true
      → heads_ok (copy_atts tools fs acc) ≡ true
  unfolding copy_atts heads_ok
  copy_atts-heads end acc h a = a
  copy_atts-heads (field k v fs) acc h a =
      let x = &&-true (head_ok v) (heads_ok fs) h in
      copy_atts-heads fs (put k (tools.clone v) acc) x.1
        (heads_ok-put k (tools.clone v) acc (head_ok-clone tools ok v x.0) a)

  pub rewrite_else_if-IsKind : IsKind (rewrite_else_if tools)
  unfolding rewrite_else_if is_array
  rewrite_else_if-IsKind t g =
      Ensures-if _ _ _
        (says tools t.head (codes "else") && says_at tools (codes "_0") (codes "if") t.atts)
        (record {
          head_is = refl;
          atts_are =
              copy_atts-heads (shift t.atts) end (shift-heads t.atts g.atts_are)
                (unfold heads_ok in refl);
          line_is = g.line_is;
          children_are = g.children_are;
        })
        g

  split_if-SplitOk : (fs : Fields) → heads_ok fs ≡ true → SplitOk (split_if tools fs)
  unfolding split_if heads_ok
  split_if-SplitOk end h = tt
  split_if-SplitOk (field k v fs) h =
      let x = &&-true (head_ok v) (heads_ok fs) h in
      by_test x.0 x.1 (says tools v (codes "if") || says tools v (codes "unless"))
        (split_if tools fs) (split_if-SplitOk fs x.1)
    where
      by_test :
          head_ok v ≡ true
          → heads_ok fs ≡ true
          → (b : Bool) (o : Option (Fields × Value × Fields)) → SplitOk o
          → SplitOk (
              if b then some (end, v, fs) else elim o as (λ _. Option (Fields × Value × Fields)) [
                | none ↦ none
                | some (a, c, b) ↦ some (field k v a, c, b)
              ])
      by_test hv hf true o s = (refl, hv, hf)
      by_test hv hf false none s = tt
      by_test hv hf false (some (a, c, b)) s = (&&-both (head_ok v) (heads_ok a) hv s.0, s.1, s.2)

  then_tree-is_tree :
      (t : Tree) (before : Fields)
      → IsGood t
      → heads_ok before ≡ true
      → is_tree (value_of (then_tree tools t before)) ≡ true
  unfolding then_tree
  then_tree-is_tree t before g h = IsGood-is_tree (then_tree tools t before) (record {
    head_is = head_ok-clone tools ok t.head g.head_is;
    atts_are = copy_atts-heads before end h (unfold heads_ok in refl);
    line_is = ok.clone-is_number t.line ∙ g.line_is;
    children_are = ok.clone_all-all_trees t.children ∙ g.children_are;
  })

  pub rewrite_post_if-IsKind : (inner : Pass) → IsKind inner → IsKind (rewrite_post_if tools inner)
  unfolding rewrite_post_if is_array
  rewrite_post_if-IsKind inner k t g =
      by_split (split_if tools t.atts) (split_if-SplitOk t.atts g.atts_are)
    where
      finished : Fields → Bool × Tree → Run (Bool × Tree)
      finished before r = done (
        true,
        record r.1 {
          head =
              if starts_with_byte b'i' (tools.to_text (r.1).head)
              then sym (codes "ife")
              else sym (codes "unlesse");
          children = push (r.1).children (value_of (then_tree tools t before));
        },
      )

      headed : (b : Bool) → head_ok (if b then sym (codes "ife") else sym (codes "unlesse")) ≡ true
      headed true = refl
      headed false = refl

      by_split :
          (o : Option (Fields × Value × Fields))
          → SplitOk o
          → Ensures
              (λ (r : Bool × Tree). IsGood (r.1))
              (elim o as (λ _. Run (Bool × Tree)) [
                | none ↦ done (false, t)
                | some (before, c, behind) ↦
                    inner (call_tree tools t.line c behind) >>= finished before
              ])
      by_split none s = g
      by_split (some (before, c, behind)) s =
          Ensures-bind (λ (r : Bool × Tree). IsGood (r.1)) _
            (inner (call_tree tools t.line c behind)) (finished before)
            (k (call_tree tools t.line c behind)
              (call_tree-IsGood tools ok t.line c behind g.line_is s.1 s.2))
            (λ r h. record {
              head_is = headed (starts_with_byte b'i' (tools.to_text (r.1).head));
              atts_are = h.atts_are;
              line_is = h.line_is;
              children_are =
                  all_trees-push (r.1).children (value_of (then_tree tools t before)) h.children_are
                    (then_tree-is_tree t before g s.0);
            })

  parts-PartsOk : (q : Part) (fs : Fields) → heads_ok fs ≡ true → PartsOk (parts tools q fs)
  unfolding parts heads_ok
  parts-PartsOk q end h = (refl, refl, refl)
  parts-PartsOk q (field k v fs) h =
      let x = &&-true (head_ok v) (heads_ok fs) h in
      let q' =
        if says tools v (codes "then")
        then then_part
        else if says tools v (codes "else")
        then else_part
        else q in
      add_part-PartsOk q' k v (parts tools q' fs) x.0 (parts-PartsOk q' fs x.1)

  -- A list in front of children.
  front :
      (line : Value) (fs : Fields) (r : Run Items)
      → is_number line ≡ true
      → heads_ok fs ≡ true
      → Ensures (λ cs. all_trees cs ≡ true) r
      → Ensures
          (λ cs. all_trees cs ≡ true)
          (r >>= λ cs. (l_to_tree tools line fs >>= λ v. done (cons v cs)))
  unfolding all_trees
  front line fs r n h a =
      Ensures-bind (λ cs. all_trees cs ≡ true) (λ cs. all_trees cs ≡ true) r _ a
        (λ cs c.
          Ensures-bind (λ v. is_tree v ≡ true) (λ cs. all_trees cs ≡ true) (l_to_tree tools line fs)
            (λ v. done (cons v cs)) (l_to_tree-is_tree tools ok line fs n h)
            (λ v t. &&-both (is_tree v) (all_trees cs) t c))

  if_children-all_trees :
      (line : Value) (p : Parts) (cs : Items)
      → is_number line ≡ true
      → PartsOk p
      → all_trees cs ≡ true
      → Ensures (λ cs. all_trees cs ≡ true) (if_children tools line p cs)
  unfolding if_children
  if_children-all_trees line p cs n o a =
      Ensures-if _ _ _ (ltb 0 (width p.cond))
        (front line p.cond _ n o.0 (
          Ensures-if _ _ _ (ltb 0 (width p.then_))
            (front line (shift p.then_) _ n (shift-heads p.then_ o.1) (
              Ensures-if _ _ _ (ltb 0 (width p.else_))
                (front line (shift p.else_) (done cs) n (shift-heads p.else_ o.2) a) a))
            a))
        a

  pub rewrite_head_if-IsKind : IsKind (rewrite_head_if tools)
  unfolding rewrite_head_if is_array
  rewrite_head_if-IsKind t g =
      let p = parts tools cond_part t.atts in
      Ensures-if _ _ _ (heads_if tools t.head)
        (Ensures-bind (λ cs. all_trees cs ≡ true) _ (if_children tools t.line p t.children) _
          (if_children-all_trees t.line p t.children g.line_is
            (parts-PartsOk cond_part t.atts g.atts_are) g.children_are)
          (λ cs a. record {
            head_is =
                headed (ltb 0 (width p.then_)) (starts_with_byte b'u' (tools.to_text t.head))
                  (starts_with_byte b'e' (tools.to_text t.head)) g.head_is;
            atts_are = unfold heads_ok in refl;
            line_is = g.line_is;
            children_are = a;
          }))
        g
    where
      headed :
          (a b c : Bool)
          → head_ok t.head ≡ true
          → head_ok (
              if a
              then (if b
                  then sym (codes "unlesse")
                  else if c
                  then sym (codes "elsif")
                  else sym (codes "ife"))
              else t.head)
            ≡ true
      headed true true c h = refl
      headed true false true h = refl
      headed true false false h = refl
      headed false b c h = h

  set_tree-IsGood :
      (line : Value) (k : Text) (v : Value)
      → is_number line ≡ true
      → IsGood (set_tree tools line k v)
  unfolding set_tree is_array heads_ok all_trees
  set_tree-IsGood line k v n = record {
    head_is = refl;
    atts_are = refl;
    line_is = ok.clone-is_number line ∙ n;
    children_are = &&-both _ true (v_to_tree-is_tree tools ok line v n) refl;
  }

  sets_of-All :
      (line : Value) (fs : Fields) → is_number line ≡ true → All IsGood (sets_of tools line fs)
  unfolding sets_of
  sets_of-All line end n = tt
  sets_of-All line (field k v fs) n =
      by_index (is_index k) (sets_of tools line fs) (set_tree-IsGood line k v n)
        (sets_of-All line fs n)
    where
      by_index :
          (b : Bool) (ts : List Tree)
          → IsGood (set_tree tools line k v)
          → All IsGood ts
          → All IsGood (if b then ts else set_tree tools line k v ∷ ts)
      by_index true ts g a = a
      by_index false ts g a = (g, a)

  values_of-all_trees : (ts : List Tree) → All IsGood ts → all_trees (values_of ts) ≡ true
  unfolding all_trees
  values_of-all_trees [] a = refl
  values_of-all_trees (t ∷ ts) a =
      &&-both (is_tree (value_of t)) _ (IsGood-is_tree t a.0) (values_of-all_trees ts a.1)

  sequence_of-IsGood :
      (line : Value) (ts : List Tree)
      → is_number line ≡ true
      → All IsGood ts
      → IsGood (sequence_of tools line ts)
  unfolding is_array heads_ok
  sequence_of-IsGood line ts n a = record {
    head_is = refl;
    atts_are = refl;
    line_is = ok.clone-is_number line ∙ n;
    children_are = values_of-all_trees ts a;
  }

  set_or_sequence-IsGood :
      (line : Value) (ts : List Tree)
      → is_number line ≡ true
      → All IsGood ts
      → IsGood (set_or_sequence tools line ts)
  unfolding set_or_sequence
  set_or_sequence-IsGood line [] n a = sequence_of-IsGood line [] n a
  set_or_sequence-IsGood line (s ∷ []) n a = a.0
  set_or_sequence-IsGood line (s ∷ (r ∷ ts)) n a = sequence_of-IsGood line (s ∷ r ∷ ts) n a

  pub rewrite_set-IsKind : IsKind (rewrite_set tools)
  unfolding rewrite_set
  rewrite_set-IsKind t g =
      Ensures-if _ _ _
        (says tools t.head (codes "set") && (ltb 0 (width t.atts) && not (ltb 0 (size t.children))))
        (set_or_sequence-IsGood t.line (sets_of tools t.line t.atts) g.line_is
          (sets_of-All t.line t.atts g.line_is))
        g
