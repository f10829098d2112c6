-- ===== src/Rewrite/Dangling.antt =====
-- src/n/fl_rewrite.c: operators without an operand, which rewrite_infix reads through a null pointer.
use flon.Base.{
  ◌≡◌, ◌↔◌, refl, sym, ◌∙◌, arith, Bool, true, false, ◌&&◌, ◌||◌, List, [], ◌∷◌, if◌then◌else◌,
}
use flon.Base.Text.{Text}
use flon.Json.{Value, Items, Fields, cons, end, field}
use flon.Rewrite.Built.{
  Tree, Run, done, crashed, out_of_fuel, ◌>>=◌, Tools, value_of, is_op, v_to_tree, call_tree,
  l_to_tree,
}
use flon.Rewrite.Operators.{Groups, groups, has_op, trees_of, operation, rewrite_infix}

abbrev is_end : Fields → Bool
is_end end = true
is_end (field k v fs) = false

abbrev any_end : List Fields → Bool
any_end [] = false
any_end (g ∷ gs) = is_end g || any_end gs

crashed-then :
    {A B : Type 0} (r : Run A) (f : A → B) → ((r >>= λ a. done (f a)) ≡ crashed) ↔ (r ≡ crashed)
crashed-then (done a) f = (λ h. cc, λ h. cc)
crashed-then crashed f = (λ h. refl, λ h. refl)
crashed-then out_of_fuel f = (λ h. cc, λ h. cc)

module _ (tools : Tools) (op : Text) where
  -- The operator stands at the end, or twice in a row.
  unfoldable pub dangling : Fields → Bool
  dangling end = false
  dangling (field k v end) = is_op tools op v
  dangling (field k v (field j w fs)) =
      (is_op tools op v && is_op tools op w) || dangling (field j w fs)

  groups-dangling : (fs : Fields) → any_end (groups tools op fs).1 ≡ dangling fs
  unfolding groups dangling
  groups-dangling end = refl
  groups-dangling (field k v end) = ground arith
  groups-dangling (field k v (field j w fs)) = ground (arith, groups-dangling (field j w fs))

  dangling-has_op : (fs : Fields) → dangling fs ≡ true → has_op tools op fs ≡ true
  unfolding dangling has_op
  dangling-has_op end h = cc
  dangling-has_op (field k v end) h = ground arith
  dangling-has_op (field k v (field j w fs)) h = ground (arith, dangling-has_op (field j w fs))

  -- What trees_of does with lists, by whether one is empty.
  trees_of-any_end :
      (line : Value) (gs : List Fields) → (trees_of tools line gs ≡ crashed) ↔ (any_end gs ≡ true)
  unfolding trees_of l_to_tree
  trees_of-any_end line [] = (λ h. cc, λ h. cc)
  trees_of-any_end line (end ∷ gs) = (λ h. refl, λ h. refl)
  trees_of-any_end line (field k v end ∷ gs) =
      let c = crashed-then (trees_of tools line gs) (λ vs. cons (v_to_tree tools line v) vs) in
      let ih = trees_of-any_end line gs in (λ h. ih.0 (c.0 h), λ h. c.1 (ih.1 h))
  trees_of-any_end line (field k v (field j w fs) ∷ gs) =
      let first = value_of (call_tree tools line v (field j w fs)) in
      let c = crashed-then (trees_of tools line gs) (λ vs. cons first vs) in
      let ih = trees_of-any_end line gs in (λ h. ih.0 (c.0 h), λ h. c.1 (ih.1 h))

  -- rewrite_infix fails exactly on a tree whose attributes have the operator at their end, or twice
  -- in a row.
  pub rewrite_infix-dangling :
      (t : Tree) → (rewrite_infix tools op t ≡ crashed) ↔ (dangling t.atts ≡ true)
  unfolding rewrite_infix
  rewrite_infix-dangling t = by_op (has_op tools op t.atts) refl
    where
      x : Groups
      x = groups tools op t.atts

      trees : Run Items
      trees = trees_of tools t.line (field [] t.head x.0 ∷ x.1)

      result : Items → Bool × Tree
      result cs = (true, operation tools op t.line cs)

      by_op :
          (b : Bool)
          → has_op tools op t.atts ≡ b
          → ((if b then (trees >>= λ cs. done (result cs)) else done (false, t)) ≡ crashed)
            ↔ (dangling t.atts ≡ true)
      by_op true e =
          let c = crashed-then trees result in
          let a = trees_of-any_end t.line (field [] t.head x.0 ∷ x.1) in
          let g = groups-dangling t.atts in (λ h. sym g ∙ a.0 (c.0 h), λ h. c.1 (a.1 (g ∙ h)))
      by_op false e = (λ h. cc, λ h. (let k = dangling-has_op t.atts h in cc))
