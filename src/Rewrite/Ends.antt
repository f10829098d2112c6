-- ===== src/Rewrite/Ends.antt =====
-- src/n/fl_rewrite.c: runs that do not want for fuel; the passes that call no other.
pub mod Fuel
use flon.Base.{
  ℕ, zero, suc, ◌+◌, ◌≤◌, ◌≡◌, refl, sym, ◌∙◌, arith, Bool, true, false, not, ◌&&◌, ◌||◌, Option,
  none, some, List, [], ◌∷◌, String, ◌==◌, ltb, if◌then◌else◌, Bool-cases, inl, inr, &&-true,
}
use flon.Base.Text.{Text, codes, text_eq, text_eq_iff}
use flon.Base.Lists.{All}
use flon.State.{starts_with_byte}
use flon.Json.{Value, Items, Fields, str, cons, end, field, is_stringy, put, push, size}
use flon.Rewrite.Built.{
  Tree, value_of, Run, done, crashed, out_of_fuel, ◌>>=◌, Pass, Tools, is_index, index_key, bump,
  unshift_attribute, width, says, l_to_tree, collect, call_tree,
}
use flon.Rewrite.Heads.{
  shift, rewrite_as_call, copy_atts, says_at, rewrite_else_if, split_if, then_tree, rewrite_post_if,
  parts, cond_part, Parts, heads_if, if_children, rewrite_head_if, set_or_sequence, sets_of,
  rewrite_set,
}
use flon.Rewrite.Operators.{
  groups, has_op, trees_of, operation, rewrite_infix, no_items, rewrite_prefix, rewrite_pinfix,
  has_tree, rewrite_parens,
}
use flon.Rewrite.Passes.{run_passes, operators, operator_passes, passes, rewrite_tree}

-- The run does not want for fuel, and what it gives, if it gives something, has the property.
abbrev pub Ends {ℓ} : {A : Type ℓ} → (A → Type 0) → Run A → Type 0
Ends P (done a) = P a
Ends P crashed = Unit
Ends P out_of_fuel = ⊥

abbrev pub Any {ℓ} : {A : Type ℓ} → A → Type 0
Any a = Unit

pub Ends-bind {ℓ κ} :
    {A : Type ℓ} {B : Type κ} (P : A → Type 0) (Q : B → Type 0) (r : Run A) (f : A → Run B)
    → Ends P r
    → ((a : A) → P a → Ends Q (f a))
    → Ends Q (r >>= f)
Ends-bind P Q (done a) f h k = k a h
Ends-bind P Q crashed f h k = tt
Ends-bind P Q out_of_fuel f h k = h

pub Ends-if {ℓ} :
    {A : Type ℓ} (P : A → Type 0) (r q : Run A) (b : Bool)
    → Ends P r
    → Ends P q
    → Ends P (if b then r else q)
Ends-if P r q true h k = h
Ends-if P r q false h k = k

-- No more attributes than `n`.
abbrev pub IsNarrow : ℕ → Bool × Tree → Type 0
IsNarrow n r = width (r.1).atts ≤ n

abbrev pub IsEnding : Pass → Type 0
IsEnding p = (t : Tree) → Ends Any (p t)

pub width-put : (k : Text) (v : Value) (fs : Fields) → width (put k v fs) ≤ suc (width fs)
unfolding width put
width-put k v end = omega arith
width-put k v (field j w fs) = ground (arith, width-put k v fs)

pub width-bump : (fs : Fields) → width (bump fs) ≡ width fs
unfolding width bump
width-bump end = refl
width-bump (field k v fs) = omega (arith, width-bump fs)

pub run_passes-Ends : (ps : List Pass) → All IsEnding ps → IsEnding (run_passes ps)
unfolding run_passes
run_passes-Ends [] a t = tt
run_passes-Ends (p ∷ ps) a t = Ends-bind Any Any (p t) _ (a.0 t) (λ r h.
    Ends-bind Any Any (run_passes ps r.1) (λ q. done (r.0 || q.0, q.1)) (run_passes-Ends ps a.1 r.1)
      (λ q k. tt))

module _ (tools : Tools) where
  l_to_tree-Ends : (line : Value) (fs : Fields) → Ends Any (l_to_tree tools line fs)
  unfolding l_to_tree
  l_to_tree-Ends line end = tt
  l_to_tree-Ends line (field k v end) = tt
  l_to_tree-Ends line (field k v (field j w fs)) = tt

  trees_of-Ends : (line : Value) (gs : List Fields) → Ends Any (trees_of tools line gs)
  unfolding trees_of
  trees_of-Ends line [] = tt
  trees_of-Ends line (g ∷ gs) =
      Ends-bind Any Any (l_to_tree tools line g) _ (l_to_tree-Ends line g) (λ v h.
        Ends-bind Any Any (trees_of tools line gs) (λ vs. done (cons v vs)) (trees_of-Ends line gs)
          (λ vs k. tt))

  rewrite_pinfix-Ends : (op : Text) → IsEnding (rewrite_pinfix tools op)
  unfolding rewrite_pinfix rewrite_infix rewrite_prefix
  rewrite_pinfix-Ends op t =
      let x = groups tools op t.atts in
      Ends-bind Any Any (rewrite_infix tools op t) _
        (Ends-if _ _ _ (has_op tools op t.atts)
          (Ends-bind Any Any (trees_of tools t.line (field [] t.head x.0 ∷ x.1)) _
            (trees_of-Ends t.line (field [] t.head x.0 ∷ x.1)) (λ cs h. tt))
          tt)
        (λ r h. by_flag r)
    where
      by_flag :
          (r : Bool × Tree)
          → Ends Any (elim r.0 as (λ _. Run (Bool × Tree)) [
            | true ↦ done r
            | false ↦ rewrite_prefix tools op r.1
          ])
      by_flag (true, t) = tt
      by_flag (false, t) = Ends-if _ _ _ (says tools t.head op && no_items tools t.children) tt tt

  pub operator_passes-Ends : (ops : List String) → All IsEnding (operator_passes tools ops)
  operator_passes-Ends [] =
      (λ t. unfold rewrite_parens in Ends-if _ _ _ (has_tree tools t.atts) tt tt, tt)
  operator_passes-Ends (op ∷ ops) = (rewrite_pinfix-Ends (codes op), operator_passes-Ends ops)

  front-Ends :
      (line : Value) (fs : Fields) (r : Run Items)
      → Ends Any r
      → Ends Any (r >>= λ cs. (l_to_tree tools line fs >>= λ v. done (cons v cs)))
  front-Ends line fs r h =
      Ends-bind Any Any r _ h
        (λ cs k. Ends-bind Any Any (l_to_tree tools line fs) _ (l_to_tree-Ends line fs) (λ v j. tt))

  pub rewrite_head_if-Ends : IsEnding (rewrite_head_if tools)
  unfolding rewrite_head_if if_children
  rewrite_head_if-Ends t =
      let p = parts tools cond_part t.atts in
      Ends-if _ _ _ (heads_if tools t.head)
        (Ends-bind Any Any (if_children tools t.line p t.children) _
          (Ends-if _ _ _ (ltb 0 (width p.cond))
            (front-Ends t.line p.cond _ (
              Ends-if _ _ _ (ltb 0 (width p.then_))
                (front-Ends t.line (shift p.then_) _ (
                  Ends-if _ _ _ (ltb 0 (width p.else_))
                    (front-Ends t.line (shift p.else_) (done t.children) tt) tt))
                tt))
            tt)
          (λ cs h. tt))
        tt

  pub rewrite_set-Ends : IsEnding (rewrite_set tools)
  unfolding rewrite_set
  rewrite_set-Ends t =
      Ends-if _ _ _
        (says tools t.head (codes "set") && (ltb 0 (width t.atts) && not (ltb 0 (size t.children))))
        tt tt
