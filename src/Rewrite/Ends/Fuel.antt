-- ===== src/Rewrite/Ends/Fuel.antt =====
-- src/n/fl_rewrite.c: the recursion of rewrite_tree through the condition behind a tree.
use flon.Base.{
  ℕ, zero, suc, ◌+◌, ◌≤◌, ◌≡◌, ◌≢◌, refl, ◌∙◌, ap, arith, Bool, true, false, not, ◌&&◌, ◌||◌, ◌⊎◌,
  Option, none, some, List, ◌∷◌, ◌==◌, if◌then◌else◌, Bool-cases, inl, inr,
}
use mathlib.Core.Path.{subst}
use flon.Base.Text.{codes, text_eq, text_eq_iff}
use flon.Json.{Value, Fields, end, field, is_stringy, put, size}
use flon.Rewrite.Built.{
  Tree, Run, done, ◌>>=◌, Pass, Tools, is_index, index_key, unshift_attribute, width, says, collect,
  call_tree,
}
use flon.Rewrite.Heads.{
  shift, turned, rewrite_head_if, rewrite_set, rewrite_as_call, copy_atts, says_at, rewrite_else_if,
  split_if, rewrite_post_if,
}
use flon.Rewrite.Passes.{run_passes, operators, operator_passes, rewrite_tree}
use flon.Rewrite.Ends.{
  Ends, Any, IsNarrow, Ends-bind, Ends-if, width-put, width-bump, run_passes-Ends,
  operator_passes-Ends, rewrite_head_if-Ends, rewrite_set-Ends,
}

-- The condition that split_if finds, and what stands behind it.
abbrev SplitNarrow : Tools → ℕ → Option (Fields × Value × Fields) → Type 0
SplitNarrow tools n none = Unit
SplitNarrow tools n (some (a, c, b)) =
    (suc (width b) ≤ n) × ((says tools c (codes "if") || says tools c (codes "unless")) ≡ true)

-- A copy of a text says the same, and if and unless are instructions.
pub record IsWellKnown (tools : Tools) : Type 0 where
  pub clone-is_stringy : (v : Value) → is_stringy (tools.clone v) ≡ is_stringy v
  pub clone-to_text :
      (v : Value) → is_stringy v ≡ true → tools.to_text (tools.clone v) ≡ tools.to_text v
  pub if_known : tools.is_known (codes "if") ≡ true
  pub unless_known : tools.is_known (codes "unless") ≡ true

module _ (tools : Tools) (ok : IsWellKnown tools) where
  says_if-known :
      (v : Value)
      → (says tools v (codes "if") || says tools v (codes "unless")) ≡ true
      → (is_stringy v ≡ true) × (tools.is_known (tools.to_text v) ≡ true)
  unfolding says
  says_if-known v h = by_text (Bool-cases (text_eq (tools.to_text v) (codes "if"))) h
    where
      by_text :
          (text_eq (tools.to_text v) (codes "if") ≡ true)
            ⊎ (text_eq (tools.to_text v) (codes "if") ≡ false)
          → ((is_stringy v && text_eq (tools.to_text v) (codes "if"))
              || (is_stringy v && text_eq (tools.to_text v) (codes "unless")))
            ≡ true
          → (is_stringy v ≡ true) × (tools.is_known (tools.to_text v) ≡ true)
      by_text (inl e) h =
          let t = (text_eq_iff (tools.to_text v) (codes "if")).0 e in
          (ground arith, ap tools.is_known t ∙ ok.if_known)
      by_text (inr e) h =
          let u : text_eq (tools.to_text v) (codes "unless") ≡ true = ground arith in
          let t = (text_eq_iff (tools.to_text v) (codes "unless")).0 u in
          (ground arith, ap tools.is_known t ∙ ok.unless_known)

  split_if-SplitNarrow : (fs : Fields) → SplitNarrow tools (width fs) (split_if tools fs)
  unfolding split_if width
  split_if-SplitNarrow end = tt
  split_if-SplitNarrow (field k v fs) =
      by_test (says tools v (codes "if") || says tools v (codes "unless")) refl (split_if tools fs)
        (split_if-SplitNarrow fs)
    where
      by_test :
          (b : Bool)
          → (says tools v (codes "if") || says tools v (codes "unless")) ≡ b
          → (o : Option (Fields × Value × Fields)) → SplitNarrow tools (width fs) o
          → SplitNarrow tools (suc (width fs)) (
              if b then some (end, v, fs) else elim o as (λ _. Option (Fields × Value × Fields)) [
                | none ↦ none
                | some (a, c, b) ↦ some (field k v a, c, b)
              ])
      by_test true e o s = (omega arith, e)
      by_test false e none s = tt
      by_test false e (some (a, c, b)) s = (omega (arith, s.0), s.1)

  collect-width : (i : ℕ) (fs acc : Fields) → width (collect tools i fs acc) ≤ width fs + width acc
  unfolding collect width
  collect-width i end acc = omega arith
  collect-width i (field k v fs) acc =
      let j = if is_index k then index_key i else k in
      omega (
        arith,
        collect-width (i + 1) fs (put j (tools.clone v) acc),
        width-put j (tools.clone v) acc,
      )

  copy_atts-width : (fs acc : Fields) → width (copy_atts tools fs acc) ≤ width fs + width acc
  unfolding copy_atts width
  copy_atts-width end acc = omega arith
  copy_atts-width (field k v fs) acc =
      omega (arith, copy_atts-width fs (put k (tools.clone v) acc), width-put k (tools.clone v) acc)

  shift-width : (fs : Fields) → width (shift fs) ≤ width fs
  unfolding width
  shift-width end = omega arith
  shift-width (field k v fs) = omega arith

  rewrite_as_call-IsNarrow :
      (t : Tree) → Ends (IsNarrow (suc (width t.atts))) (rewrite_as_call tools t)
  unfolding rewrite_as_call unshift_attribute width
  rewrite_as_call-IsNarrow t =
      let e = width-bump t.atts in
      Ends-if _ _ _ (not (is_stringy t.head)) (omega arith) (
        Ends-if _ _ _ (tools.is_known (tools.to_text t.head)) (omega arith) (
          Ends-if _ _ _ (tools.is_callable (tools.to_text t.head)) (omega (arith, e)) (
            Ends-if _ _ _ (width t.atts == 0 && size t.children == 0) (omega (arith, e))
              (omega arith))))

  -- A known instruction is left alone.
  rewrite_as_call-known :
      (t : Tree)
      → is_stringy t.head ≡ true
      → tools.is_known (tools.to_text t.head) ≡ true
      → rewrite_as_call tools t ≡ done (false, t)
  unfolding rewrite_as_call
  rewrite_as_call-known t s k = simp (s, k) refl

  rewrite_else_if-IsNarrow : (t : Tree) → Ends (IsNarrow (width t.atts)) (rewrite_else_if tools t)
  unfolding rewrite_else_if
  rewrite_else_if-IsNarrow t =
      let none_yet : width end ≡ 0 = unfold width in refl in
      Ends-if _ _ _
        (says tools t.head (codes "else") && says_at tools (codes "_0") (codes "if") t.atts)
        (omega (arith, copy_atts-width (shift t.atts) end, shift-width t.atts, none_yet))
        (omega arith)

  call_tree-narrow :
      (line c : Value) (fs : Fields) → width (call_tree tools line c fs).atts ≤ width fs
  unfolding call_tree
  call_tree-narrow line c fs =
      let none_yet : width end ≡ 0 = unfold width in refl in
      omega (arith, collect-width 0 fs end, none_yet)

  -- The pass with the recursion, for a rewriting that ends on all narrower trees that begin with
  -- if or unless.
  rewrite_post_if-Ends :
      (inner : Pass) (n : ℕ) (t : Tree)
      → width t.atts ≤ n
      → ((u : Tree)
          → suc (width u.atts) ≤ n
          → is_stringy u.head ≡ true
          → tools.is_known (tools.to_text u.head) ≡ true
          → Ends Any (inner u))
      → Ends Any (rewrite_post_if tools inner t)
  unfolding rewrite_post_if
  rewrite_post_if-Ends inner n t le k =
      by_split (split_if tools t.atts) (split_if-SplitNarrow t.atts)
    where
      by_split :
          (o : Option (Fields × Value × Fields))
          → SplitNarrow tools (width t.atts) o
          → Ends Any (elim o as (λ _. Run (Bool × Tree)) [
            | none ↦ done (false, t)
            | some (before, c, behind) ↦ inner (call_tree tools t.line c behind) >>= λ r.
                done (true, turned tools t before r.1)
          ])
      by_split none s = tt
      by_split (some (before, c, behind)) s =
          let u = call_tree tools t.line c behind in
          let known = says_if-known c s.1 in
          let text = ok.clone-to_text c known.0 in
          let narrow = call_tree-narrow t.line c behind in
          let inner-ends =
            k u (omega (arith, narrow, s.0, le))
              (unfold call_tree in ok.clone-is_stringy c ∙ known.0)
              (unfold call_tree in ap tools.is_known text ∙ known.1) in
          Ends-bind Any Any (inner u) _ inner-ends (λ r h. tt)

  -- The recursion ends on narrow trees that begin with an instruction.
  abbrev EndsBelow : ℕ → Type 0
  EndsBelow fuel =
      (u : Tree)
      → suc (width u.atts) ≤ fuel
      → is_stringy u.head ≡ true
      → tools.is_known (tools.to_text u.head) ≡ true
      → Ends Any (rewrite_tree tools fuel u)

  behind_call : ℕ → List Pass
  behind_call fuel =
      rewrite_else_if tools
      ∷ rewrite_post_if tools (rewrite_tree tools fuel)
      ∷ rewrite_head_if tools
      ∷ rewrite_set tools
      ∷ operator_passes tools operators

  behind_call-Ends :
      (fuel : ℕ)
      → EndsBelow fuel
      → (u : Tree) → width u.atts ≤ fuel
      → Ends Any (run_passes (behind_call fuel) u)
  unfolding run_passes behind_call
  behind_call-Ends fuel below u le =
      let later =
        run_passes-Ends
          (rewrite_head_if tools ∷ rewrite_set tools ∷ operator_passes tools operators)
          (
            rewrite_head_if-Ends tools,
            (rewrite_set-Ends tools, operator_passes-Ends tools operators),
          ) in
      Ends-bind (IsNarrow (width u.atts)) Any (rewrite_else_if tools u) _
        (rewrite_else_if-IsNarrow u)
        (λ r h.
          Ends-bind Any Any _ (λ q. done (r.0 || q.0, q.1))
            (Ends-bind Any Any (rewrite_post_if tools (rewrite_tree tools fuel) r.1) _
              (rewrite_post_if-Ends (rewrite_tree tools fuel) fuel r.1 (omega (arith, h, le)) below)
              (λ q k. Ends-bind Any Any _ (λ p. done (q.0 || p.0, p.1)) (later q.1) (λ p j. tt)))
            (λ q k. tt))

  -- One round, where the recursion has fuel for the attributes there are.
  one_round-Ends :
      (fuel : ℕ)
      → EndsBelow fuel
      → (t : Tree) → Ends (IsNarrow fuel) (rewrite_as_call tools t)
      → Ends Any (rewrite_tree tools (suc fuel) t)
  unfolding rewrite_tree run_passes behind_call
  one_round-Ends fuel below t narrow =
      Ends-bind (IsNarrow fuel) Any (rewrite_as_call tools t) _ narrow (λ r h.
        Ends-bind Any Any (run_passes (behind_call fuel) r.1) (λ q. done (r.0 || q.0, q.1))
          (behind_call-Ends fuel below r.1 h) (λ q k. tt))

  below-Ends : (fuel : ℕ) → EndsBelow fuel
  below-Ends zero u le s k = ground arith
  below-Ends (suc fuel) u le s k =
      let narrow : Ends (IsNarrow fuel) (rewrite_as_call tools u) =
        rw (rewrite_as_call-known u s k) (omega (arith, le)) in
      one_round-Ends fuel (below-Ends fuel) u narrow

  Ends-weaken :
      (r : Run (Bool × Tree)) (n m : ℕ) → n ≤ m → Ends (IsNarrow n) r → Ends (IsNarrow m) r
  Ends-weaken (done a) n m le h = omega (arith, h, le)
  Ends-weaken Run.crashed n m le h = tt
  Ends-weaken Run.out_of_fuel n m le h = h

  -- Rewriting a tree comes to an end: fuel for two more than its attributes is enough, as if and
  -- unless are instructions and a copy of a text says the same.
  pub rewrite_tree-Ends :
      (fuel : ℕ) (t : Tree) → width t.atts + 2 ≤ fuel → rewrite_tree tools fuel t ≢ Run.out_of_fuel
  rewrite_tree-Ends zero t le = ground arith
  rewrite_tree-Ends (suc fuel) t le =
      let ends = one_round-Ends fuel (below-Ends fuel) t (
        Ends-weaken (rewrite_as_call tools t) (suc (width t.atts)) fuel (omega (arith, le))
          (rewrite_as_call-IsNarrow t)) in
      λ e. subst (λ r. Ends Any r) e ends
