-- ===== src/Flows/Runs.antt =====
-- src/fl_executor.c and the instructions: a flow as a child, by induction on the flow.
use flon.Base.{ℕ, ◌+◌, ◌<◌, ◌≡◌, refl, ◌∙◌, ap, arith, Option, none, some, List}
use flon.Base.Text.{Text, text_eq}
use flon.Base.Hex.{u32}
use flon.Ids.{Grammar, nid_child}
use flon.Ids.Next.{ParsesNids}
use flon.Json.{Value, Fields}
use flon.State.{Node, Parent, Exec, parent_nid}
use flon.Inst.Branch.{exe_noop, exe_val}
use flon.Inst.Table.{Others, lookup_instruction, lookup_in}
use flon.Executor.{Rewriter}
use flon.Flows.{
  Flow, Flows, noop, val, sequence, none_left, then, count, head_of, flow_tree, eval, eval_all,
  steps, steps_all, Fits, AllFit,
}
use flon.Flows.Nodes.{with_node}
use flon.Flows.Turns.{Told, Ordered, Reaches, Reaches-trans, Reaches-none}
use flon.Flows.Leaves.{Runs, KnowsFlows}
use flon.Flows.Steps.{RunsTo, leaf-RunsTo, exe_noop-AnswersAt, exe_val-AnswersAt}
use flon.Flows.Sequences.{Follows, Follows-refl, Follows-trans}
use flon.Flows.Rounds.{seq_text, TurnsTo, hears-Ordered, hears-Told}
use flon.Flows.Places.{IsFresh-self, Place, Grounded, flon_node_tree-Place, Place-Grounded}
use flon.Flows.Children.{flon_node_tree-child, child-Place}
use flon.Flows.Left.{
  LeftAt, LeftAt-all, LeftAt-here, LeftAt-next, LeftAt-count, LeftAt-below, at-count,
}
use flon.Flows.Launches.{turns_next, launch_some, launch_none}

module _ (g : Grammar) (parses : ParsesNids g) (o : Others) (rewrite : Rewriter)
    (knows : KnowsFlows g o rewrite) where
  -- The state once the last child has told the sequence.
  abbrev pub Heard : Exec → List (Text × Node) → Text → Node → Flows → Fields → ℕ → Type 0
  Heard s l nid v all p k =
      (t : Exec) × (w : Node) × (from : Text) × Reaches g o rewrite s t k
      × Told t (with_node l nid w) nid from p
      × Follows v w nid seq_text
      × TurnsTo g nid from (nid_child nid (count all))

  -- After its last child a sequence tells its parent.
  finish :
      {nid par : Text} {p : Fields} (l : List (Text × Node)) (s : Exec) (v : Node) (line : Text)
      (all : Flows) (k : ℕ)
      → count all < u32
      → Place l nid par (flow_tree (sequence line all))
      → v.parent ≡ parent_nid par
      → v.tree ≡ none
      → Heard s l nid v all p k
      → RunsTo g o rewrite s l par nid p (k + 1)
  finish {nid} l s v line all k lt place ep et (t, w, from, reached, told, c, turns) =
      let gone =
        flon_node_tree-child line all (Place-Grounded l place) t w (count all) lt
          (c.same_parent ∙ ep) (c.same_tree ∙ et) told.0
        ∙ at-count all in
      let (u, last, end) =
        hears-Told g o rewrite l t w c.w-Runs (IsFresh-self l nid place.fresh) (c.same_parent ∙ ep)
          turns gone told in
      (u, Reaches-trans g o rewrite s t u k 1 (k + 1) reached last refl, end)

  -- A child ordered and run, and what follows.
  pub Heard-after :
      {nid : Text} {p : Fields} (l : List (Text × Node)) (s t u : Exec) (v w : Node) (all : Flows)
      (j k : ℕ)
      → Reaches g o rewrite s t 1
      → Reaches g o rewrite t u j
      → Follows v w nid seq_text
      → Heard u l nid w all p k
      → Heard s l nid v all p (1 + (j + k))
  Heard-after {nid} l s t u v w all j k first run c (t', w', from, rest, told, c', turns) = (
    t',
    w',
    from,
    Reaches-trans g o rewrite s t t' 1 (j + k) (1 + (j + k)) first
        (Reaches-trans g o rewrite t u t' j k (j + k) run rest refl) refl,
    told,
    Follows-trans v w w' nid seq_text c c',
    turns,
  )

  run_noop :
      {nid par : Text} {p : Fields} (l : List (Text × Node)) (s : Exec) (line : Text)
      → Fits (noop line)
      → Place l nid par (flow_tree (noop line))
      → Ordered s l nid par p
      → RunsTo g o rewrite s l par nid (eval (noop line) p) 2
  unfolding lookup_instruction lookup_in text_eq head_of
  run_noop {nid} l s line fit place ordered =
      leaf-RunsTo g o rewrite s (noop line) exe_noop knows fit (exe_noop-AnswersAt line) refl refl
        (IsFresh-self l nid place.fresh) place.not_root (flon_node_tree-Place l s place ordered.0)
        ordered

  run_val :
      {nid par : Text} {p : Fields} (l : List (Text × Node)) (s : Exec) (line : Text) (w : Value)
      → Fits (val line w)
      → Place l nid par (flow_tree (val line w))
      → Ordered s l nid par p
      → RunsTo g o rewrite s l par nid (eval (val line w) p) 2
  unfolding lookup_instruction lookup_in text_eq head_of
  run_val {nid} l s line w fit place ordered =
      leaf-RunsTo g o rewrite s (val line w) exe_val knows fit (exe_val-AnswersAt line w) refl refl
        (IsFresh-self l nid place.fresh) place.not_root (flon_node_tree-Place l s place ordered.0)
        ordered

  mutual
    unfolding Fits AllFit eval eval_all steps steps_all

    pub run_flow :
        {nid par : Text} {p : Fields} (l : List (Text × Node)) (s : Exec) (f : Flow)
        → Fits f
        → Place l nid par (flow_tree f)
        → Ordered s l nid par p
        → RunsTo g o rewrite s l par nid (eval f p) (steps f)
    run_flow l s (noop line) fits place ordered = run_noop l s line fits place ordered
    run_flow l s (val line v) fits place ordered = run_val l s line v fits place ordered
    run_flow l s (sequence line none_left) fits place ordered =
        launch_none g parses o rewrite knows l s line fits place ordered
    run_flow {nid} l s (sequence line (then f fs)) fits place ordered =
        let all = then f fs in
        let whole = LeftAt-all all in
        let (t, w, first, child, h, ep, et) =
          launch_some g parses o rewrite knows l s line f fs fits place ordered in
        let here = Place-Grounded l place in
        let (u, run, told) =
          run_flow (with_node l nid w) t f fits.1.0
            (child-Place line all here w 0 (flow_tree f) (omega arith) ep et
              (LeftAt-here all 0 f fs whole))
            child in
        let heard =
          run_rest l u w line all 1 fs here fits.0 fits.1.1 (LeftAt-next all 0 f fs whole) h ep et
            (turns_next g parses o rewrite knows nid 0 place.node (omega arith)) told in
        finish l s w line all (1 + (steps f + steps_all fs)) fits.0 place ep et (
          Heard-after l s t u w w all (steps f) (steps_all fs) first run
            (Follows-refl w nid seq_text h) heard)

    pub run_rest :
        {nid from : Text} {p : Fields} {q : Parent} {k : Option Value} (l : List (Text × Node))
        (s : Exec) (v : Node) (line : Text) (all : Flows) (i : ℕ) (fs : Flows)
        → Grounded l nid q k (flow_tree (sequence line all))
        → count all < u32
        → AllFit fs
        → LeftAt all i fs
        → Runs v nid seq_text
        → v.parent ≡ q
        → v.tree ≡ k
        → TurnsTo g nid from (nid_child nid i)
        → Told s (with_node l nid v) nid from p
        → Heard s l nid v all (eval_all fs p) (steps_all fs)
    run_rest {nid} {from} l s v line all i none_left here lt fits left h ep et turns told = (
      s,
      v,
      from,
      Reaches-none g o rewrite s,
      told,
      Follows-refl v nid seq_text h,
      λ m e. turns m e ∙ ap (λ j. some (nid_child nid j)) (LeftAt-count all i left),
    )
    run_rest {nid} l s v line all i (then f fs) here lt fits left h ep et turns told =
        let below = LeftAt-below all i f fs left in
        let child_tree = LeftAt-here all i f fs left in
        let (t, w, first, child, c) =
          hears-Ordered g o rewrite l s v (flow_tree f) h (IsFresh-self l nid here.fresh) turns
            (flon_node_tree-child line all here s v i (omega arith) ep et told.0 ∙ child_tree)
            told in
        let ep' = c.same_parent ∙ ep in
        let et' = c.same_tree ∙ et in
        let (u, run, told') =
          run_flow (with_node l nid w) t f fits.0
            (child-Place line all here w i (flow_tree f) (omega arith) ep' et' child_tree) child in
        let heard =
          run_rest l u w line all (i + 1) fs here lt fits.1 (LeftAt-next all i f fs left) c.w-Runs
            ep' et' (turns_next g parses o rewrite knows nid i here.node (omega arith)) told' in
        Heard-after l s t u v w all (steps f) (steps_all fs) first run c heard
