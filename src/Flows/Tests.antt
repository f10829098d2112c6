-- ===== src/Flows/Tests.antt =====
-- A flow that is run, and the theorem about it.
use flon.Base.{◌≡◌, refl, arith, true, false, ◌||◌, some, none}
use flon.Base.Text.{codes, text_eq}
use flon.Json.{Value, str, obj, bool, num, nil, end, field}
use flon.Ids.Tests.{cut_at_dash, cut_at_dash-ParsesNids}
use flon.Executor.{flon_execut}
use flon.Executor.Tests.{nothing_else, plain_text}
use flon.Rewrite.Built.{Tools}
use flon.Rewrite.Passes.{Expander}
use flon.Flows.{
  Flow, noop, val, sequence, none_left, then, count, head_of, flow_tree, eval, steps, is_literal,
  Fits,
}
use flon.Flows.Plain.{ReadsFlows}
use flon.Flows.Rewriting.{rewriter_of}
use flon.Flows.Whole.{end_of}
use flon.Flows.Refined.{flon_execut-eval}

abbrev tools : Tools
tools = record {
  clone = λ v. v;
  clone_all = λ vs. vs;
  to_text = plain_text;
  set_w = λ j line. record {
    head = Value.sym (codes "set");
    atts = field (codes "_0") (str (codes "w._")) end;
    line = line;
    children = nil;
    rest = nil;
  };
  is_known =
      λ t. text_eq (codes "noop") t || (text_eq (codes "val") t || text_eq (codes "sequence") t);
  is_callable = λ t. false;
}

-- Nothing in the flow below is to be expanded.
abbrev no_expander : Expander
no_expander = record { expand_head = λ v m w. w; expand_atts = λ v m fs. fs }

heads_known : (f : Flow) → tools.is_known (head_of f) ≡ true
unfolding head_of text_eq
heads_known (noop line) = refl
heads_known (val line v) = refl
heads_known (sequence line fs) = refl

tools-ReadsFlows : ReadsFlows tools no_expander
tools-ReadsFlows = record {
  text = λ t. refl;
  known = heads_known;
  head = λ v m t h. refl;
  no_atts = λ v m. refl;
  literal = λ v m k w h e. refl;
}

-- sequence
--   val true
--   sequence
--     noop
--     val 7
abbrev nested : Flow
nested = sequence (codes "1") (
    then (val (codes "2") (bool true)) (
      then
        (sequence (codes "3")
          (then (noop (codes "4")) (then (val (codes "5") (num (codes "7"))) none_left)))
        none_left))

nested_evaluates : eval nested end ≡ field (codes "ret") (num (codes "7")) end
unfolding eval flon.Json.put text_eq
nested_evaluates = refl

flon_execut-eval_example :
    end_of (
      flon_execut cut_at_dash nothing_else
        (rewriter_of (λ s v. tools) (λ s. no_expander) 1)
        20
        (flow_tree nested)
        (some (obj end))
        none)
    ≡ some (some (codes "terminated"), some (obj (eval nested end)))
unfolding Fits steps count is_literal
flon_execut-eval_example =
    flon_execut-eval cut_at_dash nothing_else (λ s v. tools) (λ s. no_expander) 0 20 nested end
      cut_at_dash-ParsesNids (λ s v. tools-ReadsFlows)
      ((omega arith), (refl, (((omega arith), (tt, (refl, tt))), tt))) (omega arith)
