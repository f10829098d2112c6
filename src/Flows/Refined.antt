-- ===== src/Flows/Refined.antt =====
-- src/fl_executor.c, src/n/: the executor and the instructions, with flon_rewrite_tree, against what
-- flows mean.
use flon.Base.{ℕ, suc, ◌+◌, ◌≤◌, ◌≡◌, some, none}
use flon.Base.Text.{codes}
use flon.Ids.{Grammar}
use flon.Ids.Next.{ParsesNids}
use flon.Json.{Fields, obj}
use flon.State.{Node, Exec}
use flon.Inst.Table.{Others}
use flon.Executor.{flon_execut}
use flon.Rewrite.Built.{Tools}
use flon.Rewrite.Passes.{Expander}
use flon.Flows.{Flow, flow_tree, eval, steps, Fits}
use flon.Flows.Plain.{ReadsFlows}
use flon.Flows.Rewriting.{rewriter_of, rewriter_of-KnowsFlows}
use flon.Flows.Whole.{end_of, flon_execut-KnowsFlows}

-- flon_execut, run on the tree of a flow of sequences, noops and vals with a payload, comes to its
-- end, with a message that the flow is terminated, and the payload of that is the one that the flow
-- evaluates to. This takes fuel for two messages more than the flow has steps, literal values, fewer
-- than 2 ^ 32 children in each sequence, a parse that reads node ids, and, where the tree is rewritten,
-- that symbols read as their texts, that the three heads are instructions and that expansion leaves
-- alone what has no `$`.
pub flon_execut-eval :
    (g : Grammar) (o : Others) (tools : Exec → Node → Tools) (ex : Exec → Expander) (depth fuel : ℕ)
    (f : Flow) (p : Fields)
    → ParsesNids g
    → ((s : Exec) (v : Node) → ReadsFlows (tools s v) (ex s))
    → Fits f
    → steps f + 2 ≤ fuel
    → end_of
        (flon_execut g o (rewriter_of tools ex (suc depth)) fuel (flow_tree f) (some (obj p)) none)
      ≡ some (some (codes "terminated"), some (obj (eval f p)))
flon_execut-eval g o tools ex depth fuel f p parses reads fits enough =
    flon_execut-KnowsFlows g parses o (rewriter_of tools ex (suc depth))
      (rewriter_of-KnowsFlows g o tools ex depth reads) fuel f p fits enough
