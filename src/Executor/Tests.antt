-- ===== src/Executor/Tests.antt =====
-- Runs of the executor, and instances of the theorems.
use flon.Base.{◌↔◌, ◌⊎◌, ◌≡◌, refl, ◌∷◌, List, true, false, Option, none, some, [], String}
use flon.Base.Text.{Text, codes}
use flon.Json.{Value, Items, Fields, arr, obj, num, str, sym, bool, nil, cons, end, field}
use flon.Ids.Tests.{cut_at_dash}
use flon.State.{Node, Msg, Exec, empty_msg, new_node}
use flon.Inst.Table.{Others, call_instruction, receive}
use flon.Executor.{Rewriter, flon_execut, blank, run_row, handle_return, name_matches}
use flon.Executor.Numbers.{IsRow, run_row-IsRow}
use flon.Executor.Names.{IsOwn, name_matches_iff}
use flon.Executor.Lives.{Settled, handle_return-Settled}
use flon.Inst.Extends.Tables.{IsTameOthers}

abbrev pub plain_text : Value → Text
plain_text (sym t) = t
plain_text (str t) = t
plain_text (num t) = t
plain_text _ = []

abbrev pub nothing_else : Others
nothing_else = record { to_text = plain_text; entry = λ name. none }

abbrev head_text : Option Value → Option Text
head_text (some (arr (cons v vs))) = some (plain_text v)
head_text _ = none

-- Trees that need no rewriting: the head is the instruction.
abbrev keep_tree : Rewriter
keep_tree s node m = (record node { inst = head_text m.tree }, m)

abbrev node_of : String → Fields → Items → Value
node_of name atts children =
    arr
      (cons (sym (codes name)) (cons (obj atts) (cons (num (codes "1")) (cons (arr children) nil))))

abbrev val_of : Value → Value
val_of v = node_of "val" (field (codes "_0") v end) nil

abbrev two_vals : Value
two_vals = node_of "sequence" end (cons (val_of (bool true)) (cons (val_of (bool false)) nil))

ran : Option (Option Msg)
ran = flon_execut cut_at_dash nothing_else keep_tree 30 two_vals (some (obj end)) none

nothing_else-IsTame : IsTameOthers nothing_else
nothing_else-IsTame name e h = cc

abbrev launch : Msg
launch = record empty_msg {
  point = some (codes "execute");
  tree = some two_vals;
  payload = some (obj end);
}

abbrev start : Exec
start = record blank { msgs = launch ∷ [] }

run_row-IsRow_example :
    IsRow cut_at_dash nothing_else keep_tree nothing_else-IsTame 7 start
      (run_row cut_at_dash nothing_else keep_tree 7 start)
run_row-IsRow_example = run_row-IsRow cut_at_dash nothing_else keep_tree nothing_else-IsTame 7 start

-- The node of a val that is to hear its own answer.
abbrev waiting_val : Node
waiting_val = record (new_node empty_msg (codes "0_1") (some (codes "0")) (val_of (bool true))) {
  inst = some (codes "val");
}

abbrev with_val : Exec
with_val = record blank { nodes = (codes "0_1", waiting_val) ∷ [] }

abbrev answer : Msg
answer = record empty_msg {
  point = some (codes "receive");
  nid = some (codes "0_1");
  from = some (codes "0_1");
  payload = some (obj end);
}

handle_return-Settled_example :
    let r = call_instruction cut_at_dash nothing_else receive with_val waiting_val answer in
    Settled
      (codes "0_1")
      r
      r.outcome
      (handle_return cut_at_dash nothing_else keep_tree receive with_val answer)
unfolding flon.State.find_in flon.State.find_node flon.Base.Text.text_eq
handle_return-Settled_example =
    handle_return-Settled cut_at_dash nothing_else keep_tree receive with_val answer waiting_val
      nothing_else-IsTame (refl, tt) refl

name_matches_iff_example : (name_matches (codes "a-u0.1") (codes "exe_a-u0.1-0.json") ≡ true) ↔ (
    IsOwn (codes "a-u0.1") (codes "exe_") (codes "exe_a-u0.1-0.json")
    ⊎ (IsOwn (codes "a-u0.1") (codes "rcv_") (codes "exe_a-u0.1-0.json")
        ⊎ (IsOwn (codes "a-u0.1") (codes "tsk_") (codes "exe_a-u0.1-0.json")
            ⊎ IsOwn (codes "a-u0.1") (codes "can_") (codes "exe_a-u0.1-0.json"))))
name_matches_iff_example = name_matches_iff (codes "a-u0.1") (codes "exe_a-u0.1-0.json")
