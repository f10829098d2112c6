-- ===== src/Inst/Tests.antt =====
-- Runs of the instructions, and instances of the theorems about them.
use mathlib.Core.List.Perm
use flon.Base.{
  ℕ, zero, suc, ◌+◌, ◌≡◌, ◌≢◌, ◌↔◌, refl, arith, true, false, Option, none, some, List, [], ◌∷◌,
  ◌++◌, ltb, ◌≤◌, inl, is_some, String, ◌*◌, ◌/◌, ◌%◌,
}
use flon.Base.Text.{Text, codes, text_eq}
use flon.Ids.{nid_child, nid_index}
use flon.Ids.Tests.{cut_at_dash, cut_at_dash-ParsesNids, root_IsNode}
use flon.Json.{Value, Items, Fields, arr, obj, num, sym, bool, nil, cons, end, field}
use flon.State.{Node, Timer, Msg, empty_msg, Exec, find_node, null_parent, set_ret}
use flon.State.Tree.{flon_node_tree}
use flon.Inst.{Outcome, over, ok}
use flon.Inst.Seq.{seq_rcv, con_exe, con_child, child_count}
use flon.Inst.Seq.Order.{GoesOn, seq_rcv_next}
use flon.Inst.Seq.Together.{
  child_orders, con_exe-orders, con_answers, con_answers-perm, nid_index-con_child,
}
use flon.Inst.Branch.{rcv_if, rcv_ife}
use flon.Inst.Branch.Choice.{Takes, rcv_if_condition, rcv_ife_condition}
use flon.Inst.Branch.Junction.{answers, answers-verdict}
use flon.Inst.Cancel.{can_, rcv_}
use flon.Inst.Cancel.Orders.{
  cancels, call_offs, filed, timers_of, can_-cancels, can_-timers, rcv_-cancels,
}

abbrev tree_with : Text → Items → Value
tree_with name children =
    arr (cons (sym name) (cons (obj end) (cons (num (codes "1")) (cons (arr children) nil))))

abbrev three : Items
three =
    cons (tree_with (codes "a") nil)
      (cons (tree_with (codes "b") nil) (cons (tree_with (codes "c") nil) nil))

abbrev pub root_node : String → Node
root_node name = record {
  nid = codes "0";
  parent = null_parent;
  inst = some (codes name);
  tree = some (tree_with (codes name) three);
  vars = some end;
  children = some (codes "0_0" ∷ codes "0_1" ∷ []);
  bastards = none;
  rets = none;
  errors = none;
  status = none;
  timers = some (
      record { is_cron = false; ts = codes "2016"; cancelled = false; triggered = false }
      ∷ record { is_cron = true; ts = codes "* *"; cancelled = false; triggered = false }
      ∷ []);
  wars = none;
  map = none;
  task = none;
}

abbrev pub state_with : Node → Exec
state_with v = record {
  nodes = (codes "0", v) ∷ [];
  msg_counter = 4;
  counter = 0;
  msgs = [];
  msg_log = some [];
  orders = [];
  locked = λ nid. false;
  processed = [];
  rejected = [];
}

abbrev pub from_child : ℕ → Value → Msg
from_child i v = record empty_msg {
  nid = some (codes "0");
  from = some (nid_child (codes "0") i);
  payload = some (obj (field (codes "ret") v end));
}

no_counter_ne : ◌≢◌ {A = Option Text} none (some (codes "0"))
no_counter_ne e = cc

seq_rcv_next_example :
    GoesOn
      (state_with (root_node "sequence"))
      (root_node "sequence")
      (from_child 1 (bool true))
      (nid_child (codes "0") 2)
      (seq_rcv cut_at_dash
        (state_with (root_node "sequence"))
        (root_node "sequence")
        (from_child 1 (bool true)))
seq_rcv_next_example =
    seq_rcv_next cut_at_dash-ParsesNids none 1 (state_with (root_node "sequence"))
      (root_node "sequence") (from_child 1 (bool true)) root_IsNode tt no_counter_ne (omega arith)
      refl refl

three_children :
    child_count (state_with (root_node "concurrence")) (root_node "concurrence") empty_msg ≡ 3
unfolding child_count flon_node_tree find_node nid_child flon.State.Tree.node_tree
    flon.State.Tree.tree_fuel flon.State.find_in text_eq flon.Base.Text.before flon.Json.at
    flon.Json.size
three_children = refl

con_exe-orders_example :
    ((con_exe (state_with (root_node "concurrence")) (root_node "concurrence") empty_msg).state.msgs
      ≡ []
        ++ child_orders (codes "0") none 0 4 (
            child_count (state_with (root_node "concurrence")) (root_node "concurrence") empty_msg))
    × (((con_exe (state_with (root_node "concurrence")) (root_node "concurrence") empty_msg).outcome
          ≡ over)
        ↔ (child_count (state_with (root_node "concurrence")) (root_node "concurrence") empty_msg
            ≡ 0))
con_exe-orders_example =
    con_exe-orders (state_with (root_node "concurrence")) (root_node "concurrence") empty_msg
      root_IsNode (omega (arith, three_children))

con_answers-perm_example :
    con_answers
      (codes "0")
      (from_child 1 (bool true) ∷ from_child 0 (bool true) ∷ [])
      (state_with (root_node "concurrence"))
    ≡ ok ∷ over ∷ []
unfolding find_node nid_child flon.State.find_in text_eq flon.Base.Text.before flon.Base.Hex.hex
con_answers-perm_example =
    con_answers-perm (codes "0") (from_child 1 (bool true) ∷ from_child 0 (bool true) ∷ [])
      (state_with (root_node "concurrence")) (root_node "concurrence")
      (codes "0_0" ∷ codes "0_1" ∷ []) refl refl refl (refl, (refl, tt))
      (Perm.swap (codes "0_0") (codes "0_1") [])

nid_index-con_child_example : nid_index (con_child (codes "0") 10) ≡ 10 / 10 * 16 + 10 % 10
nid_index-con_child_example = nid_index-con_child (codes "0") 10 (omega arith) (omega arith)

rcv_if_condition_example :
    Takes true
      (state_with (root_node "if"))
      (root_node "if")
      (from_child 0 (bool true))
      (nid_child (codes "0") 1)
      (rcv_if cut_at_dash (state_with (root_node "if")) (root_node "if") (from_child 0 (bool true)))
unfolding text_eq flon.Inst.ret_to_boolean flon.Json.get
rcv_if_condition_example =
    rcv_if_condition cut_at_dash-ParsesNids none (state_with (root_node "if")) (root_node "if")
      (from_child 0 (bool true)) root_IsNode tt no_counter_ne refl refl

rcv_ife_condition_example :
    Takes true
      (state_with (root_node "ife"))
      (root_node "ife")
      (set_ret (bool false) (from_child 0 (bool false)))
      (nid_child (codes "0") 2)
      (rcv_ife cut_at_dash
        (state_with (root_node "ife"))
        (root_node "ife")
        (from_child 0 (bool false)))
unfolding text_eq flon.Inst.ret_to_boolean flon.Json.get
rcv_ife_condition_example =
    rcv_ife_condition cut_at_dash-ParsesNids none (state_with (root_node "ife")) (root_node "ife")
      (from_child 0 (bool false)) root_IsNode tt no_counter_ne refl refl

three_trees :
    (j : ℕ)
    → j ≤ 2 + 1
    → is_some (flon_node_tree (state_with (root_node "or")) (nid_child (codes "0") j))
      ≡ ltb j (2 + 1)
unfolding flon_node_tree find_node nid_child flon.State.Tree.node_tree flon.State.Tree.tree_fuel
    flon.State.find_in text_eq flon.Base.Text.before flon.State.Tree.item flon.Ids.nid_parent
    flon.Base.Text.split_last flon.Base.Hex.hex flon.Base.Text.after flon.Json.at nid_index
    flon.Base.Hex.strtoll16
three_trees zero h = refl
three_trees (suc zero) h = refl
three_trees (suc (suc zero)) h = refl
three_trees (suc (suc (suc zero))) h = refl
three_trees (suc (suc (suc (suc j)))) h = absurd (omega arith)

answers-verdict_example :
    (m' : Msg) × (answers cut_at_dash
        (codes "0")
        (from_child 0 (bool false) ∷ from_child 1 (bool true) ∷ from_child 2 (bool false) ∷ [])
        (state_with (root_node "or"))
      ≡ some m')
    × (flon.State.ret m' ≡ some (bool true))
unfolding text_eq find_node flon.State.find_in flon.Inst.ret_to_boolean flon.Json.get
answers-verdict_example =
    answers-verdict cut_at_dash-ParsesNids none root_IsNode tt no_counter_ne
      (from_child 0 (bool false)) (from_child 1 (bool true) ∷ from_child 2 (bool false) ∷ []) 0 2
      (state_with (root_node "or")) (root_node "or") refl refl (omega arith) (omega arith)
      three_trees
      (
        refl,
        refl,
        (field (codes "ret") (bool false) end, refl),
        (
          refl,
          refl,
          (field (codes "ret") (bool true) end, refl),
          (refl, refl, (field (codes "ret") (bool false) end, refl), tt),
        ),
      )

can_-cancels_example :
    ((can_ (state_with (root_node "if")) (root_node "if") empty_msg).state.msgs
      ≡ [] ++ cancels (codes "0") ((codes "0_0" ∷ codes "0_1" ∷ []) ++ []) 4)
    × (((can_ (state_with (root_node "if")) (root_node "if") empty_msg).outcome ≡ over)
        ↔ ((codes "0_0" ∷ codes "0_1" ∷ []) ++ [] ≡ []))
can_-cancels_example = can_-cancels (state_with (root_node "if")) (root_node "if") empty_msg

rcv_-cancels_example :
    ((rcv_ (state_with (root_node "if")) (root_node "if") empty_msg).state.msgs
      ≡ [] ++ cancels (codes "0") [] 4)
    × (((rcv_ (state_with (root_node "if")) (root_node "if") empty_msg).outcome ≡ over)
        ↔ (◌≡◌ {A = List Text} [] []))
    × ((rcv_ (state_with (root_node "if")) (root_node "if") empty_msg).state.orders
        ≡ filed
            (state_with (root_node "if"))
            (codes "0")
            (call_offs (codes "0") (timers_of (some (root_node "if")))))
rcv_-cancels_example = rcv_-cancels (state_with (root_node "if")) (root_node "if") empty_msg

can_-timers_example :
    ((can_ (state_with (root_node "if")) (root_node "if") empty_msg).state.orders
      ≡ filed
          (state_with (root_node "if"))
          (codes "0")
          (call_offs (codes "0") (timers_of (some (root_node "if")))))
    × (call_offs (codes "0") (
          timers_of (
            find_node
              (can_ (state_with (root_node "if")) (root_node "if") empty_msg).state
              (codes "0")))
        ≡ [])
unfolding find_node flon.State.find_in text_eq
can_-timers_example = can_-timers (state_with (root_node "if")) (root_node "if") empty_msg refl
