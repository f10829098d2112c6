-- ===== src/Executor.antt =====
-- src/fl_executor.c: the executor of one execution. It takes messages off its list, one at a time:
-- an `execute` makes a node and runs its instruction, a `receive` or `cancel` goes to the node that
-- is there, and a node that is over answers its parent and goes. flon_rewrite_tree and what stands
-- in `Others` are parameters; so is what the directory var/spool/exe/ holds at each scan.
pub mod Numbers
pub mod Lives
pub mod Names
pub mod Tests
use flon.Base.{
  ℕ, zero, suc, ◌+◌, Bool, true, false, ◌&&◌, ◌||◌, Option, none, some, List, [], ◌∷◌, ◌++◌, ◌==◌,
  if◌then◌else◌, is_some,
}
use flon.Base.Text.{Text, codes, text_eq, before, has_prefix, strip_prefix}
use flon.Base.Lists.{length}
use flon.Ids.{Grammar, text_or, dash}
use flon.Json.{Value, arr}
use flon.State.{
  Node, Msg, empty_msg, Exec, find_node, update_node, set_node, remove_node, queue_msg, do_log,
  move_to_processed, move_to_rejected, new_node, starts_with_byte,
}
use flon.State.Tree.{flon_node_tree, flon_parent_nid}
use flon.Inst.{Reply, Outcome}
use flon.Inst.Table.{Dir, execute, receive, cancel, Others, call_instruction}

-- flon_rewrite_tree(node, msg): the node and the message with their new trees
abbrev pub Rewriter : Type 0
Rewriter = Exec → Node → Msg → Node × Msg

-- `tree == NULL || tree->type != 'a'`
abbrev pub array_or_none : Option Value → Option Value
array_or_none (some (arr vs)) = some (arr vs)
array_or_none _ = none

abbrev pub first_some : Option Value → Option Value → Option Value
first_some none w = w
first_some (some v) w = some v

abbrev pub last_of : List Value → Option Value
last_of [] = none
last_of (x ∷ []) = some x
last_of (x ∷ (y ∷ l)) = last_of (y ∷ l)

-- `errors.-1`
abbrev pub last_error : Option Node → Option Value
last_error none = none
last_error (some v) = elim v.errors [ none ↦ none | some l ↦ last_of l ]

abbrev pub nid_or_root : Msg → Text
nid_or_root m = text_or m.nid (codes "0")

-- The message about a node that failed.
abbrev pub queue_failed : Text → Option Text → Reply → Exec
queue_failed nid parent r =
    queue_msg (codes "failed") nid parent
      (record empty_msg { payload = r.msg.payload; error = last_error (find_node r.state nid) })
      r.state

-- What handle_execute does with the instruction's answer.
unfoldable pub after_execute : Text → Option Text → Reply → Exec
after_execute nid parent r = elim r.outcome [
  | Outcome.over ↦
      queue_msg (codes "receive") nid (some nid) (record empty_msg { payload = r.msg.payload })
        r.state
  | Outcome.ok ↦ r.state
  | _ ↦ queue_failed nid parent r
]

-- The message that tells of a node that is over.
unfoldable pub queue_over : Text → Reply → Exec
queue_over nid r = elim (flon_parent_nid r.state nid) [
  | some parent ↦
      queue_msg (codes "receive") parent (some nid) (record empty_msg { payload = r.msg.payload })
        r.state
  | none ↦
      queue_msg (if text_eq nid (codes "0") then codes "terminated" else codes "ceased") nid none
        (record empty_msg { payload = r.msg.payload }) r.state
]

-- What handle_return does with the instruction's answer.
unfoldable pub after_return : Text → Option Text → Reply → Exec
unfolding queue_over
after_return nid parent r = elim r.outcome [
  | Outcome.over ↦ remove_node nid (queue_over nid r)
  | Outcome.ok ↦ r.state
  | _ ↦ queue_failed nid parent r
]

-- The end of both handlers.
abbrev pub close_msg : Option Text → Msg → Exec → Exec
close_msg fname m s = do_log m (move_to_processed fname s)

-- `if (parent_nid == NULL && strcmp(nid, "0") == 0)`
abbrev pub queue_launched : Text → Msg → Exec → Exec
queue_launched nid m s =
    if text_eq nid (codes "0")
    then elim m.parent [
      | none ↦ queue_msg (codes "launched") nid none (record empty_msg { payload = m.payload }) s
      | some p ↦ s
    ]
    else s

module _ (g : Grammar) (o : Others) (rewrite : Rewriter) where
  -- handle_execute behind the creation of the node: rewrite, tell of the launch, run
  unfoldable pub run_new : Text → Exec → Node → Msg → Reply
  run_new nid s node m =
      let (node', m') = rewrite s node m in
      call_instruction g o execute (queue_launched nid m (update_node nid (λ v. node') s)) node' m'

  -- handle_execute(order, msg)
  unfoldable pub handle_execute : Exec → Msg → Exec
  unfolding run_new after_execute
  handle_execute s m =
      let nid = nid_or_root m in
      elim (first_some (array_or_none m.tree) (flon_node_tree s nid)) [
        | none ↦ move_to_rejected m.fname (codes "tree not found") s
        | some tree ↦
            let node = new_node m nid m.parent tree in
            let r = run_new nid (set_node nid node s) node (record m { tree = some tree }) in
            close_msg m.fname r.msg (after_execute nid m.parent r)
      ]

  -- handle_return(order, msg)
  unfoldable pub handle_return : Dir → Exec → Msg → Exec
  unfolding after_return
  handle_return dir s m =
      let nid = nid_or_root m in
      elim (find_node s nid) [
        | none ↦ move_to_rejected m.fname (codes "node not found") s
        | some node ↦
            let r = call_instruction g o dir s node m in
            close_msg m.fname r.msg (after_return nid m.parent r)
      ]

  -- reject_or_discard_msg(point, msg)
  unfoldable pub reject_or_discard_msg : Exec → Msg → Exec
  reject_or_discard_msg s m = elim m.fname [
    | none ↦ s
    | some f ↦ move_to_rejected (some f) (codes "no 'point' key") s
  ]

  -- A message by the first byte of its point; handle_event only logs it.
  unfoldable pub handle : Exec → Msg → Exec
  unfolding reject_or_discard_msg
  handle s m = elim m.point [
    | none ↦ reject_or_discard_msg s m
    | some p ↦ elim p [
      | [] ↦ reject_or_discard_msg s m
      | c ∷ t ↦
          if c == b'e'
          then handle_execute s m
          else if c == b'r'
          then handle_return receive s m
          else if c == b'c'
          then handle_return cancel s m
          else do_log m s
    ]
  ]

  -- The inner loop of execute(), at most so many messages.
  unfoldable pub run_row : ℕ → Exec → Exec
  run_row zero s = s
  run_row (suc k) s = elim s.msgs [
    | [] ↦ s
    | m ∷ ms ↦ run_row k (handle (record s { msgs = ms }) m)
  ]

  abbrev pub row_size : ℕ
  row_size = 7

  -- The loop of execute(): `scan i` is what load_msgs() finds at the i-th scan. `none` means that
  -- the fuel ran out.
  unfoldable pub execute_loop : (ℕ → List Msg) → ℕ → ℕ → Exec → Option Exec
  unfolding run_row
  execute_loop scan i zero s = none
  execute_loop scan i (suc fuel) s =
      let loaded = record s { msgs = s.msgs ++ scan i } in
      elim loaded.msgs [
        | [] ↦ some loaded
        | m ∷ ms ↦ execute_loop scan (i + 1) fuel (run_row row_size loaded)
      ]

  -- The loop of flon_execut: until a message about the end of the execution comes up, or none is
  -- left. The outer `none` means that the fuel ran out.
  unfoldable pub transient_loop : ℕ → Exec → Option (Option Msg)
  transient_loop zero s = none
  transient_loop (suc fuel) s = elim s.msgs [
    | [] ↦ some none
    | m ∷ ms ↦
        let rest = record s { msgs = ms } in
        let point = text_or m.point [] in
        elim (starts_with_byte b'e' point) [
          | true ↦ transient_loop fuel (handle_execute rest m)
          | false ↦ elim (starts_with_byte b'r' point) [
            | true ↦ transient_loop fuel (handle_return receive rest m)
            | false ↦ elim (starts_with_byte b't' point) [
              | true ↦ some (some m)
              | false ↦ transient_loop fuel rest
            ]
          ]
        ]
  ]

-- The state that flon_execut starts from.
abbrev pub blank : Exec
blank = record {
  nodes = [];
  msg_counter = 0;
  counter = 0;
  msgs = [];
  msg_log = none;
  orders = [];
  locked = λ nid. false;
  processed = [];
  rejected = [];
}

-- flon_execut(domain, tree, payload, vars)
unfoldable pub flon_execut :
    Grammar → Others → Rewriter → ℕ → Value → Option Value → Option Value → Option (Option Msg)
unfolding transient_loop
flon_execut g o rewrite fuel tree payload vars = transient_loop g o rewrite fuel (record blank {
  msgs =
      record empty_msg {
        point = some (codes "execute");
        tree = some tree;
        payload = payload;
        vars = vars;
      }
      ∷ [];
})

-- `n[4 + l] == '.' || n[4 + l] == '-'`, and what stands before it is the id of the execution
abbrev pub of_execution : Text → Option Text → Bool
of_execution exid none = false
of_execution exid (some n) = elim (strip_prefix exid n) [
  | none ↦ false
  | some [] ↦ false
  | some (c ∷ t) ↦ c == b'.' || c == b'-'
]

-- name_matches(n), for the id of the execution. The C code reads past the end of a name that is
-- shorter than the id; here that name does not match.
unfoldable pub name_matches : Text → Text → Bool
name_matches exid n =
    of_execution exid (strip_prefix (codes "exe_") n)
    || (of_execution exid (strip_prefix (codes "rcv_") n)
        || (of_execution exid (strip_prefix (codes "tsk_") n)
            || of_execution exid (strip_prefix (codes "can_") n)))

-- Where persist() leaves the files of an execution: under var/run/, or in the archive once it has
-- no node left.
pub data Place : Type 0 where
  run archive : Place

unfoldable pub persist : Exec → Place
persist s = elim s.nodes [ [] ↦ archive | _ ↦ run ]

-- flon_execution_domain(), of the id of the execution
unfoldable pub execution_domain : Text → Option Text
execution_domain exid = before dash exid
