-- ===== src/Inst/Seq.antt =====
-- src/n/fl_seq_con.c, and the instructions that are one of its two loops: sequence, concurrence
-- and cand. A sequence runs its children one after the other, a concurrence all at once.
pub mod Order
pub mod Together
use flon.Base.{
  ℕ, zero, suc, ◌+◌, Bool, true, false, Option, none, some, List, [], ◌∷◌, ◌++◌, ltb, ◌==◌,
  if◌then◌else◌, is_some,
}
use flon.Base.Text.{Text, codes, text_eq}
use flon.Base.Decimal.{decimal}
use flon.Ids.{Grammar, nid_child, nid_next, underscore}
use flon.Json.{Value, Items, arr, obj, at, size}
use flon.State.{Node, Msg, Exec, update_node, ret}
use flon.State.Tree.{flon_node_tree, item}
use flon.Inst.{Reply, reply, over, ok, queue_child_execute}

-- tree(node, msg)
unfoldable pub tree_of : Exec → Node → Msg → Option Value
tree_of s node m = elim m.tree [ some t ↦ some t | none ↦ flon_node_tree s node.nid ]

-- `fdja_size(v)`, how many entries an array holds
abbrev pub value_size : Option Value → ℕ
value_size (some (arr vs)) = size vs
value_size _ = 0

-- child_count(node, msg), where -1 is 0: it is only compared with 0 and 1
unfoldable pub child_count : Exec → Node → Msg → ℕ
unfolding tree_of item
child_count s node m = value_size (item (tree_of s node m) 3)

-- `fdja_splice(children, 0, 1, NULL)`: the first one goes
abbrev pub drop_first : Option (List Text) → Option (List Text)
drop_first none = none
drop_first (some []) = some []
drop_first (some (x ∷ l)) = some l

-- fdja_push does not mind nulls
abbrev pub push_value : Option Value → Option (List Value) → Option (List Value)
push_value none l = l
push_value (some v) none = none
push_value (some v) (some l) = some (l ++ v ∷ [])

-- The changes that seq_rcv makes to its node before it looks for the next child.
abbrev pub collected : Msg → Node → Node
collected m v = record v {
  children = drop_first v.children;
  rets = elim m.from [ none ↦ v.rets | some from ↦ push_value (ret m) v.rets ];
}

-- `from == NULL || strcmp(from, nid) == 0 ? flon_nid_child(nid, 0) : flon_nid_next(from, 1)`
unfoldable pub next_child : Grammar → Text → Msg → Option Text
next_child g nid m = elim m.from [
  | none ↦ some (nid_child nid 0)
  | some from ↦ if text_eq from nid then some (nid_child nid 0) else nid_next g from 1
]

-- seq_rcv(node, rcv)
unfoldable pub seq_rcv : Grammar → Exec → Node → Msg → Reply
seq_rcv g s node m =
    let s' = update_node node.nid (collected m) s in
    elim (next_child g node.nid m) [
      | none ↦ reply over s' m
      | some next ↦ elim (flon_node_tree s' next) [
        | none ↦ reply over s' m
        | some t ↦ reply ok (queue_child_execute next node m none none s') m
      ]
    ]

-- seq_exe(node, exe, track_ret)
unfoldable pub seq_exe : Bool → Grammar → Exec → Node → Msg → Reply
seq_exe track_ret g s node m =
    let clear =
      λ (v : Node). record v { children = some []; rets = if track_ret then some [] else v.rets } in
    let s' = update_node node.nid clear s in
    if ltb 0 (child_count s' node m) then seq_rcv g s' (clear node) m else reply over s' m

-- fdja_unpush(children, from): the first that equals it goes
unfoldable pub unpush : Text → List Text → List Text
unpush from [] = []
unpush from (x ∷ l) = let rest = unpush from l in if text_eq x from then l else x ∷ rest

abbrev pub is_empty : List Text → Bool
is_empty [] = true
is_empty (x ∷ l) = false

-- con_rcv(node, rcv); a null `from` is no child
unfoldable pub con_rcv : Exec → Node → Msg → Reply
unfolding unpush
con_rcv s node m = elim node.children [
  | none ↦ reply over s m
  | some children ↦
      let left : List Text = elim m.from [ none ↦ children | some from ↦ unpush from children ] in
      let s' = update_node node.nid (λ v. record v { children = some left }) s in
      reply (if is_empty left then over else ok) s' m
]

-- `flu_sprintf("%s_%zu", nid, i)`
abbrev pub con_child : Text → ℕ → Text
con_child nid i = nid ++ underscore ∷ decimal i

-- The loop of con_exe, over the i-th child and those behind it.
unfoldable pub con_loop : Node → Msg → ℕ → ℕ → Exec → Exec
con_loop node m i zero s = s
con_loop node m i (suc n) s =
    con_loop node m (i + 1) n (queue_child_execute (con_child node.nid i) node m none none s)

-- con_exe(node, exe)
unfoldable pub con_exe : Exec → Node → Msg → Reply
unfolding con_loop
con_exe s node m =
    let n = child_count s node m in
    if ltb n 1 then reply over s m else reply ok (con_loop node m 0 n s) m

-- exe_sequence and rcv_sequence
unfoldable pub exe_sequence : Grammar → Exec → Node → Msg → Reply
exe_sequence g s node m = seq_exe false g s node m

unfoldable pub rcv_sequence : Grammar → Exec → Node → Msg → Reply
rcv_sequence g s node m = seq_rcv g s node m

-- exe_concurrence and rcv_concurrence
unfoldable pub exe_concurrence : Exec → Node → Msg → Reply
exe_concurrence s node m = con_exe s node m

unfoldable pub rcv_concurrence : Exec → Node → Msg → Reply
rcv_concurrence s node m = con_rcv s node m

-- exe_cand and rcv_cand: an answer changes nothing, and the node goes on for ever
unfoldable pub exe_cand : Exec → Node → Msg → Reply
exe_cand s node m = con_exe s node m

unfoldable pub rcv_cand : Exec → Node → Msg → Reply
rcv_cand s node m = reply ok s m
