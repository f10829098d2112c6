-- ===== src/Inst/Cancel.antt =====
-- The default answers of src/fl_exe_instructions.c: what an instruction does on a message if it has
-- no answer of its own (rcv_), and what every instruction does when it is cancelled (can_).
pub mod Orders
use mathlib.Core.List.{map}
use flon.Base.{
  ℕ, zero, suc, ◌+◌, Bool, true, false, ◌||◌, Option, none, some, List, [], ◌∷◌, ltb, if◌then◌else◌,
}
use flon.Base.Text.{Text, codes}
use flon.Base.Lists.{length}
use flon.State.{Node, Timer, Msg, empty_msg, Exec, update_node, queue_msg, unschedule_msg}
use flon.Inst.{Reply, reply, over, ok}

-- `timers.i.cancelled` or `timers.i.triggered` is there
abbrev pub is_spent : Timer → Bool
is_spent t = t.cancelled || t.triggered

abbrev pub timer_type : Timer → Text
timer_type t = if t.is_cron then codes "cron" else codes "at"

-- unschedule_timer(type, ts, node, i) marks the timer, if it is not spent.
unfoldable pub mark_cancelled : Timer → Timer
mark_cancelled t = if is_spent t then t else record t { cancelled = true }

-- The unschedule messages of the loop of unschedule_timers.
unfoldable pub unschedule_loop : Text → List Timer → Exec → Exec
unschedule_loop nid [] s = s
unschedule_loop nid (t ∷ ts) s =
    unschedule_loop nid ts (if is_spent t then s else unschedule_msg (timer_type t) t.ts nid s)

-- unschedule_timers(node, msg)
unfoldable pub unschedule_timers : Node → Exec → Exec
unfolding mark_cancelled unschedule_loop
unschedule_timers node s = elim node.timers [
  | none ↦ s
  | some ts ↦
      update_node node.nid (λ v. record v { timers = some (map mark_cancelled ts) })
        (unschedule_loop node.nid ts s)
]

-- The loop of cancel_dependents.
unfoldable pub cancel_loop : Text → List Text → Exec → Exec
cancel_loop nid [] s = s
cancel_loop nid (c ∷ cs) s =
    cancel_loop nid cs (queue_msg (codes "cancel") c (some nid) empty_msg s)

-- The children or bastards of a node that has none: 0.
abbrev pub dependents : Option (List Text) → List Text
dependents none = []
dependents (some l) = l

-- cancel_dependents(node, type), on the array of that type; its size is returned too
unfoldable pub cancel_dependents : Node → Option (List Text) → Exec → Exec × ℕ
unfolding cancel_loop
cancel_dependents node array s =
    (cancel_loop node.nid (dependents array) s, length (dependents array))

-- rcv_(node, rcv)
unfoldable pub rcv_ : Exec → Node → Msg → Reply
unfolding unschedule_timers cancel_dependents
rcv_ s node m =
    let (s', count) = cancel_dependents node node.bastards (unschedule_timers node s) in
    reply (if ltb 0 count then ok else over) s' m

-- can_(node, can)
unfoldable pub can_ : Exec → Node → Msg → Reply
unfolding unschedule_timers cancel_dependents
can_ s node m =
    let s0 = update_node node.nid (λ v. record v { status = some (codes "cancelling") }) s in
    let (s1, children) = cancel_dependents node node.children s0 in
    let (s2, bastards) = cancel_dependents node node.bastards s1 in
    reply (if ltb 0 (children + bastards) then ok else over) (unschedule_timers node s2) m
