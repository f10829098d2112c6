-- ===== src/Inst/Extends/Decisions.antt =====
-- src/n/: what the branching instructions and the default answers do to the messages.
use mathlib.Core.List.{map}
use flon.Base.{false, not, ◌&&◌, Option, none, some, List, [], ◌∷◌, ltb}
use flon.Base.Text.{Text, codes, text_eq}
use flon.Ids.{Grammar, nid_next, nid_child}
use flon.State.{Node, Timer, Msg, empty_msg, Exec, update_node, ret}
use flon.State.Tree.{flon_node_tree}
use flon.Inst.{is_msg_to_self, is_false}
use flon.Inst.Branch.{
  inst_starts, msg_children, rcv_and, run_child, rcv_if, exe_if, rcv_ife, exe_ife, rcv_else,
  exe_else,
}
use flon.Inst.Cancel.{
  is_spent, timer_type, mark_cancelled, unschedule_loop, unschedule_timers, cancel_loop, dependents,
  rcv_, can_,
}
use flon.Inst.Extends.{
  Extends, Extends-refl, Extends-trans, Extends-if, Extends-update_node, Extends-queue_msg,
  Extends-queue_child_execute, Extends-unschedule_msg, Extends-if_reply, Extends-option_reply,
}
use flon.Inst.Extends.Sequences.{Extends-seq_rcv, Extends-seq_exe}

pub Extends-rcv_and :
    (g : Grammar) (s : Exec) (node : Node) (m : Msg) → Extends s (rcv_and g s node m).state
unfolding rcv_and
Extends-rcv_and g s node m =
    Extends-if_reply (is_msg_to_self m) _ _ (Extends-seq_rcv g s node m)
      (Extends-if_reply _ _ _ (Extends-refl s) (Extends-seq_rcv g s node _))

Extends-run_child :
    (next : Option Text) (s : Exec) (node : Node) (m : Msg)
    → Extends s (run_child next s node m).state
unfolding run_child
Extends-run_child none s node m = Extends-refl s
Extends-run_child (some next) s node m =
    Extends-option_reply (flon_node_tree s next) _ _ (Extends-refl s)
      (λ t. Extends-queue_child_execute next node m none none s)

pub Extends-rcv_if :
    (g : Grammar) (s : Exec) (node : Node) (m : Msg) → Extends s (rcv_if g s node m).state
unfolding rcv_if
Extends-rcv_if g s node m = Extends-option_reply m.from _ _ (Extends-refl s) (λ from.
    Extends-if_reply (text_eq node.nid from) _ _ (Extends-refl s)
      (Extends-if_reply _ _ _ (Extends-run_child (nid_next g from 1) s node _) (Extends-refl s)))

pub Extends-exe_if : (s : Exec) (node : Node) (m : Msg) → Extends s (exe_if s node m).state
unfolding exe_if
Extends-exe_if s node m = Extends-if_reply (ltb (msg_children m) 1) _ _ (Extends-refl s) (
    Extends-if_reply (inst_starts "el" node && not (is_false (ret m))) _ _ (Extends-refl s)
      (Extends-queue_child_execute (nid_child node.nid 0) node m none none s))

pub Extends-rcv_ife :
    (g : Grammar) (s : Exec) (node : Node) (m : Msg) → Extends s (rcv_ife g s node m).state
unfolding rcv_ife
Extends-rcv_ife g s node m = Extends-option_reply m.from _ _ (Extends-refl s) (λ from.
    Extends-if_reply (not (text_eq from (nid_child node.nid 0))) _ _ (Extends-refl s)
      (Extends-run_child _ s node _))

pub Extends-exe_ife : (s : Exec) (node : Node) (m : Msg) → Extends s (exe_ife s node m).state
unfolding exe_ife
Extends-exe_ife s node m =
    Extends-if_reply (ltb (msg_children m) 1) _ _ (Extends-refl s)
      (Extends-queue_child_execute (nid_child node.nid 0) node m none none s)

pub Extends-rcv_else :
    (g : Grammar) (s : Exec) (node : Node) (m : Msg) → Extends s (rcv_else g s node m).state
unfolding rcv_else
Extends-rcv_else g s node m = Extends-option_reply m.from _ _ (Extends-refl s) (λ from.
    Extends-if_reply (text_eq node.nid from) _ _ (Extends-refl s) (Extends-seq_rcv g s node m))

pub Extends-exe_else :
    (g : Grammar) (s : Exec) (node : Node) (m : Msg) → Extends s (exe_else g s node m).state
unfolding exe_else
Extends-exe_else g s node m = Extends-if_reply (ltb (msg_children m) 1) _ _ (Extends-refl s) (
    Extends-if_reply (not (is_false (ret m))) _ _ (Extends-refl s)
      (Extends-seq_exe false g s node m))

Extends-cancel_loop : (nid : Text) (cs : List Text) (s : Exec) → Extends s (cancel_loop nid cs s)
unfolding cancel_loop
Extends-cancel_loop nid [] s = Extends-refl s
Extends-cancel_loop nid (c ∷ cs) s =
    Extends-trans (Extends-queue_msg (codes "cancel") c (some nid) empty_msg s)
      (Extends-cancel_loop nid cs _)

Extends-unschedule_loop :
    (nid : Text) (ts : List Timer) (s : Exec) → Extends s (unschedule_loop nid ts s)
unfolding unschedule_loop
Extends-unschedule_loop nid [] s = Extends-refl s
Extends-unschedule_loop nid (t ∷ ts) s =
    Extends-trans
      (Extends-if (is_spent t) (Extends-refl s) (Extends-unschedule_msg (timer_type t) t.ts nid s))
      (Extends-unschedule_loop nid ts _)

Extends-unschedule_timers : (node : Node) (s : Exec) → Extends s (unschedule_timers node s)
unfolding unschedule_timers
Extends-unschedule_timers node s =
    elim node.timers
      as (λ o. Extends s (elim o as (λ _. Exec) [
        | none ↦ s
        | some ts ↦
            update_node node.nid (λ v. record v { timers = some (map mark_cancelled ts) })
              (unschedule_loop node.nid ts s)
      ])) [
        | none ↦ Extends-refl s
        | some ts ↦
            Extends-trans (Extends-unschedule_loop node.nid ts s) (Extends-update_node node.nid _ _)
      ]

pub Extends-rcv_ : (s : Exec) (node : Node) (m : Msg) → Extends s (rcv_ s node m).state
unfolding rcv_
Extends-rcv_ s node m =
    Extends-trans (Extends-unschedule_timers node s)
      (Extends-cancel_loop node.nid (dependents node.bastards) _)

pub Extends-can_ : (s : Exec) (node : Node) (m : Msg) → Extends s (can_ s node m).state
unfolding can_
Extends-can_ s node m = Extends-trans (Extends-update_node node.nid _ s) (
    Extends-trans (Extends-cancel_loop node.nid (dependents node.children) _) (
      Extends-trans (Extends-cancel_loop node.nid (dependents node.bastards) _)
        (Extends-unschedule_timers node _)))
