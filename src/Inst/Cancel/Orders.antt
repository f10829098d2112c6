-- ===== src/Inst/Cancel/Orders.antt =====
-- What a cancelled node sends out, and that its timers are called off once.
use mathlib.Core.List.{map, append_assoc, append-nil}
use flon.Base.{
  Bool, ℕ, ◌+◌, ◌≡◌, ◌↔◌, refl, sym, ◌∙◌, arith, is_some, Option, none, some, List, [], ◌∷◌, ◌++◌,
  if◌then◌else◌, Option-cases, inl, inr,
}
use flon.Base.Text.{Text, codes, text_eq_refl}
use flon.Base.Lists.{length}
use flon.State.{
  write_file, SchFile, order, emptied, Node, Timer, Msg, empty_msg, Exec, Order, queue_msg, stamp,
  unschedule_msg, update_node, find_node,
}
use flon.State.Store.{find_node-update_node}
use flon.Inst.{over}
use flon.Inst.Cancel.{
  is_spent, timer_type, mark_cancelled, unschedule_loop, unschedule_timers, cancel_loop, dependents,
  can_, rcv_,
}

-- One cancel message for each id, numbered from the counter on.
abbrev pub cancels : Text → List Text → ℕ → List Msg
cancels nid [] counter = []
cancels nid (c ∷ cs) counter =
    stamp (codes "cancel") c (some nid) (counter + 1) empty_msg ∷ cancels nid cs (counter + 1)

-- The unschedule orders for the timers that are neither cancelled nor triggered.
abbrev pub call_offs : Text → List Timer → List Order
call_offs nid [] = []
call_offs nid (t ∷ ts) =
    if is_spent t
    then call_offs nid ts
    else record { type = timer_type t; ts = t.ts; nid = nid } ∷ call_offs nid ts

-- What is in the file sch_ of a node once these orders were written to it, one over the other: the
-- last of them, in an execution that is logged, unless the file was emptied in vain.
abbrev pub last_order : Order → List Order → Order
last_order o [] = o
last_order o (p ∷ l) = last_order p l

abbrev pub file_of : Bool → Order → SchFile
file_of is_locked o = if is_locked then emptied else order o

abbrev pub filed : Exec → Text → List Order → List (Text × SchFile)
filed s nid [] = s.orders
filed s nid (o ∷ l) =
    if is_some s.msg_log
    then write_file nid (file_of (s.locked nid) (last_order o l)) s.orders
    else s.orders

write_file-write_file :
    (k : Text) (e f : SchFile) (l : List (Text × SchFile))
    → write_file k f (write_file k e l) ≡ write_file k f l
unfolding write_file
write_file-write_file k e f [] = ground (arith, text_eq_refl k)
write_file-write_file k e f ((j, x) ∷ l) =
    ground (arith, text_eq_refl k, write_file-write_file k e f l)

cancel_loop-msgs :
    (nid : Text) (cs : List Text) (s : Exec)
    → (cancel_loop nid cs s).msgs ≡ s.msgs ++ cancels nid cs s.msg_counter
unfolding cancel_loop queue_msg
cancel_loop-msgs nid [] s = sym (append-nil s.msgs)
cancel_loop-msgs nid (c ∷ cs) s =
    cancel_loop-msgs nid cs (queue_msg (codes "cancel") c (some nid) empty_msg s)
    ∙ append_assoc s.msgs _ _

cancel_loop-counter :
    (nid : Text) (cs : List Text) (s : Exec)
    → (cancel_loop nid cs s).msg_counter ≡ s.msg_counter + length cs
unfolding cancel_loop queue_msg
cancel_loop-counter nid [] s = omega arith
cancel_loop-counter nid (c ∷ cs) s =
    omega (arith, cancel_loop-counter nid cs (queue_msg (codes "cancel") c (some nid) empty_msg s))

unschedule_loop-msgs :
    (nid : Text) (ts : List Timer) (s : Exec) → (unschedule_loop nid ts s).msgs ≡ s.msgs
unfolding unschedule_loop unschedule_msg
unschedule_loop-msgs nid [] s = refl
unschedule_loop-msgs nid (t ∷ ts) s = ground (
  arith,
  unschedule_loop-msgs nid ts s,
  unschedule_loop-msgs nid ts (unschedule_msg (timer_type t) t.ts nid s),
)

cancels-append :
    (nid : Text) (cs ds : List Text) (counter : ℕ)
    → cancels nid (cs ++ ds) counter
      ≡ cancels nid cs counter ++ cancels nid ds (counter + length cs)
cancels-append nid [] ds counter = ground arith
cancels-append nid (c ∷ cs) ds counter = ground (arith, cancels-append nid cs ds (counter + 1))

unschedule_loop-counter :
    (nid : Text) (ts : List Timer) (s : Exec)
    → (unschedule_loop nid ts s).msg_counter ≡ s.msg_counter
unfolding unschedule_loop unschedule_msg
unschedule_loop-counter nid [] s = refl
unschedule_loop-counter nid (t ∷ ts) s = ground (
  arith,
  unschedule_loop-counter nid ts s,
  unschedule_loop-counter nid ts (unschedule_msg (timer_type t) t.ts nid s),
)

unschedule_timers-msgs :
    (node : Node) (s : Exec)
    → ((unschedule_timers node s).msgs ≡ s.msgs)
      × ((unschedule_timers node s).msg_counter ≡ s.msg_counter)
unfolding unschedule_timers
unschedule_timers-msgs node s = elim (Option-cases node.timers) [
  | inl e ↦ ground (arith, e)
  | inr (ts, e) ↦
      ground (arith, e, unschedule_loop-msgs node.nid ts s, unschedule_loop-counter node.nid ts s)
]

both_loops-msgs :
    (nid : Text) (cs bs : List Text) (s : Exec)
    → (cancel_loop nid bs (cancel_loop nid cs s)).msgs
      ≡ s.msgs ++ cancels nid (cs ++ bs) s.msg_counter
both_loops-msgs nid cs bs s =
    cancel_loop-msgs nid bs (cancel_loop nid cs s)
    ∙ rw
        (
          cancel_loop-msgs nid cs s,
          cancel_loop-counter nid cs s,
          cancels-append nid cs bs s.msg_counter,
        )
        (append_assoc s.msgs _ _)

no_length : (l l' : List Text) → (length l + length l' ≡ 0) ↔ (l ++ l' ≡ [])
no_length [] [] = ((λ e. refl), λ e. refl)
no_length [] (x ∷ l) = ((λ e. absurd (omega arith)), λ e. cc)
no_length (x ∷ l) l' = ((λ e. absurd (omega arith)), λ e. cc)

-- A cancelled node sends a cancel message to each of its children and then to each of its bastards,
-- and waits for them; it is over at once exactly if it has neither.
pub can_-cancels :
    (s : Exec) (node : Node) (m : Msg)
    → ((can_ s node m).state.msgs
        ≡ s.msgs
          ++ cancels node.nid (dependents node.children ++ dependents node.bastards) s.msg_counter)
      × (((can_ s node m).outcome ≡ over)
          ↔ (dependents node.children ++ dependents node.bastards ≡ []))
unfolding can_
can_-cancels s node m = (
  (unschedule_timers-msgs node _).0
      ∙ both_loops-msgs node.nid (dependents node.children) (dependents node.bastards) _,
  (
    λ e. (no_length (dependents node.children) (dependents node.bastards)).0 (ground arith),
    λ e. ground (arith, (no_length (dependents node.children) (dependents node.bastards)).1 e),
  ),
)

cancel_loop-frame :
    (nid : Text) (cs : List Text) (s : Exec)
    → ((cancel_loop nid cs s).nodes ≡ s.nodes)
      × ((cancel_loop nid cs s).orders ≡ s.orders)
      × ((cancel_loop nid cs s).msg_log ≡ s.msg_log)
      × ((cancel_loop nid cs s).locked ≡ s.locked)
unfolding cancel_loop queue_msg
cancel_loop-frame nid [] s = (refl, refl, refl, refl)
cancel_loop-frame nid (c ∷ cs) s =
    cancel_loop-frame nid cs (queue_msg (codes "cancel") c (some nid) empty_msg s)

-- An order of the node, written over what `os` says of its file.
filed_next :
    (s : Exec) (type ts nid : Text) (os : List Order)
    → filed (unschedule_msg type ts nid s) nid os
      ≡ filed s nid (record { type = type; ts = ts; nid = nid } ∷ os)
unfolding unschedule_msg
filed_next s type ts nid [] = ground arith
filed_next s type ts nid (o ∷ os) = ground (
  arith,
  write_file-write_file nid (file_of (s.locked nid) (record { type = type; ts = ts; nid = nid }))
      (file_of (s.locked nid) (last_order o os)) s.orders,
)

unschedule_loop-orders :
    (nid : Text) (ts : List Timer) (s : Exec)
    → (unschedule_loop nid ts s).orders ≡ filed s nid (call_offs nid ts)
unfolding unschedule_loop
unschedule_loop-orders nid [] s = refl
unschedule_loop-orders nid (t ∷ ts) s = ground (
  arith,
  unschedule_loop-orders nid ts s,
  unschedule_loop-orders nid ts (unschedule_msg (timer_type t) t.ts nid s),
  filed_next s (timer_type t) t.ts nid (call_offs nid ts),
)

call_offs-mark : (nid : Text) (ts : List Timer) → call_offs nid (map mark_cancelled ts) ≡ []
unfolding mark_cancelled
call_offs-mark nid [] = refl
call_offs-mark nid (t ∷ ts) = ground (arith, call_offs-mark nid ts)

-- The timers of a node, none where it has no such key.
abbrev pub timers_of : Option Node → List Timer
timers_of none = []
timers_of (some v) = elim v.timers [ none ↦ [] | some ts ↦ ts ]

unschedule_timers-orders :
    (node : Node) (s : Exec)
    → (unschedule_timers node s).orders
      ≡ filed s node.nid (call_offs node.nid (timers_of (some node)))
unfolding unschedule_timers
unschedule_timers-orders node s = elim (Option-cases node.timers) [
  | inl n ↦ ground (arith, n)
  | inr (ts, n) ↦ ground (arith, n, unschedule_loop-orders node.nid ts s)
]

unschedule_loop-nodes :
    (nid : Text) (ts : List Timer) (s : Exec) → (unschedule_loop nid ts s).nodes ≡ s.nodes
unfolding unschedule_loop unschedule_msg
unschedule_loop-nodes nid [] s = refl
unschedule_loop-nodes nid (t ∷ ts) s = ground (
  arith,
  unschedule_loop-nodes nid ts s,
  unschedule_loop-nodes nid ts (unschedule_msg (timer_type t) t.ts nid s),
)

unschedule_timers-spent :
    (node v : Node) (s : Exec)
    → find_node s node.nid ≡ some v
    → v.timers ≡ node.timers
    → call_offs node.nid (timers_of (find_node (unschedule_timers node s) node.nid)) ≡ []
unfolding unschedule_timers
unschedule_timers-spent node v s e q = elim (Option-cases node.timers) [
  | inl n ↦ ground (arith, n, e)
  | inr (ts, n) ↦ ground (
    arith,
    n,
    find_node-update_node (unschedule_loop node.nid ts s) node.nid
        (λ w. record w { timers = some (map mark_cancelled ts) })
        (same (unschedule_loop node.nid ts s) (unschedule_loop-nodes node.nid ts s)),
    call_offs-mark node.nid ts,
  )
]
  where
    same : (t : Exec) → t.nodes ≡ s.nodes → find_node t node.nid ≡ some v
    same t h = unfold find_node in rw h (unfold find_node in e)

filed_same :
    (s t : Exec) (nid : Text) (os : List Order)
    → t.orders ≡ s.orders
    → t.msg_log ≡ s.msg_log
    → t.locked ≡ s.locked
    → filed t nid os ≡ filed s nid os
filed_same s t nid [] a b c = a
filed_same s t nid (o ∷ os) a b c = rw (a, b, c) refl

-- The default answer to a message sends a cancel message to each of the bastards of the node, in
-- order, and to nobody else; the node is over at once exactly if it has none. Its timers that are
-- neither cancelled nor triggered are called off too, where the execution is logged: the file of the
-- node holds the order for the last of them, or nothing if it is locked, and no other file changes.
pub rcv_-cancels :
    (s : Exec) (node : Node) (m : Msg)
    → ((rcv_ s node m).state.msgs
        ≡ s.msgs ++ cancels node.nid (dependents node.bastards) s.msg_counter)
      × (((rcv_ s node m).outcome ≡ over) ↔ (dependents node.bastards ≡ []))
      × ((rcv_ s node m).state.orders
          ≡ filed s node.nid (call_offs node.nid (timers_of (some node))))
unfolding rcv_
rcv_-cancels s node m =
    let (msgs, counter) = unschedule_timers-msgs node s in
    (
      cancel_loop-msgs node.nid (dependents node.bastards) (unschedule_timers node s)
          ∙ rw (msgs, counter) refl,
      (
        λ e. sym (append-nil _) ∙ (no_length (dependents node.bastards) []).0 (ground arith),
        λ e. ground (arith, e),
      ),
      (cancel_loop-frame node.nid (dependents node.bastards) (unschedule_timers node s)).1
          ∙ unschedule_timers-orders node s,
    )

-- A cancelled node, that is in the state under its id, calls off its timers that are neither cancelled
-- nor triggered, where the execution is logged, and afterwards has no timer left to call off. But each
-- of these orders is written over the one before: the file of the node holds the one for the last
-- timer only, or nothing if it is locked. No other file changes.
pub can_-timers :
    (s : Exec) (node : Node) (m : Msg)
    → find_node s node.nid ≡ some node
    → ((can_ s node m).state.orders ≡ filed s node.nid (call_offs node.nid (timers_of (some node))))
      × (call_offs node.nid (timers_of (find_node (can_ s node m).state node.nid)) ≡ [])
unfolding can_
can_-timers s node m f = (
  unschedule_timers-orders node (two_loops s0)
      ∙ filed_same s0 (two_loops s0) node.nid _ (loops.1) (loops.2) (loops.3),
  unschedule_timers-spent node (record node { status = some (codes "cancelling") }) (two_loops s0)
      (unfold find_node in rw (loops.0) (unfold find_node in found)) refl,
)
  where
    s0 : Exec
    s0 = update_node node.nid (λ v. record v { status = some (codes "cancelling") }) s

    two_loops : Exec → Exec
    two_loops t =
        cancel_loop node.nid (dependents node.bastards)
          (cancel_loop node.nid (dependents node.children) t)

    loops :
        ((two_loops s0).nodes ≡ s0.nodes)
        × ((two_loops s0).orders ≡ s0.orders)
        × ((two_loops s0).msg_log ≡ s0.msg_log)
        × ((two_loops s0).locked ≡ s0.locked)
    loops = ground (
      arith,
      cancel_loop-frame node.nid (dependents node.bastards)
          (cancel_loop node.nid (dependents node.children) s0),
      cancel_loop-frame node.nid (dependents node.children) s0,
    )

    found : find_node s0 node.nid ≡ some (record node { status = some (codes "cancelling") })
    found = find_node-update_node s node.nid _ f
