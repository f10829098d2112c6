-- ===== src/Inst/Extends.antt =====
-- src/n/ and src/fl_exe_instructions.c: what an operation may do to the messages and the nodes of
-- an execution.
pub mod Sequences
pub mod Decisions
pub mod Tables
use mathlib.Core.List.{append_assoc, append-nil}
use flon.Base.{
  ℕ, zero, suc, ◌+◌, ◌≡◌, refl, sym, ◌∙◌, ap, arith, Bool, true, false, Option, none, some, List,
  [], ◌∷◌, ◌++◌, if◌then◌else◌,
}
use flon.Base.Text.{Text, codes}
use flon.Base.Lists.{length, length-append}
use flon.Json.{Value}
use flon.State.{
  write_file, SchFile, order, emptied, Node, Msg, empty_msg, Exec, queue_msg, stamp, update_node,
  set_node, remove_node, unschedule_msg,
}
use flon.State.Store.{IsDistinct, update_in-IsDistinct, set_in-IsDistinct, remove_in-IsDistinct}
use flon.Inst.{Reply, queue_child_execute, push_child}

-- The numbers of the messages go on from `k`, one by one.
abbrev pub Numbered : ℕ → List Msg → Type 0
Numbered k [] = Unit
Numbered k (m ∷ ms) = (m.n ≡ some (k + 1)) × Numbered (k + 1) ms

pub Numbered-append :
    (k j : ℕ) (ms ns : List Msg)
    → j ≡ k + length ms
    → Numbered k ms
    → Numbered j ns
    → Numbered k (ms ++ ns)
Numbered-append k j [] ns e a b = let q : j ≡ k = omega arith in rw (← q) b
Numbered-append k j (m ∷ ms) ns e a b = (a.0, Numbered-append (k + 1) j ms ns (omega arith) a.1 b)

pub record Extends (s t : Exec) : Type 0 where
  pub new : List Msg
  pub added : t.msgs ≡ s.msgs ++ new
  pub numbered : Numbered s.msg_counter new
  pub counted : t.msg_counter ≡ s.msg_counter + length new
  pub distinct : IsDistinct s.nodes → IsDistinct t.nodes

-- Steps that queue nothing.
pub Extends-quiet :
    (s t : Exec)
    → t.msgs ≡ s.msgs
    → t.msg_counter ≡ s.msg_counter
    → (IsDistinct s.nodes → IsDistinct t.nodes)
    → Extends s t
Extends-quiet s t a b d = record {
  new = [];
  added = a ∙ sym (append-nil s.msgs);
  numbered = tt;
  counted = omega arith;
  distinct = d;
}

pub Extends-refl : (s : Exec) → Extends s s
Extends-refl s = Extends-quiet s s refl refl (λ d. d)

pub Extends-trans : {s t u : Exec} → Extends s t → Extends t u → Extends s u
Extends-trans {s} {t} {u} a b = record {
  new = a.new ++ b.new;
  added = b.added ∙ ap (λ (l : List Msg). l ++ b.new) a.added ∙ append_assoc s.msgs a.new b.new;
  numbered =
      Numbered-append s.msg_counter t.msg_counter a.new b.new a.counted a.numbered b.numbered;
  counted = omega (arith, a.counted, b.counted, length-append {0} a.new b.new);
  distinct = λ d. b.distinct (a.distinct d);
}

pub Extends-queue_msg :
    (type nid : Text) (from : Option Text) (m : Msg) (s : Exec)
    → Extends s (queue_msg type nid from m s)
unfolding queue_msg
Extends-queue_msg type nid from m s = record {
  new = stamp type nid from (s.msg_counter + 1) m ∷ [];
  added = refl;
  numbered = (refl, tt);
  counted = omega arith;
  distinct = λ d. d;
}

pub Extends-update_node :
    (nid : Text) (f : Node → Node) (s : Exec) → Extends s (update_node nid f s)
Extends-update_node nid f s =
    Extends-quiet s (update_node nid f s) refl refl (update_in-IsDistinct nid f s.nodes)

pub Extends-set_node : (nid : Text) (v : Node) (s : Exec) → Extends s (set_node nid v s)
Extends-set_node nid v s =
    Extends-quiet s (set_node nid v s) refl refl (set_in-IsDistinct nid v s.nodes)

pub Extends-remove_node : (nid : Text) (s : Exec) → Extends s (remove_node nid s)
Extends-remove_node nid s =
    Extends-quiet s (remove_node nid s) refl refl (remove_in-IsDistinct nid s.nodes)

pub Extends-unschedule_msg :
    (type ts nid : Text) (s : Exec) → Extends s (unschedule_msg type ts nid s)
unfolding unschedule_msg
Extends-unschedule_msg type ts nid s =
    elim s.msg_log
      as (λ o. Extends s (elim o [
        | none ↦ s
        | some l ↦ record s {
          orders =
              write_file nid
                (if s.locked nid
                  then emptied
                  else order (record { type = type; ts = ts; nid = nid }))
                s.orders;
          msg_log = some (l ++ record empty_msg { point = some (codes "unschedule") } ∷ []);
        }
      ])) [ none ↦ Extends-refl s | some l ↦ Extends-quiet s _ refl refl (λ d. d) ]

pub Extends-queue_child_execute :
    (next : Text) (node : Node) (m : Msg) (tree vars : Option Value) (s : Exec)
    → Extends s (queue_child_execute next node m tree vars s)
unfolding queue_child_execute
Extends-queue_child_execute next node m tree vars s =
    Extends-trans (Extends-queue_msg _ next (some node.nid) _ s)
      (Extends-update_node node.nid (λ v. record v { children = push_child next v.children }) _)

-- Both branches of a test.
pub Extends-if :
    (b : Bool) {s t u : Exec} → Extends s t → Extends s u → Extends s (if b then t else u)
Extends-if true a c = a
Extends-if false a c = c

-- Replies by cases of a test or of an optional value.
pub Extends-if_reply :
    (b : Bool) {s : Exec} (r q : Reply)
    → Extends s r.state
    → Extends s q.state
    → Extends s (if b then r else q).state
Extends-if_reply true r q a c = a
Extends-if_reply false r q a c = c

pub Extends-option_reply {ℓ} :
    {A : Type ℓ} (o : Option A) {s : Exec} (r : Reply) (f : A → Reply)
    → Extends s r.state
    → ((x : A) → Extends s (f x).state)
    → Extends s (elim o as (λ _. Reply) [ none ↦ r | some x ↦ f x ]).state
Extends-option_reply none r f a c = a
Extends-option_reply (some x) r f a c = c x
