-- ===== src/Executor/Numbers.antt =====
-- src/fl_executor.c: what the handlers and the loop do to the list of messages and its numbers.
use mathlib.Core.List.{append_assoc, append-nil}
use flon.Base.{
  ℕ, zero, suc, ◌+◌, ◌≤◌, ◌⊎◌, inl, inr, ◌≡◌, refl, sym, ◌∙◌, ap, arith, Bool, true, false, Option,
  none, some, List, [], ◌∷◌, ◌++◌, ◌==◌, if◌then◌else◌,
}
use flon.Base.Text.{Text, codes, text_eq}
use flon.Base.Lists.{length, length-append}
use flon.Ids.{Grammar}
use flon.State.{
  Node, Msg, Exec, find_node, update_node, set_node, new_node, do_log, move_to_processed,
  move_to_rejected,
}
use flon.State.Store.{IsDistinct}
use flon.State.Tree.{flon_node_tree, flon_parent_nid}
use flon.Inst.{Reply, Outcome}
use flon.Inst.Table.{Dir, execute, receive, cancel, Others, call_instruction}
use flon.Inst.Extends.{
  Numbered, Numbered-append, Extends, Extends-quiet, Extends-refl, Extends-trans, Extends-queue_msg,
  Extends-update_node, Extends-set_node, Extends-remove_node,
}
use flon.Inst.Extends.Tables.{IsTameOthers, Extends-call_instruction}
use flon.Executor.{
  Rewriter, array_or_none, first_some, nid_or_root, queue_failed, after_execute, queue_over,
  after_return, close_msg, queue_launched, run_new, handle_execute, handle_return, handle,
  reject_or_discard_msg, run_row,
}

Extends-close_msg : (fname : Option Text) (m : Msg) (s : Exec) → Extends s (close_msg fname m s)
Extends-close_msg none m s =
    elim s.msg_log
      as (λ l.
        Extends s (elim l as (λ _. Exec) [
          | none ↦ s
          | some l ↦ record s { msg_log = some (l ++ m ∷ []) }
        ])) [ none ↦ Extends-refl s | some l ↦ Extends-quiet s _ refl refl (λ d. d) ]
Extends-close_msg (some f) m s =
    elim s.msg_log
      as (λ l. Extends s (elim l as (λ _. Exec) [
        | none ↦ move_to_processed (some f) s
        | some l ↦ record (move_to_processed (some f) s) { msg_log = some (l ++ m ∷ []) }
      ])) [
        | none ↦ Extends-quiet s _ refl refl (λ d. d)
        | some l ↦ Extends-quiet s _ refl refl (λ d. d)
      ]

Extends-move_to_rejected :
    (fname : Option Text) (reason : Text) (s : Exec) → Extends s (move_to_rejected fname reason s)
Extends-move_to_rejected fname reason s = Extends-quiet s _ refl refl (λ d. d)

Extends-queue_failed :
    (nid : Text) (parent : Option Text) (r : Reply) → Extends r.state (queue_failed nid parent r)
Extends-queue_failed nid parent r = Extends-queue_msg (codes "failed") nid parent _ r.state

-- By the answer of an instruction.
Extends-by_outcome :
    (s : Exec) {a b c d : Exec}
    → Extends s a
    → Extends s b
    → Extends s c
    → Extends s d
    → (o : Outcome)
    → Extends s (elim o as (λ _. Exec) [
      | Outcome.over ↦ a
      | Outcome.ok ↦ b
      | Outcome.error ↦ c
      | Outcome.unknown ↦ d
    ])
Extends-by_outcome s a b c d Outcome.over = a
Extends-by_outcome s a b c d Outcome.ok = b
Extends-by_outcome s a b c d Outcome.error = c
Extends-by_outcome s a b c d Outcome.unknown = d

Extends-by_option :
    {A : Type 0} (s : Exec) {a : Exec} {f : A → Exec}
    → Extends s a
    → ((x : A) → Extends s (f x))
    → (o : Option A) → Extends s (elim o as (λ _. Exec) [ none ↦ a | some x ↦ f x ])
Extends-by_option s a f none = a
Extends-by_option s a f (some x) = f x

Extends-if :
    (s : Exec) {a c : Exec}
    → Extends s a
    → Extends s c
    → (b : Bool) → Extends s (if b then a else c)
Extends-if s a c true = a
Extends-if s a c false = c

Extends-after_execute :
    (nid : Text) (parent : Option Text) (r : Reply) → Extends r.state (after_execute nid parent r)
unfolding after_execute
Extends-after_execute nid parent r =
    Extends-by_outcome r.state (Extends-queue_msg (codes "receive") nid (some nid) _ r.state)
      (Extends-refl r.state) (Extends-queue_failed nid parent r) (Extends-queue_failed nid parent r)
      r.outcome

Extends-queue_over : (nid : Text) (r : Reply) → Extends r.state (queue_over nid r)
unfolding queue_over
Extends-queue_over nid r =
    Extends-by_option r.state (Extends-queue_msg _ nid none _ r.state)
      (λ parent. Extends-queue_msg (codes "receive") parent (some nid) _ r.state)
      (flon_parent_nid r.state nid)

Extends-after_return :
    (nid : Text) (parent : Option Text) (r : Reply) → Extends r.state (after_return nid parent r)
unfolding after_return
Extends-after_return nid parent r =
    Extends-by_outcome r.state
      (Extends-trans (Extends-queue_over nid r) (Extends-remove_node nid (queue_over nid r)))
      (Extends-refl r.state) (Extends-queue_failed nid parent r) (Extends-queue_failed nid parent r)
      r.outcome

Extends-queue_launched : (nid : Text) (m : Msg) (s : Exec) → Extends s (queue_launched nid m s)
Extends-queue_launched nid m s =
    Extends-if s
      (Extends-by_option s (Extends-queue_msg (codes "launched") nid none _ s) (λ p. Extends-refl s)
        m.parent)
      (Extends-refl s) (text_eq nid (codes "0"))

module _ (g : Grammar) (o : Others) (rewrite : Rewriter) (tame : IsTameOthers o) where
  Extends-run_new :
      (nid : Text) (s : Exec) (node : Node) (m : Msg)
      → Extends s (run_new g o rewrite nid s node m).state
  unfolding run_new
  Extends-run_new nid s node m =
      let node' = (rewrite s node m).0 in
      let m' = (rewrite s node m).1 in
      let s' = update_node nid (λ v. node') s in
      Extends-trans (Extends-update_node nid (λ v. node') s) (
        Extends-trans (Extends-queue_launched nid m s')
          (Extends-call_instruction g o execute (queue_launched nid m s') node' m' tame))

  -- handle_execute only adds messages, each under the number that follows, and gives no node id
  -- a second node, whatever the rewriting of the tree does, if the instructions outside the model
  -- keep to that.
  pub Extends-handle_execute : (s : Exec) (m : Msg) → Extends s (handle_execute g o rewrite s m)
  unfolding handle_execute
  Extends-handle_execute s m =
      let nid = nid_or_root m in
      Extends-by_option s (Extends-move_to_rejected m.fname (codes "tree not found") s)
        (λ tree.
          let node = new_node m nid m.parent tree in
          let start = set_node nid node s in
          let r = run_new g o rewrite nid start node (record m { tree = some tree }) in
          Extends-trans (Extends-set_node nid node s) (
            Extends-trans (Extends-run_new nid start node (record m { tree = some tree })) (
              Extends-trans (Extends-after_execute nid m.parent r)
                (Extends-close_msg m.fname r.msg (after_execute nid m.parent r)))))
        (first_some (array_or_none m.tree) (flon_node_tree s nid))

  pub Extends-handle_return :
      (dir : Dir) (s : Exec) (m : Msg) → Extends s (handle_return g o rewrite dir s m)
  unfolding handle_return
  Extends-handle_return dir s m =
      let nid = nid_or_root m in
      Extends-by_option s (Extends-move_to_rejected m.fname (codes "node not found") s)
        (λ node.
          let r = call_instruction g o dir s node m in
          Extends-trans (Extends-call_instruction g o dir s node m tame) (
            Extends-trans (Extends-after_return nid m.parent r)
              (Extends-close_msg m.fname r.msg (after_return nid m.parent r))))
        (find_node s nid)

  Extends-reject_or_discard_msg :
      (s : Exec) (m : Msg) → Extends s (reject_or_discard_msg g o rewrite s m)
  unfolding reject_or_discard_msg
  Extends-reject_or_discard_msg s m =
      Extends-by_option s (Extends-refl s)
        (λ f. Extends-move_to_rejected (some f) (codes "no 'point' key") s) m.fname

  pub Extends-handle : (s : Exec) (m : Msg) → Extends s (handle g o rewrite s m)
  unfolding handle
  Extends-handle s m = by_point m.point
    where
      by_first :
          (c : ℕ)
          → Extends s (
              if c == b'e'
              then handle_execute g o rewrite s m
              else if c == b'r'
              then handle_return g o rewrite receive s m
              else if c == b'c'
              then handle_return g o rewrite cancel s m
              else do_log m s)
      by_first c =
          Extends-if s (Extends-handle_execute s m)
            (Extends-if s (Extends-handle_return receive s m)
              (Extends-if s (Extends-handle_return cancel s m) (Extends-close_msg none m s)
                (c == b'c'))
              (c == b'r'))
            (c == b'e')

      by_point :
          (p : Option Text)
          → Extends s (elim p as (λ _. Exec) [
            | none ↦ reject_or_discard_msg g o rewrite s m
            | some p ↦ elim p as (λ _. Exec) [
              | [] ↦ reject_or_discard_msg g o rewrite s m
              | c ∷ t ↦
                  if c == b'e'
                  then handle_execute g o rewrite s m
                  else if c == b'r'
                  then handle_return g o rewrite receive s m
                  else if c == b'c'
                  then handle_return g o rewrite cancel s m
                  else do_log m s
            ]
          ])
      by_point none = Extends-reject_or_discard_msg s m
      by_point (some []) = Extends-reject_or_discard_msg s m
      by_point (some (c ∷ t)) = by_first c

abbrev pub behind_first : List Msg → List Msg
behind_first [] = []
behind_first (m ∷ ms) = ms

-- These messages handled one after the other, each once it is off the front of the list.
unfoldable pub handling : Grammar → Others → Rewriter → List Msg → Exec → Exec
handling g o rewrite [] s = s
handling g o rewrite (m ∷ l) s =
    handling g o rewrite l (handle g o rewrite (record s { msgs = behind_first s.msgs }) m)

-- What became of the list of messages: those of `taken` were at its front, others added at its end.
pub record Progress (taken : List Msg) (s t : Exec) : Type 0 where
  pub added : List Msg
  pub queue : s.msgs ++ added ≡ taken ++ t.msgs
  pub numbered : Numbered s.msg_counter added
  pub counted : t.msg_counter ≡ s.msg_counter + length added
  pub distinct : IsDistinct s.nodes → IsDistinct t.nodes

Progress-refl : (s : Exec) → Progress [] s s
Progress-refl s = record {
  added = [];
  queue = append-nil s.msgs;
  numbered = tt;
  counted = omega arith;
  distinct = λ d. d;
}

Progress-trans :
    {k l : List Msg} {s t u : Exec} → Progress k s t → Progress l t u → Progress (k ++ l) s u
Progress-trans {k} {l} {s} {t} {u} a b = record {
  added = a.added ++ b.added;
  queue =
      sym (append_assoc s.msgs a.added b.added)
      ∙ ap (λ (l : List Msg). l ++ b.added) a.queue
      ∙ append_assoc k t.msgs b.added
      ∙ ap (λ (l : List Msg). k ++ l) b.queue
      ∙ sym (append_assoc k l u.msgs);
  numbered =
      Numbered-append s.msg_counter t.msg_counter a.added b.added a.counted a.numbered b.numbered;
  counted = omega (arith, a.counted, b.counted, length-append {0} a.added b.added);
  distinct = λ d. b.distinct (a.distinct d);
}

module _ (g : Grammar) (o : Others) (rewrite : Rewriter) (tame : IsTameOthers o) where
  Progress-handle :
      (s : Exec) (m : Msg) (ms : List Msg)
      → s.msgs ≡ m ∷ ms
      → Progress (m ∷ []) s (handle g o rewrite (record s { msgs = ms }) m)
  Progress-handle s m ms e =
      let x = Extends-handle g o rewrite tame (record s { msgs = ms }) m in
      record {
        added = x.new;
        queue = ap (λ (l : List Msg). l ++ x.new) e ∙ ap (λ (l : List Msg). m ∷ l) (sym x.added);
        numbered = x.numbered;
        counted = x.counted;
        distinct = x.distinct;
      }

  -- A row of `k` rounds: messages that were taken at the front of the list and handled in turn, `k`
  -- of them unless the list is empty before that.
  pub record IsRow (k : ℕ) (s t : Exec) : Type 0 where
    pub taken : List Msg
    pub progress : Progress taken s t
    pub handled : t ≡ handling g o rewrite taken s
    pub at_most : length taken ≤ k
    pub complete : (length taken ≡ k) ⊎ (t.msgs ≡ [])

  IsRow-none : (k : ℕ) (s : Exec) → (k ≡ 0) ⊎ (s.msgs ≡ []) → IsRow k s s
  unfolding handling
  IsRow-none k s h = record {
    taken = [];
    progress = Progress-refl s;
    handled = refl;
    at_most = omega arith;
    complete = elim h [ inl e ↦ inl (sym e) | inr e ↦ inr e ];
  }

  IsRow-next :
      (k : ℕ) (s t : Exec) (m : Msg) (ms : List Msg)
      → s.msgs ≡ m ∷ ms
      → IsRow k (handle g o rewrite (record s { msgs = ms }) m) t
      → IsRow (suc k) s t
  unfolding handling
  IsRow-next k s t m ms e r = record {
    taken = m ∷ r.taken;
    progress = Progress-trans (Progress-handle s m ms e) r.progress;
    handled =
        r.handled
        ∙ ap
            (λ (l : List Msg).
              handling g o rewrite r.taken (handle g o rewrite (record s { msgs = l }) m))
            (sym (ap behind_first e));
    at_most = omega (arith, r.at_most);
    complete = elim r.complete [ inl q ↦ inl (omega (arith, q)) | inr q ↦ inr q ];
  }

  -- A row of `k` rounds of the executor handles the first messages of its list, in the order in which
  -- they stand there, `k` of them unless the list is empty before that; no other one is taken off or
  -- lost, and those that are queued meanwhile stand at its end, each under the number that follows.
  -- No node id has two nodes afterwards if none had. This takes instructions outside the model that
  -- keep to that.
  pub run_row-IsRow : (k : ℕ) (s : Exec) → IsRow k s (run_row g o rewrite k s)
  unfolding run_row
  run_row-IsRow zero s = IsRow-none 0 s (inl refl)
  run_row-IsRow (suc k) s = by_msgs (run_row-IsRow k) s.msgs refl
    where
      by_msgs :
          ((t : Exec) → IsRow k t (run_row g o rewrite k t))
          → (l : List Msg) → s.msgs ≡ l
          → IsRow (suc k) s (elim l as (λ _. Exec) [
            | [] ↦ s
            | m ∷ ms ↦ run_row g o rewrite k (handle g o rewrite (record s { msgs = ms }) m)
          ])
      by_msgs ih [] e = IsRow-none (suc k) s (inr e)
      by_msgs ih (m ∷ ms) e =
          IsRow-next k s _ m ms e (ih (handle g o rewrite (record s { msgs = ms }) m))
