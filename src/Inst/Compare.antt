-- ===== src/Inst/Compare.antt =====
-- src/n/fl_n_cmp.c: the comparisons. The children of the node are run in turn; the values that
-- they give are compared, each with the next. The printing of values, strtoll and the match of a
-- regular expression, which may leave variables and errors behind, are parameters.
pub mod Chains
pub mod Rising
pub mod Tests
use flon.Base.{
  ℕ, ◌+◌, ◌%◌, ◌^◌, Bool, true, false, not, ◌&&◌, ◌||◌, Option, none, some, List, [], ◌∷◌, ◌==◌,
  ltb, leb, if◌then◌else◌,
}
use flon.Base.Text.{Text, codes, text_eq, has_byte}
use flon.Base.Lists.{length}
use flon.Ids.{Grammar, text_or}
use flon.Json.{Value, num, bool, is_number}
use flon.State.{Node, Msg, Exec, find_node, set_ret}
use flon.Timers.{text_lt}
use flon.Inst.{Reply, reply, Outcome, over, error}
use flon.Inst.Seq.{seq_rcv, seq_exe}

-- cmp_object(op, l, r)
unfoldable pub cmp_object : Text → Text → Text → Bool
cmp_object op l r =
    if text_eq op (codes "==")
    then text_eq l r
    else if text_eq op (codes "!=")
    then not (text_eq l r)
    else if text_eq op (codes ">=")
    then not (text_lt l r)
    else if text_eq op (codes "<=")
    then not (text_lt r l)
    else if text_eq op (codes ">")
    then text_lt r l
    else if text_eq op (codes "<")
    then text_lt l r
    else false

-- A long long, kept as a number below 2 ^ 64, by its place among them.
abbrev pub place : ℕ → ℕ
place w = (w + 2 ^ 63) % 2 ^ 64

abbrev pub second_byte : Text → ℕ
second_byte (a ∷ (b ∷ t)) = b
second_byte _ = 0

-- `error_count(node)`
abbrev pub error_count : Option Node → ℕ
error_count none = 0
error_count (some v) = elim v.errors [ none ↦ 0 | some l ↦ length l ]

abbrev pub rets_of : Option Node → List Value
rets_of none = []
rets_of (some v) = elim v.rets [ none ↦ [] | some l ↦ l ]

-- rmatch(node, op, l, r)
abbrev pub Match : Type 0
Match = Exec → Node → Text → Value → Value → Exec × Bool

module _ (to_json : Value → Text) (strtoll : Text → ℕ) (rmatch : Match) where
  -- cmp_integer(op, l, r)
  unfoldable pub cmp_integer : Text → Text → Text → Bool
  cmp_integer op l r =
      let a = place (strtoll l) in
      let b = place (strtoll r) in
      if text_eq op (codes "==")
      then a == b
      else if text_eq op (codes "!=")
      then not (a == b)
      else if text_eq op (codes ">=")
      then leb b a
      else if text_eq op (codes "<=")
      then leb a b
      else if text_eq op (codes ">")
      then ltb b a
      else if text_eq op (codes "<")
      then ltb a b
      else false

  -- cmp_number(op, l, r); cmp_double says no to everything
  unfoldable pub cmp_number : Text → Text → Text → Bool
  unfolding cmp_integer
  cmp_number op l r = if has_byte b'.' l then false else cmp_integer op l r

  -- cmp(node, op, l, r), without a regular expression
  unfoldable pub cmp_values : Text → Value → Value → Bool
  unfolding cmp_number cmp_object
  cmp_values op l r =
      if is_number l && is_number r
      then cmp_number op (to_json l) (to_json r)
      else if is_number l
      then false
      else cmp_object op (to_json l) (to_json r)

  -- cmp(node, op, l, r)
  unfoldable pub cmp : Exec → Node → Text → Value → Value → Exec × Bool
  unfolding cmp_values
  cmp s node op l r =
      if second_byte op == b'~' then rmatch s node op l r else (s, cmp_values op l r)

  -- The loop of rcv_cmp: the first that does not hold ends it.
  unfoldable pub cmp_loop : Node → Text → Exec → List Value → Exec × Bool
  cmp_loop node op s [] = (s, true)
  cmp_loop node op s (x ∷ []) = (s, true)
  cmp_loop node op s (x ∷ (y ∷ l)) =
      let (s', holds) = cmp s node op x y in
      elim holds [ true ↦ cmp_loop node op s' (y ∷ l) | false ↦ (s', false) ]

  -- rcv_cmp behind its seq_rcv
  unfoldable pub compared : Node → Reply → Reply
  unfolding cmp_loop
  compared node r =
      let before = find_node r.state node.nid in
      let (s, holds) = cmp_loop node (text_or node.inst []) r.state (rets_of before) in
      reply (if ltb (error_count before) (error_count (find_node s node.nid)) then error else over)
        s (set_ret (bool holds) r.msg)

  -- rcv_cmp(node, rcv)
  unfoldable pub rcv_cmp : Grammar → Exec → Node → Msg → Reply
  unfolding compared
  rcv_cmp g s node m =
      let r = seq_rcv g s node m in elim r.outcome [ Outcome.over ↦ compared node r | _ ↦ r ]

-- exe_cmp(node, exe)
unfoldable pub exe_cmp : Grammar → Exec → Node → Msg → Reply
exe_cmp g s node m = seq_exe true g s node m
