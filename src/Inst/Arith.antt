-- ===== src/Inst/Arith.antt =====
-- src/n/fl_n_arith.c: the four operations. The children of the node are run in turn, and the
-- values that they give are folded: as long longs, kept here as numbers below 2 ^ 64 that wrap
-- around, unless one of them has a dot. strtoll, the quotient of two long longs and the fold of
-- long doubles, printed, are parameters. The quotient of the least long long by -1, on which the
-- processor traps, is what the parameter says.
pub mod Folds
pub mod Tests
use flon.Base.{
  ℕ, ◌+◌, ◌-◌, ◌*◌, ◌%◌, ◌^◌, Bool, true, false, ◌||◌, Option, none, some, List, [], ◌∷◌, ◌++◌,
  ◌==◌, ltb, if◌then◌else◌,
}
use flon.Base.Text.{Text, codes, has_byte}
use flon.Base.Decimal.{decimal}
use flon.Ids.{Grammar, text_or}
use flon.Json.{Value, num}
use flon.State.{Node, Msg, Exec, find_node, update_node, set_ret, starts_with_byte}
use flon.Inst.{Reply, reply, Outcome, over, error}
use flon.Inst.Seq.{seq_rcv, seq_exe}
use flon.Inst.Table.{push_error}
use flon.Inst.Compare.{error_count, rets_of}

-- determine_type(numbers): whether one of them has a dot
unfoldable pub has_double : List Text → Bool
has_double [] = false
has_double (t ∷ l) = has_byte b'.' t || has_double l

abbrev pub word : ℕ → ℕ
word n = n % 2 ^ 64

-- `%d` of a long long: its low 32 bits, as an int
unfoldable pub print_int : ℕ → Text
print_int w =
    let n = w % 2 ^ 32 in if ltb n (2 ^ 31) then decimal n else b'-' ∷ decimal (2 ^ 32 - n)

module _ (strtoll : Text → ℕ) (quotient : ℕ → ℕ → ℕ) where
  -- One round of the loop of arith_fold_i, by the first byte of the operator; none is a division
  -- by zero.
  unfoldable pub fold_step : Text → ℕ → ℕ → Option ℕ
  fold_step op r n =
      if starts_with_byte b'+' op
      then some (word (r + n))
      else if starts_with_byte b'-' op
      then some (word (r + (2 ^ 64 - n)))
      else if starts_with_byte b'*' op
      then some (word (r * n))
      else if starts_with_byte b'/' op
      then (if n == 0 then none else some (quotient r n))
      else some r

  unfoldable pub fold_loop : Text → ℕ → List Text → Option ℕ
  unfolding fold_step
  fold_loop op r [] = some r
  fold_loop op r (t ∷ l) = elim (fold_step op r (strtoll t)) [
    | none ↦ none
    | some r' ↦ fold_loop op r' l
  ]

  -- arith_fold_i(node, op, numbers)
  unfoldable pub arith_fold_i : Text → List Text → Option ℕ
  unfolding fold_loop
  arith_fold_i op [] = some 0
  arith_fold_i op (t ∷ l) = fold_loop op (strtoll t) l

  module _ (to_text : Value → Text) (fold_d : Text → List Text → Text) where
    abbrev pub texts : List Value → List Text
    texts [] = []
    texts (v ∷ l) = to_text v ∷ texts l

    -- rcv_arith behind its seq_rcv
    unfoldable pub folded : Node → Reply → Reply
    unfolding arith_fold_i has_double print_int
    folded node r =
        let ns = texts (rets_of (find_node r.state node.nid)) in
        let op = text_or node.inst [] in
        if has_double ns
        then reply over r.state (set_ret (num (fold_d op ns)) r.msg)
        else elim (arith_fold_i op ns) [
          | some w ↦ reply over r.state (set_ret (num (print_int w)) r.msg)
          | none ↦
              reply error (update_node node.nid (push_error (codes "division by zero")) r.state)
                (set_ret (num (print_int 0)) r.msg)
        ]

    -- rcv_arith(node, rcv)
    unfoldable pub rcv_arith : Grammar → Exec → Node → Msg → Reply
    unfolding folded
    rcv_arith g s node m =
        let r = seq_rcv g s node m in elim r.outcome [ Outcome.over ↦ folded node r | _ ↦ r ]

-- exe_arith(node, exe)
unfoldable pub exe_arith : Grammar → Exec → Node → Msg → Reply
exe_arith g s node m = seq_exe true g s node m
