-- ===== src/Inst/Arith/Folds.antt =====
-- src/n/fl_n_arith.c: the folds of long longs.
use flon.Base.{
  ℕ, ◌+◌, ◌-◌, ◌%◌, ◌^◌, ◌<◌, ◌≡◌, refl, ◌∙◌, ap, arith, Bool, false, Option, none, some, List, [],
  ◌∷◌, ltb, if◌then◌else◌,
}
use flon.Base.Text.{Text, codes}
use flon.Base.Decimal.{decimal}
use flon.Ids.{Grammar, text_or}
use flon.Json.{Value, num}
use flon.State.{Node, Msg, Exec, find_node, update_node, set_ret}
use flon.Inst.{Reply, reply, Outcome, over, error}
use flon.Inst.Seq.{seq_rcv}
use flon.Inst.Table.{push_error}
use flon.Inst.Compare.{rets_of}
use flon.Inst.Arith.{
  has_double, word, print_int, fold_step, fold_loop, arith_fold_i, texts, folded, rcv_arith,
}

module _ (strtoll : Text → ℕ) (quotient : ℕ → ℕ → ℕ) where
  abbrev pub total : List Text → ℕ
  total [] = 0
  total (t ∷ l) = strtoll t + total l

  fold_loop-total :
      (r : ℕ) (l : List Text)
      → r < 2 ^ 64
      → fold_loop strtoll quotient (codes "+") r l ≡ some (word (r + total l))
  unfolding fold_loop fold_step
  fold_loop-total r [] h = ap (λ (n : ℕ). some n) (omega (arith, h))
  fold_loop-total r (t ∷ l) h =
      fold_loop-total (word (r + strtoll t)) l (omega arith) ∙ ap (λ (n : ℕ). some n) (omega arith)

  fold_loop-rest :
      (r : ℕ) (l : List Text)
      → r < 2 ^ 64
      → ((t : Text) → strtoll t < 2 ^ 64)
      → (w : ℕ) × (fold_loop strtoll quotient (codes "-") r l ≡ some w)
        × (w < 2 ^ 64)
        × (word (w + total l) ≡ r)
  unfolding fold_loop fold_step
  fold_loop-rest r [] h b = (r, refl, h, omega (arith, h))
  fold_loop-rest r (t ∷ l) h b =
      let x = fold_loop-rest (word (r + (2 ^ 64 - strtoll t))) l (omega arith) b in
      (x.0, x.1, x.2, omega (arith, x.2, x.3, b t, h))

  -- A difference of integers, and the numbers that were taken off, add up to the first number on 64
  -- bits, where strtoll gives 64 bits.
  pub arith_fold_i-difference :
      (t : Text) (l : List Text)
      → ((t : Text) → strtoll t < 2 ^ 64)
      → (w : ℕ) × (arith_fold_i strtoll quotient (codes "-") (t ∷ l) ≡ some w)
        × (w < 2 ^ 64)
        × (word (w + total l) ≡ strtoll t)
  unfolding arith_fold_i
  arith_fold_i-difference t l b = fold_loop-rest (strtoll t) l (b t) b

  arith_fold_i-total :
      (l : List Text)
      → ((t : Text) → strtoll t < 2 ^ 64)
      → arith_fold_i strtoll quotient (codes "+") l ≡ some (word (total l))
  unfolding arith_fold_i
  arith_fold_i-total [] b = refl
  arith_fold_i-total (t ∷ l) b = fold_loop-total (strtoll t) l (b t)

  print_int-word : (n : ℕ) → print_int (word n) ≡ print_int (n % 2 ^ 32)
  unfolding print_int
  print_int-word n =
      ap (λ (k : ℕ). if ltb k (2 ^ 31) then decimal k else b'-' ∷ decimal (2 ^ 32 - k))
        (omega arith)

  module _ (to_text : Value → Text) (fold_d : Text → List Text → Text) where
    folded-total :
        (node : Node) (r : Reply)
        → ((t : Text) → strtoll t < 2 ^ 64)
        → node.inst ≡ some (codes "+")
        → has_double (texts strtoll quotient to_text fold_d (rets_of (find_node r.state node.nid)))
          ≡ false
        → (let sum =
              total
                (texts strtoll quotient to_text fold_d (rets_of (find_node r.state node.nid))) in
            folded strtoll quotient to_text fold_d node r
            ≡ reply over r.state (set_ret (num (print_int (sum % 2 ^ 32))) r.msg))
    unfolding folded
    folded-total node r b i d =
        let ns = texts strtoll quotient to_text fold_d (rets_of (find_node r.state node.nid)) in
        let with_double = λ (x : Bool) (q : Option Text).
          if x
          then reply over r.state (set_ret (num (fold_d (text_or q []) ns)) r.msg)
          else with_sum node r (arith_fold_i strtoll quotient (text_or q []) ns) in
        ap (λ (x : Bool). with_double x node.inst) d
        ∙ ap (with_double false) i
        ∙ ap (with_sum node r) (arith_fold_i-total ns b)
        ∙ ap (λ (t : Text). reply over r.state (set_ret (num t) r.msg)) (print_int-word (total ns))
      where
        with_sum : Node → Reply → Option ℕ → Reply
        with_sum node r o = elim o as (λ _. Reply) [
          | some w ↦ reply over r.state (set_ret (num (print_int w)) r.msg)
          | none ↦
              reply error (update_node node.nid (push_error (codes "division by zero")) r.state)
                (set_ret (num (print_int 0)) r.msg)
        ]

    -- Once its last child has answered, an addition of numbers without a dot is over; its ret is
    -- the sum of the numbers modulo 2 ^ 32, written as an int.
    pub rcv_arith-total :
        (g : Grammar) (s : Exec) (node : Node) (m : Msg)
        → ((t : Text) → strtoll t < 2 ^ 64)
        → node.inst ≡ some (codes "+")
        → (seq_rcv g s node m).outcome ≡ over
        → has_double (
            texts strtoll quotient to_text fold_d
              (rets_of (find_node (seq_rcv g s node m).state node.nid)))
          ≡ false
        → (let r = seq_rcv g s node m in
            let sum =
              total
                (texts strtoll quotient to_text fold_d (rets_of (find_node r.state node.nid))) in
            rcv_arith strtoll quotient to_text fold_d g s node m
            ≡ reply over r.state (set_ret (num (print_int (sum % 2 ^ 32))) r.msg))
    unfolding rcv_arith
    rcv_arith-total g s node m b i o d =
        let r = seq_rcv g s node m in
        ap
          (λ (x : Outcome). elim x as (λ _. Reply) [
            | Outcome.over ↦ folded strtoll quotient to_text fold_d node r
            | _ ↦ r
          ])
          o
        ∙ folded-total node r b i d
