-- ===== src/Inst/Compare/Chains.antt =====
-- src/n/fl_n_cmp.c: comparisons of several values.
use flon.Base.{
  ℕ, ◌≡◌, refl, sym, ◌∙◌, ap, arith, Bool, true, false, not, ◌&&◌, ◌||◌, List, [], ◌∷◌, ◌==◌, ltb,
  if◌then◌else◌,
}
use flon.Base.Text.{Text, codes, text_eq}
use flon.Ids.{Grammar, text_or}
use flon.Json.{Value, bool}
use flon.State.{Node, Msg, Exec, find_node, set_ret}
use flon.Timers.{text_lt}
use flon.Inst.{Reply, reply, Outcome, over, error}
use flon.Inst.Seq.{seq_rcv}
use flon.Inst.Compare.{
  Match, cmp_object, second_byte, error_count, rets_of, cmp_values, cmp, cmp_loop, compared,
  rcv_cmp,
}

-- Two texts are equal if neither comes before the other.
text_lt-total : (a b : Text) → (text_lt a b || text_eq a b) ≡ not (text_lt b a)
unfolding text_lt text_eq
text_lt-total [] [] = refl
text_lt-total [] (y ∷ b) = refl
text_lt-total (x ∷ a) [] = refl
text_lt-total (x ∷ a) (y ∷ b) = ground (arith, text_lt-total a b)

text_eq_comm : (a b : Text) → text_eq a b ≡ text_eq b a
unfolding text_eq
text_eq_comm [] [] = refl
text_eq_comm [] (y ∷ b) = refl
text_eq_comm (x ∷ a) [] = refl
text_eq_comm (x ∷ a) (y ∷ b) = ground (arith, text_eq_comm a b)

ltb_irrefl : (n : ℕ) → ltb n n ≡ false
ltb_irrefl n = ground arith

-- Each two that stand side by side are related.
abbrev pub adjacent : (Value → Value → Bool) → List Value → Bool
adjacent R [] = true
adjacent R (x ∷ []) = true
adjacent R (x ∷ (y ∷ l)) = R x y && adjacent R (y ∷ l)

-- The operators on what is no number agree with each other, as those of an order do.
pub cmp_object-order :
    (l r : Text)
    → (cmp_object (codes "!=") l r ≡ not (cmp_object (codes "==") l r))
      × (cmp_object (codes "<=") l r ≡ (cmp_object (codes "<") l r || cmp_object (codes "==") l r))
      × (cmp_object (codes ">=") l r ≡ (cmp_object (codes ">") l r || cmp_object (codes "==") l r))
      × (cmp_object (codes ">") l r ≡ cmp_object (codes "<") r l)
unfolding cmp_object text_eq
cmp_object-order l r = (
  refl,
  sym (text_lt-total l r),
  sym (text_lt-total r l) ∙ ap (λ b. text_lt r l || b) (text_eq_comm r l),
  refl,
)

module _ (to_json : Value → Text) (strtoll : Text → ℕ) (rmatch : Match) where
  cmp_plain :
      (s : Exec) (node : Node) (op : Text) (x y : Value)
      → (second_byte op == b'~') ≡ false
      → cmp to_json strtoll rmatch s node op x y ≡ (s, cmp_values to_json strtoll rmatch op x y)
  unfolding cmp
  cmp_plain s node op x y h =
      ap (λ b. if b then rmatch s node op x y else (s, cmp_values to_json strtoll rmatch op x y)) h

  cmp_loop-adjacent :
      (node : Node) (op : Text) (s : Exec) (l : List Value)
      → (second_byte op == b'~') ≡ false
      → cmp_loop to_json strtoll rmatch node op s l
        ≡ (s, adjacent (cmp_values to_json strtoll rmatch op) l)
  unfolding cmp_loop
  cmp_loop-adjacent node op s [] h = refl
  cmp_loop-adjacent node op s (x ∷ []) h = refl
  cmp_loop-adjacent node op s (x ∷ (y ∷ l)) h =
      ap stepped (cmp_plain s node op x y h)
      ∙ by_value (cmp_loop-adjacent node op s (y ∷ l) h) (cmp_values to_json strtoll rmatch op x y)
    where
      stepped : Exec × Bool → Exec × Bool
      stepped r = elim r.1 as (λ _. Exec × Bool) [
        | true ↦ cmp_loop to_json strtoll rmatch node op r.0 (y ∷ l)
        | false ↦ (r.0, false)
      ]

      by_value :
          cmp_loop to_json strtoll rmatch node op s (y ∷ l)
            ≡ (s, adjacent (cmp_values to_json strtoll rmatch op) (y ∷ l))
          → (b : Bool)
          → stepped (s, b) ≡ (s, b && adjacent (cmp_values to_json strtoll rmatch op) (y ∷ l))
      by_value ih true = ih
      by_value ih false = refl

  -- Once its last child has answered, a comparison other than a match is over, and tells whether
  -- each of the values that were collected relates to the next; it changes nothing else.
  pub rcv_cmp-adjacent :
      (g : Grammar) (s : Exec) (node : Node) (m : Msg)
      → (second_byte (text_or node.inst []) == b'~') ≡ false
      → (seq_rcv g s node m).outcome ≡ over
      → (let r = seq_rcv g s node m in
          rcv_cmp to_json strtoll rmatch g s node m
          ≡ reply over r.state (
              set_ret
                (bool (
                  adjacent
                    (cmp_values to_json strtoll rmatch (text_or node.inst []))
                    (rets_of (find_node r.state node.nid))))
                r.msg))
  unfolding rcv_cmp compared
  rcv_cmp-adjacent g s node m h o =
      let r = seq_rcv g s node m in
      let before = find_node r.state node.nid in
      let n = error_count before in
      let e = cmp_loop-adjacent node (text_or node.inst []) r.state (rets_of before) h in
      let answer = λ (q : Exec × Bool) (b : Bool).
        reply (if b then error else over) q.0 (set_ret (bool q.1) r.msg) in
      ap
        (λ (x : Outcome). elim x as (λ _. Reply) [
          | Outcome.over ↦ compared to_json strtoll rmatch node r
          | _ ↦ r
        ])
        o
      ∙ ap (λ (q : Exec × Bool). answer q (ltb n (error_count (find_node q.0 node.nid)))) e
      ∙ ap
          (answer (
            r.state,
            adjacent (cmp_values to_json strtoll rmatch (text_or node.inst [])) (rets_of before),
          ))
          (ltb_irrefl n)
