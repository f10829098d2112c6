-- ===== src/Inst/Extends/Tables.antt =====
-- src/fl_exe_instructions.c: what the instructions of the table do to the messages.
use flon.Base.{◌≡◌, refl, false, Option, none, some, List, [], ◌∷◌, String, Bool-cases, inl, inr}
use flon.Base.Text.{Text, codes, text_eq}
use flon.Base.Lists.{All}
use flon.Ids.{Grammar}
use flon.State.{Node, Msg, Exec, update_node}
use flon.Inst.{Reply, reply, Outcome, unknown, Instruction}
use flon.Inst.Table.{
  Dir, execute, receive, cancel, Entry, Others, entries, lookup_in, or_entry, in_dir,
  lookup_instruction, after_call, call_instruction, set_failed, push_error, unknown_instruction,
  inst_text, remove_timer, eval_catt_pre,
}
use flon.Inst.Branch.{exe_noop, exe_stall, exe_val, exe_and}
use flon.Inst.Seq.{exe_sequence, rcv_sequence, exe_concurrence, rcv_concurrence, exe_cand, rcv_cand}
use flon.Inst.Extends.{Extends, Extends-refl, Extends-trans, Extends-update_node}
use flon.Inst.Extends.Sequences.{Extends-seq_rcv, Extends-seq_exe, Extends-con_rcv, Extends-con_exe}
use flon.Inst.Extends.Decisions.{
  Extends-rcv_and, Extends-rcv_if, Extends-exe_if, Extends-rcv_ife, Extends-exe_ife,
  Extends-rcv_else, Extends-exe_else, Extends-rcv_, Extends-can_,
}

-- An instruction that only adds messages.
abbrev pub IsTame : Instruction → Type 0
IsTame i = (s : Exec) (node : Node) (m : Msg) → Extends s (i s node m).state

abbrev pub IsTameEntry : Entry → Type 0
IsTameEntry e = IsTame e.exe × IsTame e.rcv

-- What is asked of the instructions outside the model.
abbrev pub IsTameOthers : Others → Type 0
IsTameOthers o = (name : Text) (e : Entry) → o.entry name ≡ some e → IsTameEntry e

-- By the instructions that are another one.
entries-IsTameEntry : (g : Grammar) → All (λ (e : String × Entry). IsTameEntry (e.1)) (entries g)
unfolding exe_sequence rcv_sequence exe_concurrence rcv_concurrence exe_cand rcv_cand exe_noop
    exe_stall exe_val exe_and
entries-IsTameEntry g = (
  (Extends-seq_exe false g, Extends-seq_rcv g),
  (
    (Extends-con_exe, Extends-con_rcv),
    (
      (quiet, Extends-rcv_),
      (
        (quiet, Extends-rcv_),
        (
          (quiet, Extends-rcv_),
          (
            (Extends-seq_exe false g, Extends-rcv_and g),
            (
              (Extends-seq_exe false g, Extends-rcv_and g),
              (
                (Extends-con_exe, quiet),
                (
                  (Extends-con_exe, quiet),
                  (
                    (Extends-exe_ife, Extends-rcv_ife g),
                    (
                      (Extends-exe_ife, Extends-rcv_ife g),
                      (
                        (Extends-exe_if, Extends-rcv_if g),
                        (
                          (Extends-exe_if, Extends-rcv_if g),
                          (
                            (Extends-exe_if, Extends-rcv_if g),
                            (
                              (Extends-exe_if, Extends-rcv_if g),
                              ((Extends-exe_else g, Extends-rcv_else g), tt),
                            ),
                          ),
                        ),
                      ),
                    ),
                  ),
                ),
              ),
            ),
          ),
        ),
      ),
    ),
  ),
)
  where
    quiet : (s : Exec) (node : Node) (m : Msg) → Extends s s
    quiet s node m = Extends-refl s

lookup_in-IsTameEntry :
    (name : Text) (l : List (String × Entry)) (e : Entry)
    → All (λ (x : String × Entry). IsTameEntry (x.1)) l
    → lookup_in name l ≡ some e
    → IsTameEntry e
unfolding lookup_in
lookup_in-IsTameEntry name [] e a h = cc
lookup_in-IsTameEntry name ((n, x) ∷ l) e a h = elim (Bool-cases (text_eq (codes n) name)) [
  | inl hit ↦ let q : x ≡ e = cc (rw hit at h) in rw (← q) a.0
  | inr miss ↦ lookup_in-IsTameEntry name l e a.1 (rw miss at h)
]

-- By the entry that is found.
lookup_instruction-IsTame :
    (g : Grammar) (o : Others) (dir : Dir) (name : Text) (i : Instruction)
    → IsTameOthers o
    → lookup_instruction g o dir name ≡ some i
    → IsTame i
unfolding lookup_instruction
lookup_instruction-IsTame g o dir name i w h =
    by_entry (lookup_in name (entries g)) (o.entry name) refl refl h
  where
    in_dir-IsTame : (d : Dir) (e : Entry) → IsTameEntry e → IsTame (in_dir d e)
    in_dir-IsTame execute e t = t.0
    in_dir-IsTame receive e t = t.1
    in_dir-IsTame cancel e t = Extends-can_

    by_entry :
        (a b : Option Entry)
        → lookup_in name (entries g) ≡ a
        → o.entry name ≡ b
        → elim (or_entry a b) as (λ _. Option Instruction) [
          | none ↦ none
          | some e ↦ some (in_dir dir e)
        ]
          ≡ some i
        → IsTame i
    by_entry none none p q h = cc
    by_entry none (some e) p q h =
        let r : in_dir dir e ≡ i = cc in rw (← r) (in_dir-IsTame dir e (w name e q))
    by_entry (some e) b p q h =
        let r : in_dir dir e ≡ i = cc in
        rw (← r)
          (in_dir-IsTame dir e (lookup_in-IsTameEntry name (entries g) e (entries-IsTameEntry g) p))

Extends-after_call :
    (nid : Text) {s : Exec} (r : Reply) → Extends s r.state → Extends s (after_call nid r).state
Extends-after_call nid {s} r x =
    elim r.outcome
      as (λ o.
        Extends s
          (elim o as (λ _. Reply) [
            | Outcome.error ↦ record r { state = update_node nid set_failed r.state }
            | _ ↦ r
          ]).state) [
            | Outcome.error ↦ Extends-trans x (Extends-update_node nid set_failed r.state)
            | Outcome.over ↦ x
            | Outcome.ok ↦ x
            | Outcome.unknown ↦ x
          ]

-- flon_call_instruction only adds messages.
pub Extends-call_instruction :
    (g : Grammar) (o : Others) (dir : Dir) (s : Exec) (node : Node) (m : Msg)
    → IsTameOthers o
    → Extends s (call_instruction g o dir s node m).state
unfolding call_instruction
Extends-call_instruction g o dir s node m w =
    by_instruction (lookup_instruction g o dir (inst_text node)) refl
  where
    node' : Node
    node' = remove_timer m (eval_catt_pre o.to_text dir s m node)

    by_instruction :
        (i : Option Instruction)
        → lookup_instruction g o dir (inst_text node) ≡ i
        → Extends s
            (elim i as (λ _. Reply) [
              | none ↦
                  reply unknown
                    (update_node node.nid
                      (λ v. push_error (unknown_instruction (inst_text node)) (set_failed v))
                      s)
                    m
              | some i ↦ after_call node.nid (i (update_node node.nid (λ v. node') s) node' m)
            ]).state
    by_instruction none e = Extends-update_node node.nid _ s
    by_instruction (some i) e =
        Extends-after_call node.nid (i (update_node node.nid (λ v. node') s) node' m) (
          Extends-trans (Extends-update_node node.nid (λ v. node') s)
            (lookup_instruction-IsTame g o dir (inst_text node) i w e _ node' m))
