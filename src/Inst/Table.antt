-- ===== src/Inst/Table.antt =====
-- The table of instructions of src/fl_exe_instructions.c, flon_call_instruction, what it does to
-- the node before the instruction (src/n/fl_catt.c, remove_timer) and after it. Instructions that
-- are given here as a parameter stand in `Others`.
use flon.Base.{
  ℕ, zero, suc, ◌+◌, Bool, true, false, ◌&&◌, Option, none, some, List, [], ◌∷◌, ◌++◌, ◌==◌, String,
  if◌then◌else◌,
}
use flon.Base.Text.{Text, codes, text_eq}
use flon.Base.Decimal.{decimal}
use flon.Ids.{Grammar, underscore}
use flon.Json.{Value, Fields, sym, obj, end, field, bool, get, put}
use flon.State.{Node, Timer, Msg, Exec, update_node}
use flon.State.Tree.{item}
use flon.Inst.{Reply, reply, Outcome, unknown, Instruction}
use flon.Inst.Seq.{
  tree_of, exe_sequence, rcv_sequence, exe_concurrence, rcv_concurrence, exe_cand, rcv_cand,
}
use flon.Inst.Branch.{
  rcv_and, exe_and, rcv_if, exe_if, rcv_ife, exe_ife, rcv_else, exe_else, exe_noop, exe_stall,
  exe_val,
}
use flon.Inst.Cancel.{rcv_, can_}

-- The directions 'e', 'r' and 'c'.
pub data Dir : Type 0 where
  execute receive cancel : Dir

-- An entry of the table but for `can`, which is can_ everywhere.
pub record Entry : Type 0 where
  pub exe : Instruction
  pub rcv : Instruction

-- fdja_to_string(v), for the attributes of a tree, and the instructions that are no part of this
-- model: define, set, call, task, trace, wait, log, the comparisons, the arithmetic and map.
pub record Others : Type 0 where
  pub to_text : Value → Text
  pub entry : Text → Option Entry

abbrev pub entries : Grammar → List (String × Entry)
entries g =
    ("sequence", record { exe = exe_sequence g; rcv = rcv_sequence g })
    ∷ ("concurrence", record { exe = exe_concurrence; rcv = rcv_concurrence })
    ∷ ("stall", record { exe = exe_stall; rcv = rcv_ })
    ∷ ("val", record { exe = exe_val; rcv = rcv_ })
    ∷ ("noop", record { exe = exe_noop; rcv = rcv_ })
    ∷ ("and", record { exe = exe_and g; rcv = rcv_and g })
    ∷ ("or", record { exe = exe_and g; rcv = rcv_and g })
    ∷ ("cand", record { exe = exe_cand; rcv = rcv_cand })
    ∷ ("cor", record { exe = exe_cand; rcv = rcv_cand })
    ∷ ("ife", record { exe = exe_ife; rcv = rcv_ife g })
    ∷ ("unlesse", record { exe = exe_ife; rcv = rcv_ife g })
    ∷ ("if", record { exe = exe_if; rcv = rcv_if g })
    ∷ ("unless", record { exe = exe_if; rcv = rcv_if g })
    ∷ ("elsif", record { exe = exe_if; rcv = rcv_if g })
    ∷ ("elif", record { exe = exe_if; rcv = rcv_if g })
    ∷ ("else", record { exe = exe_else g; rcv = rcv_else g })
    ∷ []

unfoldable pub lookup_in : Text → List (String × Entry) → Option Entry
lookup_in name [] = none
lookup_in name ((n, e) ∷ rest) =
    let later = lookup_in name rest in if text_eq (codes n) name then some e else later

abbrev pub or_entry : Option Entry → Option Entry → Option Entry
or_entry none e = e
or_entry (some e) f = some e

abbrev pub in_dir : Dir → Entry → Instruction
in_dir execute e = e.exe
in_dir receive e = e.rcv
in_dir cancel e = can_

-- lookup_instruction(dir, name)
unfoldable pub lookup_instruction : Grammar → Others → Dir → Text → Option Instruction
unfolding lookup_in
lookup_instruction g o dir name = elim (or_entry (lookup_in name (entries g)) (o.entry name)) [
  | none ↦ none
  | some e ↦ some (in_dir dir e)
]

-- push_error(node, ...): the value at the end of `errors`, but for its time stamp
abbrev pub push_error : Text → Node → Node
push_error t v = record v {
  errors = elim v.errors [
    | none ↦ some (obj (field (codes "msg") (sym t) end) ∷ [])
    | some l ↦ some (l ++ obj (field (codes "msg") (sym t) end) ∷ [])
  ];
}

-- Whether one of the attributes `_0`, `_1`, ... is the text "vars", up to the first index that is
-- not there.
unfoldable pub asks_vars : (Value → Text) → Fields → ℕ → ℕ → Bool
asks_vars to_text atts i zero = false
asks_vars to_text atts i (suc fuel) =
    let later = asks_vars to_text atts (i + 1) fuel in
    elim (get (underscore ∷ decimal i) atts) [
      | none ↦ false
      | some v ↦ if text_eq (to_text v) (codes "vars") then true else later
    ]

abbrev pub fields_count : Fields → ℕ
fields_count end = 0
fields_count (field k v fs) = suc (fields_count fs)

-- fdja_merge(dst, src)
unfoldable pub merge : Fields → Fields → Fields
merge dst end = dst
merge dst (field k v fs) = merge (put k v dst) fs

abbrev pub vars_asked : Option Value → Option Fields
vars_asked (some (bool true)) = some end
vars_asked (some (obj fs)) = some fs
vars_asked _ = none

abbrev pub add_vars : Option Fields → Node → Node
add_vars none v = v
add_vars (some fs) v = record v {
  vars = elim v.vars [ none ↦ some fs | some nvars ↦ some (merge nvars fs) ];
}

-- The `vars` that eval_catt_pre_vars takes from the attributes.
unfoldable pub catt_vars : (Value → Text) → Option Value → Option Fields
unfolding asks_vars
catt_vars to_text (some (obj atts)) = elim (get (codes "vars") atts) [
  | some v ↦ vars_asked (some v)
  | none ↦ if asks_vars to_text atts 0 (suc (fields_count atts)) then some end else none
]
catt_vars to_text _ = none

-- eval_catt_pre(dir, node, msg)
unfoldable pub eval_catt_pre : (Value → Text) → Dir → Exec → Msg → Node → Node
unfolding catt_vars merge item tree_of
eval_catt_pre to_text execute s m node =
    add_vars (catt_vars to_text (item (tree_of s node m) 1)) node
eval_catt_pre to_text _ s m node = node

abbrev pub first_byte_eq : Text → Text → Bool
first_byte_eq (c ∷ t) (d ∷ u) = c == d
first_byte_eq _ _ = false

-- The loop of remove_timer: the first timer of that type and time stamp is triggered.
unfoldable pub trigger_timer : Text → Text → List Timer → List Timer
trigger_timer type ts [] = []
trigger_timer type ts (t ∷ l) =
    let rest = trigger_timer type ts l in
    if first_byte_eq (if t.is_cron then codes "cron" else codes "at") type && text_eq t.ts ts
    then record t { triggered = true } ∷ l
    else t ∷ rest

-- remove_timer(dir, node, msg)
unfoldable pub remove_timer : Msg → Node → Node
unfolding trigger_timer
remove_timer m node = elim m.trigger [
  | none ↦ node
  | some (type, ts) ↦ elim node.timers [
    | none ↦ node
    | some l ↦ record node { timers = some (trigger_timer type ts l) }
  ]
]

abbrev pub set_failed : Node → Node
set_failed v = record v { status = some (codes "failed") }

abbrev pub inst_text : Node → Text
inst_text node = elim node.inst [ none ↦ [] | some t ↦ t ]

abbrev pub unknown_instruction : Text → Text
unknown_instruction name = codes "unknown instruction '" ++ (name ++ codes "'")

-- What follows the instruction's answer: 'r' marks the node.
abbrev pub after_call : Text → Reply → Reply
after_call nid r = elim r.outcome [
  | Outcome.error ↦ record r { state = update_node nid set_failed r.state }
  | _ ↦ r
]

module _ (g : Grammar) (o : Others) where
  -- flon_call_instruction(dir, node, msg)
  unfoldable pub call_instruction : Dir → Exec → Node → Msg → Reply
  unfolding lookup_instruction eval_catt_pre remove_timer
  call_instruction dir s node m = elim (lookup_instruction g o dir (inst_text node)) [
    | none ↦
        reply unknown
          (update_node node.nid
            (λ v. push_error (unknown_instruction (inst_text node)) (set_failed v)) s)
          m
    | some i ↦
        let node' = remove_timer m (eval_catt_pre o.to_text dir s m node) in
        after_call node.nid (i (update_node node.nid (λ v. node') s) node' m)
  ]
