-- ===== src/Dispatch/Answers.antt =====
-- src/fl_dispatcher.c: what receive_task makes of the file that a tasker left.
use flon.Base.{
  ◌≡◌, refl, ◌∙◌, ap, Bool, true, false, ◌&&◌, Option, none, some, if◌then◌else◌, is_some, &&-true,
}
use flon.Base.Text.{Text, codes, text_eq}
use flon.Ids.{NidParts}
use flon.Json.{Value, Fields, obj, str, sym, end, get, put, get-put, get-take_out}
use flon.Dispatch.{task_at, put_text, task_answer}

get-put_text :
    (k j : Text) (t : Option Text) (fs : Fields)
    → text_eq k j ≡ false
    → get j (put_text k t fs) ≡ get j fs
get-put_text k j none fs h = get-take_out k j fs h
get-put_text k j (some t) fs h = get-put k j (str t) fs ∙ simp h refl

-- The message is a whole answer.
abbrev pub IsAnswer : Fields → Type 0
IsAnswer fs =
    (get (codes "point") fs ≡ some (sym (codes "receive")))
    × (is_some (task_at (codes "state") fs) ≡ true)
    × (is_some (get (codes "payload") fs) ≡ true)

abbrev state_of : Option Value → Bool
state_of o =
    is_some (elim o as (λ _. Option Value) [ some (obj ts) ↦ get (codes "state") ts | _ ↦ none ])

IsAnswer-put_text :
    (k : Text) (t : Option Text) (fs : Fields)
    → text_eq k (codes "point") ≡ false
    → text_eq k (codes "task") ≡ false
    → text_eq k (codes "payload") ≡ false
    → IsAnswer fs
    → IsAnswer (put_text k t fs)
IsAnswer-put_text k t fs a b c h = (
  get-put_text k (codes "point") t fs a ∙ h.0,
  ap state_of (get-put_text k (codes "task") t fs b) ∙ h.1,
  ap (λ (o : Option Value). is_some o) (get-put_text k (codes "payload") t fs c) ∙ h.2,
)

-- A message that is whole but for its point.
IsAnswer-put :
    (fs : Fields)
    → is_some (task_at (codes "state") fs) ≡ true
    → is_some (get (codes "payload") fs) ≡ true
    → IsAnswer (put (codes "point") (sym (codes "receive")) fs)
unfolding text_eq
IsAnswer-put fs a b =
    let p = get-put (codes "point") in
    let v = sym (codes "receive") in
    (
      p (codes "point") v fs,
      ap state_of (p (codes "task") v fs) ∙ a,
      ap (λ (o : Option Value). is_some o) (p (codes "payload") v fs) ∙ b,
    )

-- Whatever a tasker leaves behind, the executor gets a receive with a state of the task and a
-- payload.
pub task_answer-IsAnswer : (id : NidParts) (msg : Fields) → IsAnswer (task_answer id msg)
unfolding task_answer text_eq
task_answer-IsAnswer id msg =
    IsAnswer-put_text (codes "nid") id.nid _ refl refl refl
      (IsAnswer-put_text (codes "exid") id.exid _ refl refl refl (by_whole _ refl))
  where
    by_whole :
        (b : Bool)
        → (is_some (get (codes "point") msg)
            && is_some (task_at (codes "state") msg)
            && is_some (get (codes "payload") msg))
          ≡ b
        → IsAnswer (
            put (codes "point") (sym (codes "receive")) (
              if b
              then msg
              else put (codes "payload") (obj msg) (
                  put
                    (codes "task")
                    (obj (
                      put (codes "from") (sym (codes "tasker")) (
                        put
                          (codes "event")
                          (sym (codes "completion"))
                          (put (codes "state") (sym (codes "completed")) end))))
                    end)))
    by_whole true e =
        let point = is_some (get (codes "point") msg) in
        let state = is_some (task_at (codes "state") msg) in
        let h = &&-true (point && state) (is_some (get (codes "payload") msg)) e in
        IsAnswer-put msg (&&-true point state h.0).1 h.1
    by_whole false e =
        IsAnswer-put _ (unfold get put text_eq in refl) (unfold get put text_eq in refl)
