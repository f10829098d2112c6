-- ===== src/Dispatch.antt =====
-- src/fl_dispatcher.c: what becomes of a file in var/spool/dis/. Each step on files or processes is
-- an `Action`, which is kept in order; the parameter `ok` says which of them succeed. What the C
-- code reads off the disk is a parameter too: the content of a file, and whether the executor of an
-- execution runs.
pub mod Schedules
pub mod Answers
pub mod Tests
use flon.Base.{
  ℕ, Bool, true, false, not, ◌&&◌, ◌||◌, Option, none, some, List, [], ◌∷◌, ◌++◌, ◌==◌,
  if◌then◌else◌, is_some,
}
use flon.Base.Text.{Text, codes, text_eq, has_prefix}
use flon.Ids.{Grammar, NidParts, parse_nid, text_or}
use flon.Json.{Value, Fields, obj, str, sym, end, get, put, take_out}
use flon.State.{starts_with_byte}
use flon.Timers.{TimerList, add_at_timer, add_cron_timer, remove_timer}

pub data Action : Type 0 where
  unlink mkdir processed : Text → Action
  write : Text → Fields → Action
  move rejected fork : Text → Text → Action

-- What flon_dispatch returns: -1, 1, 2
pub data Verdict : Type 0 where
  refused seen dispatched : Verdict

-- What flon_try_parse makes of a file: an object, no JSON, or nothing for the moment.
pub data Loaded : Type 0 where
  parsed : Fields → Loaded
  invalid unreadable : Loaded

pub record Post : Type 0 where
  pub at_timers : TimerList
  pub cron_timers : TimerList
  pub actions : List Action

abbrev pub act : Action → Post → Post
act a p = record p { actions = p.actions ++ a ∷ [] }

abbrev pub drop_four : Text → Text
drop_four (a ∷ (b ∷ (c ∷ (d ∷ t)))) = t
drop_four _ = []

abbrev pub ends_with : Text → Text → Bool
ends_with e [] = text_eq e []
ends_with e (x ∷ t) = text_eq e (x ∷ t) || ends_with e t

abbrev pub dis : Text → Text
dis fname = codes "var/spool/dis/" ++ fname

abbrev pub tdis : Text → Text
tdis fn = codes "var/spool/tdis/" ++ fn

-- `task.state`, `task.from`
abbrev pub task_at : Text → Fields → Option Value
task_at k fs = elim (get (codes "task") fs) [ some (obj ts) ↦ get k ts | _ ↦ none ]

-- `fdja_set(o, key, v)`, where a null takes the entry of that key away
abbrev pub put_text : Text → Option Text → Fields → Fields
put_text k none fs = take_out k fs
put_text k (some t) fs = put k (str t) fs

-- The message that receive_task makes out of what a tasker left.
unfoldable pub task_answer : NidParts → Fields → Fields
task_answer id msg =
    let whole =
      is_some (get (codes "point") msg)
      && is_some (task_at (codes "state") msg)
      && is_some (get (codes "payload") msg) in
    let m =
      if whole
      then msg
      else put (codes "payload") (obj msg) (
          put (codes "task")
            (obj (
              put (codes "from") (sym (codes "tasker")) (
                put (codes "event") (sym (codes "completion"))
                  (put (codes "state") (sym (codes "completed")) end))))
            end) in
    put_text (codes "nid") id.nid
      (put_text (codes "exid") id.exid (put (codes "point") (sym (codes "receive")) m))

module _ (g : Grammar) (to_text : Value → Text) (exid_path encode : Text → Text) where
  -- `at` or `cron`, and its text
  abbrev pub stamp_of : Fields → Option (Bool × Text)
  stamp_of msg = elim (get (codes "at") msg) [
    | some v ↦ some (false, to_text v)
    | none ↦ elim (get (codes "cron") msg) [ some v ↦ some (true, to_text v) | none ↦ none ]
  ]

  -- `fn`, the file of a timer, by the file name of its order
  unfoldable pub timer_file : Text → Text → Bool → Text → Text
  timer_file exid fname is_cron ots =
      exid_path exid
      ++ codes "/"
      ++ (if is_cron then codes "cron" else codes "at")
      ++ codes "-"
      ++ (if is_cron then encode ots else ots)
      ++ codes "-"
      ++ drop_four fname

  module _ (ok : Action → Bool) where
    -- schedule, where the order takes a schedule back
    unfoldable pub unschedule_order : Text → Bool → Text → Text → Post → Option (Verdict × Post)
    unschedule_order fname is_cron ots fn p =
        let p' = act (unlink (tdis fn)) p in
        let left =
          if is_cron
          then record p' { cron_timers = remove_timer ots fn p.cron_timers }
          else record p' { at_timers = remove_timer ots fn p.at_timers } in
        if ok (unlink (tdis fn))
        then some (dispatched, act (processed (dis fname)) left)
        else some (seen, p')

    abbrev pub add_timer : Bool → Text → Text → Post → Option Post
    add_timer true ots fn p = elim (add_cron_timer ots fn p.cron_timers) [
      | none ↦ none
      | some l ↦ some (record p { cron_timers = l })
    ]
    add_timer false ots fn p = elim (add_at_timer ots fn p.at_timers) [
      | none ↦ none
      | some l ↦ some (record p { at_timers = l })
    ]

    -- schedule, where the order makes one
    unfoldable pub schedule_order :
        Text → Text → Bool → Text → Text → Fields → Post → Option (Verdict × Post)
    schedule_order fname exid is_cron ots fn msg p =
        let dir = tdis (exid_path exid) in
        let p1 = act (mkdir dir) p in
        let p2 = act (write (tdis fn) msg) p1 in
        if not (ok (mkdir dir))
        then some (seen, p1)
        else if not (ok (write (tdis fn) msg))
        then some (seen, p2)
        else elim (add_timer is_cron ots fn p2) [
          | none ↦ none
          | some p3 ↦ some (dispatched, act (processed (dis fname)) p3)
        ]

    -- schedule(fname, id, msg). The outer `none`: an append to a freed node, see add_at_timer. An
    -- order without a time is refused with the directory for a file and the name for a reason.
    unfoldable pub schedule : Text → Text → Fields → Post → Option (Verdict × Post)
    unfolding unschedule_order schedule_order timer_file
    schedule fname exid msg p = elim (stamp_of msg) [
      | none ↦ some (refused, act (rejected (tdis (exid_path exid) ++ codes "/") fname) p)
      | some (is_cron, ots) ↦
          let fn = timer_file exid fname is_cron ots in
          if starts_with_byte b'u'
            (elim (get (codes "point") msg) [ none ↦ [] | some v ↦ to_text v ])
          then unschedule_order fname is_cron ots fn p
          else schedule_order fname exid is_cron ots fn msg p
    ]

    -- dispatch(fname, id, msg)
    unfoldable pub dispatch : (Text → Bool) → Text → Text → Post → Verdict × Post
    dispatch running fname exid p =
        let is_task = starts_with_byte b't' fname in
        let spool = (if is_task then codes "var/spool/tsk/" else codes "var/spool/exe/") ++ fname in
        let moved = move (dis fname) spool in
        let start = if is_task then fork (codes "tasker") spool else fork (codes "executor") exid in
        if not (ok moved)
        then (
          refused,
          act (rejected (dis fname) (codes "failed to move to " ++ spool)) (act moved p),
        )
        else if running exid
        then (dispatched, act moved p)
        else (if ok start then dispatched else seen, act start (act moved p))

    -- receive_task(fname, id, msg)
    unfoldable pub receive_task : Text → NidParts → Fields → Post → Verdict × Post
    unfolding task_answer
    receive_task fname id msg p =
        let file = dis (codes "rcv_" ++ drop_four fname) in
        let wrote = write file (task_answer id msg) in
        if not (ok wrote)
        then (
          refused,
          act (rejected (codes "/" ++ dis fname) (codes "failed to move to " ++ file))
              (act wrote p),
        )
        else (
          dispatched,
          act (unlink (dis fname)) (act (unlink (codes "var/spool/tsk/" ++ fname)) (act wrote p)),
        )

    abbrev pub known_prefix : Text → Bool
    known_prefix fname =
        has_prefix (codes "exe_") fname
        || (has_prefix (codes "tsk_") fname
            || (has_prefix (codes "rcv_") fname
                || (has_prefix (codes "sch_") fname || has_prefix (codes "can_") fname)))

    abbrev pub is_text : Text → Option Value → Bool
    is_text t none = false
    is_text t (some v) = text_eq (to_text v) t

    -- The part of flon_dispatch behind its checks: which handler gets the message.
    unfoldable pub route : (Text → Bool) → Text → NidParts → Fields → Post → Option (Verdict × Post)
    unfolding schedule dispatch receive_task
    route running fname id msg p =
        let exid = text_or id.exid (codes "(null)") in
        if starts_with_byte b's' fname
        then schedule fname exid msg p
        else if not (starts_with_byte b't' fname)
        then some (dispatch running fname exid p)
        else if is_text (codes "completed") (task_at (codes "state") msg)
        then some (receive_task fname id msg p)
        else if is_text (codes "executor") (task_at (codes "from") msg)
        then some (dispatch running fname exid p)
        else some (receive_task fname id msg p)

    abbrev pub reject : Text → Text → Post → Option (Verdict × Post)
    reject fname reason p = some (refused, act (rejected (dis fname) reason) p)

    -- flon_dispatch(fname)
    unfoldable pub flon_dispatch :
        (Text → Bool) → (Text → Loaded) → Text → Post → Option (Verdict × Post)
    unfolding route
    flon_dispatch running load fname p =
        if not (ends_with (codes ".json") fname)
        then reject fname (codes "not a .json file") p
        else if not (known_prefix fname)
        then reject fname (codes "unknown file prefix") p
        else elim (parse_nid g fname) [
          | none ↦ reject fname (codes "cannot parse id out of filename") p
          | some id ↦ elim (load (dis fname)) [
            | invalid ↦ reject fname (codes "couldn't parse json") p
            | unreadable ↦ some (seen, p)
            | parsed msg ↦ route running fname id msg p
          ]
        ]
