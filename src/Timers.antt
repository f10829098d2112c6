-- ===== src/Timers.antt =====
-- src/fl_dispatcher.c: the index of the timers, and what comes due. A time stamp is a text, and
-- strcmp orders it. The directory var/spool/tdis/ is the parameter `read`: what the file of a timer
-- holds.
pub mod Order
pub mod Index
pub mod Due
pub mod Tests
use flon.Base.{
  ℕ, zero, suc, ◌+◌, Bool, true, false, not, ◌&&◌, Option, none, some, List, [], ◌∷◌, ◌++◌, ◌==◌,
  ltb, if◌then◌else◌,
}
use flon.Base.Text.{Text, codes, text_eq}
use flon.Base.Lists.{length}
use flon.Ids.{text_or, point_to_prefix}
use flon.Json.{Value, Fields, obj, str, end, get, put}

-- `strcmp(a, b) < 0`
unfoldable pub text_lt : Text → Text → Bool
text_lt a [] = false
text_lt [] (y ∷ b) = true
text_lt (x ∷ a) (y ∷ b) =
    let rest = text_lt a b in if ltb x y then true else if x == y then rest else false

-- flon_timer
pub record FlonTimer : Type 0 where
  pub ts : Text
  pub fn : Text

-- A list of timers, and whether its pointer to the last node is good: to the last node, or null if
-- there is none. Of an empty list of at timers, which has it set by the next one, that is not asked.
pub record TimerList : Type 0 where
  pub items : List FlonTimer
  pub last_ok : Bool

abbrev pub no_timers : TimerList
no_timers = record { items = []; last_ok = true }

-- The loop of flu_list_ins, with at_cmp
unfoldable pub insert_timer : FlonTimer → List FlonTimer → List FlonTimer
insert_timer t [] = t ∷ []
insert_timer t (u ∷ l) =
    let rest = insert_timer t l in if text_lt t.ts u.ts then t ∷ u ∷ l else u ∷ rest

-- Whether that loop comes to the end of the list.
unfoldable pub goes_last : FlonTimer → List FlonTimer → Bool
goes_last t [] = true
goes_last t (u ∷ l) = let rest = goes_last t l in if text_lt t.ts u.ts then false else rest

-- add_at_timer(ts, l, fn), which sets the last pointer of an empty list. To append through a pointer to a node that was freed is undefined: none.
unfoldable pub add_at_timer : Text → Text → TimerList → Option TimerList
unfolding insert_timer goes_last
add_at_timer ts fn l =
    let t : FlonTimer = record { ts = ts; fn = fn } in
    elim l.items [
      | [] ↦ some (record { items = t ∷ []; last_ok = true })
      | u ∷ us ↦
          if not l.last_ok && goes_last t (u ∷ us)
          then none
          else some (record l { items = insert_timer t (u ∷ us) })
    ]

-- add_cron_timer(ts, fn): at the end, by flu_list_add, which writes through the last pointer if it
-- is not null, also where the list is empty
unfoldable pub add_cron_timer : Text → Text → TimerList → Option TimerList
add_cron_timer ts fn l =
    let t : FlonTimer = record { ts = ts; fn = fn } in
    if l.last_ok then some (record l { items = l.items ++ t ∷ [] }) else none

abbrev pub is_timer : Text → Text → FlonTimer → Bool
is_timer ts fn t = text_eq t.ts ts && text_eq t.fn fn

-- The loop of remove_timer: the first that fits goes.
unfoldable pub remove_first : Text → Text → List FlonTimer → List FlonTimer
remove_first ts fn [] = []
remove_first ts fn (t ∷ l) =
    let rest = remove_first ts fn l in if is_timer ts fn t then l else t ∷ rest

abbrev pub is_nil : List FlonTimer → Bool
is_nil [] = true
is_nil (t ∷ l) = false

-- Whether the one that goes is the last of the list.
unfoldable pub hits_last : Text → Text → List FlonTimer → Bool
hits_last ts fn [] = false
hits_last ts fn (t ∷ l) =
    let rest = hits_last ts fn l in if is_timer ts fn t then is_nil l else rest

-- remove_timer(l, ts, fn), which never sets l->last
unfoldable pub remove_timer : Text → Text → TimerList → TimerList
unfolding remove_first hits_last
remove_timer ts fn l = record {
  items = remove_first ts fn l.items;
  last_ok = l.last_ok && not (hits_last ts fn l.items);
}

pub record Dispatcher : Type 0 where
  pub at_timers : TimerList
  -- the files moved out of var/spool/tdis/
  pub processed : List Text
  pub rejected : List (Text × Text)
  -- the files written to var/spool/dis/
  pub placed : List (Text × Fields)

-- What the file of a timer holds: nothing that can be parsed, no message, or the fields of one.
abbrev pub Read : Type 0
Read = Text → Option (Option Fields)

abbrev pub set_at_items : List FlonTimer → Dispatcher → Dispatcher
set_at_items l d = record d { at_timers = record d.at_timers { items = l } }

module _ (read : Read) (to_text : Value → Text) where
  -- `fdja_ls(msg, key, NULL)`
  abbrev pub text_at : Text → Fields → Option Text
  text_at k fs = elim (get k fs) [ none ↦ none | some v ↦ some (to_text v) ]

  -- The name of the file that the message of a timer is written to.
  unfoldable pub trigger_file : Fields → Text
  trigger_file fs =
      codes "var/spool/dis/"
      ++ point_to_prefix (text_at (codes "point") fs)
      ++ text_or (text_at (codes "exid") fs) (codes "(null)")
      ++ codes "-"
      ++ text_or (text_at (codes "nid") fs) (codes "(null)")
      ++ codes ".json"

  -- The message with its `trigger`.
  unfoldable pub triggered : Text → FlonTimer → Fields → Fields
  triggered ns t fs =
      put (codes "trigger")
        (obj (
          put (codes "fn") (str t.fn) (
            put (codes "ts") (str t.ts)
              (put (codes "now") (str ns) (put (codes "type") (str (codes "at")) end)))))
        fs

  -- The rest of do_trigger(ns), for the timer that it took off the list.
  unfoldable pub fire : Text → FlonTimer → Dispatcher → Dispatcher
  unfolding trigger_file triggered
  fire ns t d = record d {
    processed = d.processed ++ elim (read t.fn) [ none ↦ [] | some m ↦ t.fn ∷ [] ];
    rejected = d.rejected ++ elim (read t.fn) [
      | none ↦ (t.fn, codes "couldn't parse") ∷ []
      | some none ↦ (t.fn, codes "doesn't contain 'msg' key") ∷ []
      | some (some fs) ↦ []
    ];
    placed = d.placed ++ elim (read t.fn) [
      | none ↦ []
      | some none ↦ []
      | some (some fs) ↦ (trigger_file fs, triggered ns t fs) ∷ []
    ];
  }

  -- do_trigger(ns): whether a timer fired, and the state behind it
  unfoldable pub do_trigger : Text → Dispatcher → Bool × Dispatcher
  do_trigger ns d = elim d.at_timers.items [
    | [] ↦ (false, d)
    | t ∷ l ↦ if text_lt ns t.ts then (false, d) else (true, fire ns t (set_at_items l d))
  ]

  -- The loop of flon_trigger. `none` means that the fuel ran out.
  unfoldable pub trigger_loop : Text → ℕ → Dispatcher → Option Dispatcher
  unfolding do_trigger
  trigger_loop ns zero d = none
  trigger_loop ns (suc fuel) d =
      let (fired, d') = do_trigger ns d in
      elim fired [ true ↦ trigger_loop ns fuel d' | false ↦ some d' ]

  -- flon_trigger(now_s), for the stamp of that time
  unfoldable pub flon_trigger : Text → Dispatcher → Option Dispatcher
  unfolding trigger_loop
  flon_trigger ns d =
      if ltb (length d.at_timers.items) 1
      then some d
      else trigger_loop ns (length d.at_timers.items + 1) d
