-- ===== src/Timers/Tests.antt =====
-- Instances of the theorems on timers.
use mathlib.Core.List.{Perm}
use flon.Base.{◌≡◌, refl, Bool, true, false, Option, none, some, List, [], ◌∷◌, ◌++◌, ℕ}
use flon.Base.Text.{Text, codes}
use flon.Json.{Value, end}
use flon.Timers.{
  FlonTimer, TimerList, Dispatcher, Read, set_at_items, flon_trigger, add_at_timer, remove_timer,
}
use flon.Timers.Order.{IsSorted}
use flon.Timers.Due.{due, later, fire_all, flon_trigger-fires}
use flon.Timers.Index.{add_at_timer-IsSorted, add_at_timer-stale}

abbrev timer_at : Text → FlonTimer
timer_at ts = record { ts = ts; fn = codes "wake" }

abbrev three : List FlonTimer
three = timer_at (codes "2016") ∷ timer_at (codes "2017") ∷ timer_at (codes "2018") ∷ []

abbrev dispatcher : Dispatcher
dispatcher = record {
  at_timers = record { items = three; last_ok = true };
  processed = [];
  rejected = [];
  placed = [];
}

abbrev read_message : Read
read_message fn = some (some end)

abbrev no_text : Value → Text
no_text v = []

flon_trigger-fires_example :
    flon_trigger read_message no_text (codes "2017") dispatcher
    ≡ some (
        fire_all read_message no_text
          (codes "2017")
          (due (codes "2017") three)
          (set_at_items (later (codes "2017") three) dispatcher))
unfolding flon.Timers.text_lt
flon_trigger-fires_example =
    flon_trigger-fires read_message no_text (codes "2017") dispatcher
      ((refl, (refl, tt)), ((refl, tt), (tt, tt)))

add_at_timer-IsSorted_example :
    (m : TimerList) × (add_at_timer (codes "2017") (codes "sleep") dispatcher.at_timers ≡ some m)
    × (m.last_ok ≡ true)
    × IsSorted m.items
    × Perm (record { ts = codes "2017"; fn = codes "sleep" } ∷ three) m.items
unfolding flon.Timers.text_lt
add_at_timer-IsSorted_example =
    add_at_timer-IsSorted (codes "2017") (codes "sleep") dispatcher.at_timers refl
      ((refl, (refl, tt)), ((refl, tt), (tt, tt)))

add_at_timer-stale_example :
    add_at_timer (codes "2018") (codes "sleep") (
      remove_timer (codes "2017") (codes "wake") (record {
        items =
            (timer_at (codes "2016") ∷ []) ++ record { ts = codes "2017"; fn = codes "wake" } ∷ [];
        last_ok = true;
      }))
    ≡ none
unfolding flon.Base.Text.text_eq flon.Timers.text_lt
add_at_timer-stale_example =
    add_at_timer-stale (codes "2017") (codes "wake") (codes "2018") (codes "sleep")
      (timer_at (codes "2016")) [] (refl, tt) (refl, tt)

abbrev one : FlonTimer
one = timer_at (codes "2016")
