-- ===== src/Dispatch/Tests.antt =====
-- Instances of the theorems on the dispatcher.
use flon.Base.{◌≡◌, ◌↔◌, refl, Bool, true, false, Option, none, some, List, [], ◌∷◌, ◌++◌, ℕ}
use flon.Base.Text.{Text, codes}
use flon.Ids.{NidParts}
use flon.Ids.Tests.{cut_at_dash}
use flon.Json.{Value, Fields, str, sym, num, end, field}
use flon.Timers.{FlonTimer, no_timers}
use flon.Timers.Order.{IsSorted}
use flon.Timers.Index.{IsLatest}
use flon.Dispatch.{Action, dispatched, Post, schedule, task_answer}
use flon.Dispatch.Schedules.{schedule-unschedule}
use flon.Dispatch.Answers.{IsAnswer, task_answer-IsAnswer}

abbrev plain : Value → Text
plain (sym t) = t
plain (str t) = t
plain _ = []

abbrev same : Text → Text
same t = t

abbrev all_well : Action → Bool
all_well a = true

abbrev later : List FlonTimer
later = record { ts = codes "2018"; fn = codes "wake" } ∷ []

abbrev post : Post
post = record {
  at_timers = record { items = later; last_ok = true };
  cron_timers = no_timers;
  actions = [];
}

abbrev order_of : Text → Fields
order_of point = field (codes "point") (str point) (field (codes "at") (str (codes "2016")) end)

schedule-unschedule_example :
    (q : Post) × (r : Post) × (schedule cut_at_dash plain same same all_well
        (codes "sch_a-1.json")
        (codes "a")
        (order_of (codes "schedule"))
        post
      ≡ some (dispatched, q))
    × IsSorted q.at_timers.items
    × (schedule cut_at_dash plain same same all_well
          (codes "sch_a-1.json")
          (codes "a")
          (order_of (codes "unschedule"))
          q
        ≡ some (dispatched, r))
    × (r.at_timers.items ≡ later)
    × ((r.at_timers.last_ok ≡ false) ↔ IsLatest (codes "2016") later)
    × (r.cron_timers ≡ no_timers)
unfolding flon.Json.get flon.Base.Text.text_eq
schedule-unschedule_example =
    schedule-unschedule cut_at_dash plain same same all_well (λ a. refl) (codes "sch_a-1.json")
      (codes "a") (codes "2016") (order_of (codes "schedule")) (order_of (codes "unschedule")) post
      refl refl refl refl refl (tt, tt) (refl, tt)

abbrev task_id : NidParts
task_id = record {
  msg = none;
  exid = some (codes "a");
  domain = none;
  feu = none;
  tid = none;
  nid = some (codes "0_1");
  node = none;
  counter = none;
  ftype = none;
  uri = none;
}

task_answer-IsAnswer_example :
    IsAnswer (task_answer task_id (field (codes "item") (num (codes "7")) end))
task_answer-IsAnswer_example =
    task_answer-IsAnswer task_id (field (codes "item") (num (codes "7")) end)
