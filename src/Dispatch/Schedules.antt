-- ===== src/Dispatch/Schedules.antt =====
-- src/fl_dispatcher.c: what the orders of schedule do to the index of the timers.
use flon.Base.{
  ◌≡◌, ◌↔◌, refl, ◌∙◌, ap, Bool, true, false, Option, none, some, [], ◌∷◌, ◌++◌, if◌then◌else◌,
}
use flon.Base.Text.{Text, codes}
use flon.Ids.{Grammar}
use flon.Json.{Value, Fields, get}
use flon.State.{starts_with_byte}
use flon.Timers.{TimerList, add_at_timer, remove_timer}
use flon.Timers.Order.{IsSorted}
use flon.Timers.Index.{IsFresh, IsLatest, add_at_timer-IsSorted, remove_timer-add_at_timer}
use flon.Dispatch.{
  Action, unlink, mkdir, processed, write, rejected, Verdict, dispatched, refused, Post, act, dis,
  tdis, stamp_of, timer_file, unschedule_order, schedule_order, schedule,
}

-- The point of an order.
abbrev pub point_text : (Value → Text) → Fields → Text
point_text to_text msg = elim (get (codes "point") msg) [ none ↦ [] | some v ↦ to_text v ]

module _ (g : Grammar) (to_text : Value → Text) (exid_path encode : Text → Text)
    (ok : Action → Bool) (all_ok : (a : Action) → ok a ≡ true) where
  abbrev scheduled : Text → Text → Text → Fields → TimerList → Post → Post
  scheduled fname exid fn msg l p = record p {
    at_timers = l;
    actions =
        ((p.actions ++ mkdir (tdis (exid_path exid)) ∷ []) ++ write (tdis fn) msg ∷ [])
        ++ processed (dis fname) ∷ [];
  }

  schedule_order_at :
      (fname exid ots fn : Text) (msg : Fields) (p : Post) (l : TimerList)
      → add_at_timer ots fn p.at_timers ≡ some l
      → schedule_order g to_text exid_path encode ok fname exid false ots fn msg p
        ≡ some (dispatched, scheduled fname exid fn msg l p)
  unfolding schedule_order
  schedule_order_at fname exid ots fn msg p l e =
      let p2 = act (write (tdis fn) msg) (act (mkdir (tdis (exid_path exid))) p) in
      simp (all_ok (mkdir (tdis (exid_path exid))), all_ok (write (tdis fn) msg))
        (ap
          (λ (o : Option TimerList).
            elim (elim o as (λ _. Option Post) [
              | none ↦ none
              | some k ↦ some (record p2 { at_timers = k })
            ])
              as (λ _. Option (Verdict × Post)) [
                | none ↦ none
                | some p3 ↦ some (dispatched, act (processed (dis fname)) p3)
              ])
          e)

  abbrev unscheduled : Text → Text → Text → Post → Post
  unscheduled fname ots fn p = record p {
    at_timers = remove_timer ots fn p.at_timers;
    actions = (p.actions ++ unlink (tdis fn) ∷ []) ++ processed (dis fname) ∷ [];
  }

  unschedule_order_at :
      (fname ots fn : Text) (p : Post)
      → unschedule_order g to_text exid_path encode ok fname false ots fn p
        ≡ some (dispatched, unscheduled fname ots fn p)
  unfolding unschedule_order
  unschedule_order_at fname ots fn p = simp (all_ok (unlink (tdis fn))) refl

  schedule_by :
      (fname exid ots : Text) (msg : Fields) (p : Post) (b : Bool)
      → stamp_of g to_text exid_path encode msg ≡ some (false, ots)
      → starts_with_byte b'u' (point_text to_text msg) ≡ b
      → (let fn = timer_file g to_text exid_path encode exid fname false ots in
          schedule g to_text exid_path encode ok fname exid msg p ≡ (
            if b
            then unschedule_order g to_text exid_path encode ok fname false ots fn p
            else schedule_order g to_text exid_path encode ok fname exid false ots fn msg p))
  unfolding schedule
  schedule_by fname exid ots msg p b e h =
      let fn = timer_file g to_text exid_path encode exid fname false ots in
      ap
        (λ (o : Option (Bool × Text)). elim o as (λ _. Option (Verdict × Post)) [
          | none ↦ some (refused, act (rejected (tdis (exid_path exid) ++ codes "/") fname) p)
          | some x ↦
              let fn = timer_file g to_text exid_path encode exid fname x.0 x.1 in
              if starts_with_byte b'u' (point_text to_text msg)
              then unschedule_order g to_text exid_path encode ok fname x.0 x.1 fn p
              else schedule_order g to_text exid_path encode ok fname exid x.0 x.1 fn msg p
        ])
        e
      ∙ ap
          (λ b.
            if b
            then unschedule_order g to_text exid_path encode ok fname false ots fn p
            else schedule_order g to_text exid_path encode ok fname exid false ots fn msg p)
          h

  -- Where all steps on files succeed, an order to wake at a time is dispatched and leaves the index
  -- sorted, and the order of the same name that takes it back is dispatched too and leaves the timers
  -- that were in the index before, if that was sorted, had a good last pointer and no timer like it.
  -- But the last pointer is stale then exactly if no timer in the index is later.
  pub schedule-unschedule :
      (fname exid ots : Text) (msg back : Fields) (p : Post)
      → stamp_of g to_text exid_path encode msg ≡ some (false, ots)
      → stamp_of g to_text exid_path encode back ≡ some (false, ots)
      → starts_with_byte b'u' (point_text to_text msg) ≡ false
      → starts_with_byte b'u' (point_text to_text back) ≡ true
      → p.at_timers.last_ok ≡ true
      → IsSorted p.at_timers.items
      → IsFresh ots (timer_file g to_text exid_path encode exid fname false ots) p.at_timers.items
      → (q : Post) × (r : Post) × (schedule g to_text exid_path encode ok fname exid msg p
          ≡ some (dispatched, q))
        × IsSorted q.at_timers.items
        × (schedule g to_text exid_path encode ok fname exid back q ≡ some (dispatched, r))
        × (r.at_timers.items ≡ p.at_timers.items)
        × ((r.at_timers.last_ok ≡ false) ↔ IsLatest ots p.at_timers.items)
        × (r.cron_timers ≡ p.cron_timers)
  schedule-unschedule fname exid ots msg back p e e' u u' good s f =
      let fn = timer_file g to_text exid_path encode exid fname false ots in
      let a = add_at_timer-IsSorted ots fn p.at_timers good s in
      let q = scheduled fname exid fn msg a.0 p in
      let back_again = remove_timer-add_at_timer ots fn p.at_timers a.0 good f a.1 in
      (
        q,
        unscheduled fname ots fn q,
        schedule_by fname exid ots msg p false e u
            ∙ schedule_order_at fname exid ots fn msg p a.0 a.1,
        a.3,
        schedule_by fname exid ots back q true e' u' ∙ unschedule_order_at fname ots fn q,
        back_again.0,
        back_again.1,
        refl,
      )
