-- ===== src/Timers/Due.antt =====
-- src/fl_dispatcher.c: what flon_trigger fires at a time.
use flon.Base.{
  ℕ, zero, suc, ◌+◌, ◌<◌, ◌≡◌, refl, ◌∙◌, ap, arith, Bool, true, false, Option, some, List, [], ◌∷◌,
  if◌then◌else◌, ltb, Bool-cases, inl, inr,
}
use flon.Base.Text.{Text}
use flon.Base.Lists.{length}
use flon.Json.{Value}
use flon.Timers.{
  FlonTimer, Dispatcher, Read, text_lt, set_at_items, fire, do_trigger, trigger_loop, flon_trigger,
}
use flon.Timers.Order.{IsBelow, IsSorted, text_lt_le_trans}

-- The timers whose stamp is no later than `ns`, and the others.
abbrev pub due : Text → List FlonTimer → List FlonTimer
due ns [] = []
due ns (t ∷ l) = let rest = due ns l in if text_lt ns t.ts then rest else t ∷ rest

abbrev pub later : Text → List FlonTimer → List FlonTimer
later ns [] = []
later ns (t ∷ l) = let rest = later ns l in if text_lt ns t.ts then t ∷ rest else rest

-- What stands behind a timer that is not due is not due.
due_behind :
    (ns : Text) (t : FlonTimer) (l : List FlonTimer)
    → text_lt ns t.ts ≡ true
    → IsBelow t l
    → (due ns l ≡ []) × (later ns l ≡ l)
due_behind ns t [] h b = (refl, refl)
due_behind ns t (u ∷ l) h b =
    let ih = due_behind ns t l h b.1 in
    let k = text_lt_le_trans ns t.ts u.ts h b.0 in
    rw k (ih.0, ap (λ (x : List FlonTimer). u ∷ x) ih.1)

module _ (read : Read) (to_text : Value → Text) (ns : Text) where
  abbrev pub fire_all : List FlonTimer → Dispatcher → Dispatcher
  fire_all [] d = d
  fire_all (t ∷ ts) d = fire_all ts (fire read to_text ns t d)

  abbrev stepped : ℕ → Bool × Dispatcher → Option Dispatcher
  stepped fuel r = elim r.0 as (λ _. Option Dispatcher) [
    | true ↦ trigger_loop read to_text ns fuel r.1
    | false ↦ some r.1
  ]

  trigger_loop_step :
      (fuel : ℕ) (d : Dispatcher) (r : Bool × Dispatcher)
      → do_trigger read to_text ns d ≡ r
      → trigger_loop read to_text ns (suc fuel) d ≡ stepped fuel r
  unfolding trigger_loop
  trigger_loop_step fuel d r e = ap (stepped fuel) e

  do_trigger_by :
      (t : FlonTimer) (l : List FlonTimer) (d : Dispatcher) (b : Bool)
      → text_lt ns t.ts ≡ b
      → do_trigger read to_text ns (set_at_items (t ∷ l) d) ≡ (
          if b
          then (false, set_at_items (t ∷ l) d)
          else (true, fire read to_text ns t (set_at_items l d)))
  unfolding do_trigger
  do_trigger_by t l d b e =
      ap
        (λ b.
          if b
          then (false, set_at_items (t ∷ l) d)
          else (true, fire read to_text ns t (set_at_items l d)))
        e

  trigger_loop-due :
      (l : List FlonTimer) (fuel : ℕ) (d : Dispatcher)
      → length l < fuel
      → IsSorted l
      → trigger_loop read to_text ns fuel (set_at_items l d)
        ≡ some (fire_all (due ns l) (set_at_items (later ns l) d))
  unfolding fire
  trigger_loop-due l zero d h s = ground arith
  trigger_loop-due [] (suc fuel) d h s =
      trigger_loop_step fuel (set_at_items [] d) (false, set_at_items [] d)
        (unfold do_trigger in refl)
  trigger_loop-due (t ∷ l) (suc fuel) d h s = elim (Bool-cases (text_lt ns t.ts)) [
    | inl k ↦
        let b = due_behind ns t l k s.0 in
        let p = trigger_loop_step fuel (set_at_items (t ∷ l) d) _ (do_trigger_by t l d true k) in
        p ∙ (rw (k, b.0, b.1) refl)
    | inr k ↦
        let ih = trigger_loop-due l fuel (fire read to_text ns t d) (omega (arith, h)) s.1 in
        let p = trigger_loop_step fuel (set_at_items (t ∷ l) d) _ (do_trigger_by t l d false k) in
        p ∙ (rw k ih)
  ]

  -- flon_trigger fires the timers that are due, in the order of their stamps, and no other; those
  -- that are not due stay in the index. It comes to an end, if the index is sorted.
  pub flon_trigger-fires :
      (d : Dispatcher)
      → IsSorted d.at_timers.items
      → flon_trigger read to_text ns d
        ≡ some (fire_all (due ns d.at_timers.items) (set_at_items (later ns d.at_timers.items) d))
  unfolding flon_trigger
  flon_trigger-fires d s = by_items d.at_timers.items s
    where
      by_items :
          (l : List FlonTimer)
          → IsSorted l
          → (if ltb (length l) 1
              then some (set_at_items l d)
              else trigger_loop read to_text ns (length l + 1) (set_at_items l d))
            ≡ some (fire_all (due ns l) (set_at_items (later ns l) d))
      by_items [] s = refl
      by_items (t ∷ l) s =
          let small : ltb (length (t ∷ l)) 1 ≡ false = ground arith in
          simp small (trigger_loop-due (t ∷ l) (length (t ∷ l) + 1) d (omega arith) s)
