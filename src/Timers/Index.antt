-- ===== src/Timers/Index.antt =====
-- src/fl_dispatcher.c: timers that are added to the index and removed from it.
use mathlib.Core.List.{Perm}
use mathlib.Core.List.Perm
use flon.Base.{
  ◌≡◌, ◌↔◌, Bool, not, refl, sym, arith, ◌∙◌, ap, true, false, Option, none, some, List, [], ◌∷◌,
  ◌++◌, Bool-cases, inl, inr,
}
use flon.Base.Text.{Text, text_eq_refl}
use flon.Base.Lists.{All}
use flon.Timers.{
  FlonTimer, TimerList, text_lt, insert_timer, goes_last, add_at_timer, is_timer, remove_first,
  hits_last, remove_timer,
}
use flon.Timers.Order.{IsBelow, IsSorted, text_lt_asymm, text_lt_le_trans}

insert_timer-perm : (t : FlonTimer) (l : List FlonTimer) → Perm (t ∷ l) (insert_timer t l)
unfolding insert_timer
insert_timer-perm t [] = Perm.refl (t ∷ [])
insert_timer-perm t (u ∷ l) = elim (Bool-cases (text_lt t.ts u.ts)) [
  | inl h ↦ rw h (Perm.refl (t ∷ u ∷ l))
  | inr h ↦ rw h (Perm.trans (Perm.swap u t l) (Perm.cons u (insert_timer-perm t l)))
]

-- By the two stamps: what is inserted comes behind a timer that is no later.
insert_timer-IsBelow :
    (v t : FlonTimer) (l : List FlonTimer)
    → text_lt t.ts v.ts ≡ false
    → IsBelow v l
    → IsBelow v (insert_timer t l)
unfolding insert_timer
insert_timer-IsBelow v t [] h b = (h, tt)
insert_timer-IsBelow v t (u ∷ l) h b = elim (Bool-cases (text_lt t.ts u.ts)) [
  | inl k ↦ rw k (h, b)
  | inr k ↦ rw k (b.0, insert_timer-IsBelow v t l h b.1)
]

IsBelow-trans :
    (t u : FlonTimer) (l : List FlonTimer) → text_lt t.ts u.ts ≡ true → IsBelow u l → IsBelow t l
IsBelow-trans t u [] h b = tt
IsBelow-trans t u (v ∷ l) h b =
    (text_lt_asymm t.ts v.ts (text_lt_le_trans t.ts u.ts v.ts h b.0), IsBelow-trans t u l h b.1)

insert_timer-IsSorted :
    (t : FlonTimer) (l : List FlonTimer) → IsSorted l → IsSorted (insert_timer t l)
unfolding insert_timer
insert_timer-IsSorted t [] s = (tt, tt)
insert_timer-IsSorted t (u ∷ l) s = elim (Bool-cases (text_lt t.ts u.ts)) [
  | inl h ↦ rw h ((text_lt_asymm t.ts u.ts h, IsBelow-trans t u l h s.0), s)
  | inr h ↦ rw h (insert_timer-IsBelow u t l h s.0, insert_timer-IsSorted t l s.1)
]

-- No timer of the list has this stamp and this file.
abbrev pub IsFresh : Text → Text → List FlonTimer → Type 0
IsFresh ts fn l = All (λ (t : FlonTimer). is_timer ts fn t ≡ false) l

remove_first-insert_timer :
    (ts fn : Text) (l : List FlonTimer)
    → IsFresh ts fn l
    → remove_first ts fn (insert_timer (record { ts = ts; fn = fn }) l) ≡ l
unfolding insert_timer remove_first
remove_first-insert_timer ts fn [] f = simp (text_eq_refl ts, text_eq_refl fn) refl
remove_first-insert_timer ts fn (u ∷ l) f = elim (Bool-cases (text_lt ts u.ts)) [
  | inl h ↦ simp (h, text_eq_refl ts, text_eq_refl fn) refl
  | inr h ↦
      simp (h, f.0) (ap (λ (x : List FlonTimer). u ∷ x) (remove_first-insert_timer ts fn l f.1))
]

hits_last-insert_timer :
    (ts fn : Text) (l : List FlonTimer)
    → IsFresh ts fn l
    → hits_last ts fn (insert_timer (record { ts = ts; fn = fn }) l)
      ≡ goes_last (record { ts = ts; fn = fn }) l
unfolding insert_timer hits_last goes_last
hits_last-insert_timer ts fn [] f = simp (text_eq_refl ts, text_eq_refl fn) refl
hits_last-insert_timer ts fn (u ∷ l) f = elim (Bool-cases (text_lt ts u.ts)) [
  | inl h ↦ simp (h, text_eq_refl ts, text_eq_refl fn) refl
  | inr h ↦ simp (h, f.0) (hits_last-insert_timer ts fn l f.1)
]

-- No timer of the list is later than this stamp.
abbrev pub IsLatest : Text → List FlonTimer → Type 0
IsLatest ts l = All (λ (u : FlonTimer). text_lt ts u.ts ≡ false) l

goes_last_iff : (t : FlonTimer) (l : List FlonTimer) → (goes_last t l ≡ true) ↔ IsLatest t.ts l
unfolding goes_last
goes_last_iff t [] = ((λ e. tt), λ a. refl)
goes_last_iff t (u ∷ l) = elim (Bool-cases (text_lt t.ts u.ts)) [
  | inl h ↦ ((λ e. absurd (ground (arith, h))), λ a. absurd (let k = a.0 in cc))
  | inr h ↦ (
    (λ e. (h, (goes_last_iff t l).0 (ground (arith, h)))),
    λ a. simp (h) ((goes_last_iff t l).1 a.1),
  )
]

add_at_timer_ok :
    (ts fn : Text) (items : List FlonTimer)
    → add_at_timer ts fn (record { items = items; last_ok = true })
      ≡ some (record { items = insert_timer (record { ts = ts; fn = fn }) items; last_ok = true })
unfolding add_at_timer insert_timer
add_at_timer_ok ts fn [] = refl
add_at_timer_ok ts fn (t ∷ l) = refl

add_at_timer_good :
    (ts fn : Text) (l : TimerList)
    → l.last_ok ≡ true
    → add_at_timer ts fn l
      ≡ some (record { items = insert_timer (record { ts = ts; fn = fn }) l.items; last_ok = true })
add_at_timer_good ts fn l ok =
    ap (λ b. add_at_timer ts fn (record { items = l.items; last_ok = b })) ok
    ∙ add_at_timer_ok ts fn l.items

-- A timer that is added to a sorted list with a good last pointer gets a place by its stamp: the
-- list is sorted again, has the timers from before and the new one, and a good last pointer.
pub add_at_timer-IsSorted :
    (ts fn : Text) (l : TimerList)
    → l.last_ok ≡ true
    → IsSorted l.items
    → (m : TimerList) × (add_at_timer ts fn l ≡ some m)
      × (m.last_ok ≡ true)
      × IsSorted m.items
      × Perm (record { ts = ts; fn = fn } ∷ l.items) m.items
add_at_timer-IsSorted ts fn l ok s =
    let t : FlonTimer = record { ts = ts; fn = fn } in
    (
      record { items = insert_timer t l.items; last_ok = true },
      add_at_timer_good ts fn l ok,
      refl,
      insert_timer-IsSorted t l.items s,
      insert_timer-perm t l.items,
    )

remove_timer-insert_timer :
    (ts fn : Text) (l : List FlonTimer)
    → IsFresh ts fn l
    → remove_timer ts fn
        (record { items = insert_timer (record { ts = ts; fn = fn }) l; last_ok = true })
      ≡ record { items = l; last_ok = not (goes_last (record { ts = ts; fn = fn }) l) }
unfolding remove_timer
remove_timer-insert_timer ts fn l f =
    simp (remove_first-insert_timer ts fn l f, hits_last-insert_timer ts fn l f) refl

not_inverse : (b : Bool) → not b ≡ false → b ≡ true
not_inverse true h = refl
not_inverse false h = cc

-- A timer that is added and removed again leaves the list as it was before, if the last pointer
-- was good and no timer has the same stamp and file; but the last pointer is stale afterwards
-- exactly if no other timer is later.
pub remove_timer-add_at_timer :
    (ts fn : Text) (l m : TimerList)
    → l.last_ok ≡ true
    → IsFresh ts fn l.items
    → add_at_timer ts fn l ≡ some m
    → ((remove_timer ts fn m).items ≡ l.items)
      × (((remove_timer ts fn m).last_ok ≡ false) ↔ IsLatest ts l.items)
remove_timer-add_at_timer ts fn l m ok f e =
    let t : FlonTimer = record { ts = ts; fn = fn } in
    let left = λ (o : Option TimerList). elim o as (λ _. TimerList) [
      | none ↦ l
      | some k ↦ remove_timer ts fn k
    ] in
    let run : remove_timer ts fn m
        ≡ record { items = l.items; last_ok = not (goes_last t l.items) } =
      ap left (sym e ∙ add_at_timer_good ts fn l ok) ∙ remove_timer-insert_timer ts fn l.items f in
    let latest = goes_last_iff t l.items in
    (
      ap (λ (k : TimerList). k.items) run,
      (
        (λ h. latest.0 (not_inverse _ (sym (ap (λ (k : TimerList). k.last_ok) run) ∙ h))),
        λ a. ap (λ (k : TimerList). k.last_ok) run ∙ ap not (latest.1 a),
      ),
    )

remove_first-end :
    (ts fn : Text) (l : List FlonTimer)
    → IsFresh ts fn l
    → (remove_first ts fn (l ++ record { ts = ts; fn = fn } ∷ []) ≡ l)
      × (hits_last ts fn (l ++ record { ts = ts; fn = fn } ∷ []) ≡ true)
unfolding remove_first hits_last
remove_first-end ts fn [] f = simp (text_eq_refl ts, text_eq_refl fn) (refl, refl)
remove_first-end ts fn (u ∷ l) f =
    let ih = remove_first-end ts fn l f.1 in simp (f.0, ih.0, ih.1) (refl, refl)

-- Right after the last of several timers was removed, adding a timer whose stamp is below none of
-- those that are left appends it to a node that was freed.
pub add_at_timer-stale :
    (ts fn ts' fn' : Text) (u : FlonTimer) (l : List FlonTimer)
    → IsFresh ts fn (u ∷ l)
    → All (λ (v : FlonTimer). text_lt ts' v.ts ≡ false) (u ∷ l)
    → add_at_timer ts' fn' (
        remove_timer ts fn
          (record { items = (u ∷ l) ++ record { ts = ts; fn = fn } ∷ []; last_ok = true }))
      ≡ none
unfolding add_at_timer remove_timer
add_at_timer-stale ts fn ts' fn' u l f a =
    let e = remove_first-end ts fn (u ∷ l) f in
    let g = (goes_last_iff (record { ts = ts'; fn = fn' }) (u ∷ l)).1 a in simp (e.0, e.1, g) refl
