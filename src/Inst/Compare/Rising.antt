-- ===== src/Inst/Compare/Rising.antt =====
-- src/n/fl_n_cmp.c: chains of < over texts.
use flon.Base.{ℕ, ◌≡◌, refl, sym, ◌∙◌, true, false, List, [], ◌∷◌, ◌↔◌, &&-true}
use flon.Base.Text.{Text, codes, text_eq}
use flon.Base.Lists.{All}
use flon.Json.{Value, is_number}
use flon.Timers.{text_lt}
use flon.Timers.Order.{text_lt_asymm, text_lt_le_trans}
use flon.Inst.Compare.{Match, cmp_object, cmp_values}
use flon.Inst.Compare.Chains.{adjacent}

module _ (to_json : Value → Text) (strtoll : Text → ℕ) (rmatch : Match) where
  abbrev pub IsAbove : Value → List Value → Type 0
  IsAbove x l = All (λ (y : Value). text_lt (to_json x) (to_json y) ≡ true) l

  -- Every value stands below every later one.
  abbrev pub IsRising : List Value → Type 0
  IsRising [] = Unit
  IsRising (x ∷ l) = IsAbove x l × IsRising l

  cmp_values_less :
      (x y : Value)
      → is_number x ≡ false
      → cmp_values to_json strtoll rmatch (codes "<") x y ≡ text_lt (to_json x) (to_json y)
  unfolding cmp_values cmp_object text_eq
  cmp_values_less x y h = rw h refl

  IsAbove-trans :
      (x y : Value) (l : List Value)
      → text_lt (to_json x) (to_json y) ≡ true
      → IsAbove y l
      → IsAbove x l
  IsAbove-trans x y [] h a = tt
  IsAbove-trans x y (z ∷ l) h a = (
    text_lt_le_trans (to_json x) (to_json y) (to_json z) h
        (text_lt_asymm (to_json y) (to_json z) a.0),
    IsAbove-trans x y l h a.1,
  )

  -- A chain of < over values that are no numbers holds exactly if every value stands below every
  -- later one, as the texts of their JSON.
  pub adjacent_iff_IsRising :
      (l : List Value)
      → All (λ (x : Value). is_number x ≡ false) l
      → (adjacent (cmp_values to_json strtoll rmatch (codes "<")) l ≡ true) ↔ IsRising l
  adjacent_iff_IsRising [] a = (λ h. tt, λ h. refl)
  adjacent_iff_IsRising (x ∷ []) a = (λ h. (tt, tt), λ h. refl)
  adjacent_iff_IsRising (x ∷ (y ∷ l)) a =
      let ih = adjacent_iff_IsRising (y ∷ l) a.1 in
      let e = cmp_values_less x y a.0 in
      (
        λ h.
            let k = &&-true (cmp_values to_json strtoll rmatch (codes "<") x y) _ h in
            let less = sym e ∙ k.0 in
            let rest = ih.0 k.1 in ((less, IsAbove-trans x y l less rest.0), rest),
        λ h. simp (e, h.0.0, ih.1 h.1) refl,
      )
