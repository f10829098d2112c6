-- ===== src/Timers/Order.antt =====
-- src/fl_dispatcher.c: at_cmp, the order of time stamps, and lists of timers that follow it.
use flon.Base.{◌≡◌, refl, arith, true, false, List, [], ◌∷◌}
use flon.Base.Text.{Text}
use flon.Base.Lists.{All}
use flon.Timers.{FlonTimer, text_lt}

pub text_lt_irrefl : (a : Text) → text_lt a a ≡ false
unfolding text_lt
text_lt_irrefl [] = refl
text_lt_irrefl (x ∷ a) = ground (arith, text_lt_irrefl a)

pub text_lt_asymm : (a b : Text) → text_lt a b ≡ true → text_lt b a ≡ false
unfolding text_lt
text_lt_asymm a [] h = cc
text_lt_asymm [] (y ∷ b) h = refl
text_lt_asymm (x ∷ a) (y ∷ b) h = ground (arith, text_lt_asymm a b)

pub text_lt_le_trans :
    (a b c : Text) → text_lt a b ≡ true → text_lt c b ≡ false → text_lt a c ≡ true
unfolding text_lt
text_lt_le_trans a [] c h k = cc
text_lt_le_trans a (y ∷ b) [] h k = cc
text_lt_le_trans [] (y ∷ b) (z ∷ c) h k = refl
text_lt_le_trans (x ∷ a) (y ∷ b) (z ∷ c) h k = ground (arith, text_lt_le_trans a b c)

-- No stamp comes before that of the timer.
abbrev pub IsBelow : FlonTimer → List FlonTimer → Type 0
IsBelow t l = All (λ (u : FlonTimer). text_lt u.ts t.ts ≡ false) l

abbrev pub IsSorted : List FlonTimer → Type 0
IsSorted [] = Unit
IsSorted (t ∷ l) = IsBelow t l × IsSorted l
