-- ===== src/Executor/Names.antt =====
-- src/fl_executor.c: the files of the spool that name_matches takes.
use flon.Base.{
  ℕ, ◌≡◌, ◌↔◌, ◌⊎◌, inl, inr, refl, ◌∙◌, ap, Bool, true, false, ◌||◌, Option, none, some, [], ◌∷◌,
  ◌++◌, ◌==◌,
}
use flon.Base.Text.{Text, codes, strip_prefix, strip_prefix_iff}
use flon.Executor.{of_execution, name_matches}

-- The name `n` is the prefix, the id of the execution, and a dot or a dash with what follows.
abbrev pub IsOwn : Text → Text → Text → Type 0
IsOwn exid prefix n =
    (c : ℕ) × (t : Text) × (n ≡ prefix ++ (exid ++ c ∷ t)) × ((c == b'.' || c == b'-') ≡ true)

of_execution_by :
    (exid r : Text)
    → (of_execution exid (some r) ≡ true)
      ↔ ((c : ℕ) × (t : Text) × (r ≡ exid ++ c ∷ t) × ((c == b'.' || c == b'-') ≡ true))
of_execution_by exid r = (by_stripped (strip_prefix exid r) refl, back)
  where
    seen : Option Text → Bool
    seen o = elim o as (λ _. Bool) [
      | none ↦ false
      | some [] ↦ false
      | some (c ∷ t) ↦ c == b'.' || c == b'-'
    ]

    by_stripped :
        (o : Option Text)
        → strip_prefix exid r ≡ o
        → seen o ≡ true
        → (c : ℕ) × (t : Text) × (r ≡ exid ++ c ∷ t) × ((c == b'.' || c == b'-') ≡ true)
    by_stripped none e h = cc
    by_stripped (some []) e h = cc
    by_stripped (some (c ∷ t)) e h = (c, t, (strip_prefix_iff exid r (c ∷ t)).0 e, h)

    back :
        (c : ℕ) × (t : Text) × (r ≡ exid ++ c ∷ t) × ((c == b'.' || c == b'-') ≡ true)
        → seen (strip_prefix exid r) ≡ true
    back x = ap seen ((strip_prefix_iff exid r (x.0 ∷ x.1)).1 x.2) ∙ x.3

of_execution_iff :
    (exid prefix n : Text)
    → (of_execution exid (strip_prefix prefix n) ≡ true) ↔ IsOwn exid prefix n
of_execution_iff exid prefix n = (by_stripped (strip_prefix prefix n) refl, back)
  where
    by_stripped :
        (o : Option Text)
        → strip_prefix prefix n ≡ o
        → of_execution exid o ≡ true
        → IsOwn exid prefix n
    by_stripped none e h = cc
    by_stripped (some r) e h =
        let x = (of_execution_by exid r).0 h in
        (x.0, x.1, (strip_prefix_iff prefix n r).0 e ∙ ap (λ (q : Text). prefix ++ q) x.2, x.3)

    back : IsOwn exid prefix n → of_execution exid (strip_prefix prefix n) ≡ true
    back x =
        ap (of_execution exid) ((strip_prefix_iff prefix n (exid ++ x.0 ∷ x.1)).1 x.2)
        ∙ (of_execution_by exid (exid ++ x.0 ∷ x.1)).1 (x.0, x.1, refl, x.3)

or_iff : {A B : Type 0} (a b : Bool) → (a ≡ true) ↔ A → (b ≡ true) ↔ B → ((a || b) ≡ true) ↔ (A ⊎ B)
or_iff true b p q = (λ h. inl (p.0 refl), λ x. refl)
or_iff false b p q =
    (λ h. inr (q.0 h), λ x. elim x [ inl l ↦ (let e : false ≡ true = p.1 l in cc) | inr r ↦ q.1 r ])

-- An executor takes the files whose name is exe_, rcv_, tsk_ or can_, the id of its execution, and a
-- dot or a dash with what follows, and no other.
pub name_matches_iff :
    (exid n : Text)
    → (name_matches exid n ≡ true) ↔ (
        IsOwn exid (codes "exe_") n
        ⊎ (IsOwn exid (codes "rcv_") n
            ⊎ (IsOwn exid (codes "tsk_") n ⊎ IsOwn exid (codes "can_") n)))
unfolding name_matches
name_matches_iff exid n = or_iff _ _ (of_execution_iff exid (codes "exe_") n) (
    or_iff _ _ (of_execution_iff exid (codes "rcv_") n) (
      or_iff _ _ (of_execution_iff exid (codes "tsk_") n) (of_execution_iff exid (codes "can_") n)))
