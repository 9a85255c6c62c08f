-- ===== src/Quotes/Flows.antt =====
-- The cash flows of an instrument hold each event once.
use bond_trading.Prelude.{
  ℕ, ◌≤◌, ◌≡◌, refl, inl, inr, Bool, true, false, List, [], ◌∷◌, ◌++◌, any, count, sort, insert,
  Option-cases, Bool-cases, arith, count-append, subst, subst,
}
use bond_trading.Calculations.Models.{
  Date, ActionType, CorporateCashFlow, same_action, coupon, amortization, offer, maturity,
}
use bond_trading.Database.{Uuid, CorporateActionModel}
use bond_trading.Quotes.{same_event, collect_cashflows, instrument_cashflows, not_after}

-- How many cash flows of the list are of the kind and the day.
abbrev pub events : ActionType → Date → List CorporateCashFlow → ℕ
events kind day cs = count (same_event kind day) cs

same_action_sound : (a b : ActionType) → same_action a b ≡ true → a ≡ b
same_action_sound coupon coupon h = refl
same_action_sound amortization amortization h = refl
same_action_sound offer offer h = refl
same_action_sound maturity maturity h = refl
same_action_sound coupon amortization h = absurd (cc)
same_action_sound coupon offer h = absurd (cc)
same_action_sound coupon maturity h = absurd (cc)
same_action_sound amortization coupon h = absurd (cc)
same_action_sound amortization offer h = absurd (cc)
same_action_sound amortization maturity h = absurd (cc)
same_action_sound offer coupon h = absurd (cc)
same_action_sound offer amortization h = absurd (cc)
same_action_sound offer maturity h = absurd (cc)
same_action_sound maturity coupon h = absurd (cc)
same_action_sound maturity amortization h = absurd (cc)
same_action_sound maturity offer h = absurd (cc)

count-none :
    (p : CorporateCashFlow → Bool) (cs : List CorporateCashFlow) → any p cs ≡ false → count p cs ≡ 0
count-none p [] h = refl
count-none p (c ∷ cs) h = ground (arith, count-none p cs)

-- Adding an event that is not there keeps each event at one.
events-add :
    (kind : ActionType) (day : Date) (c : CorporateCashFlow) (cs : List CorporateCashFlow)
    → any (same_event c.action_type c.event_date) cs ≡ false
    → events kind day cs ≤ 1
    → events kind day (cs ++ c ∷ []) ≤ 1
events-add kind day c cs fresh h = elim (Bool-cases (same_event kind day c)) [
  | inr miss ↦ rw (count-append (same_event kind day) cs (c ∷ [])) (ground (arith, miss))
  | inl hit ↦
      let e : c.action_type ≡ kind = same_action_sound c.action_type kind (ground (arith, hit)) in
      let f : c.event_date ≡ day = ground (arith, hit) in
      let absent : events kind day cs ≡ 0 =
        subst (λ k. events k day cs ≡ 0) e
          (subst (λ d. events c.action_type d cs ≡ 0) f
            (count-none (same_event c.action_type c.event_date) cs fresh)) in
      rw (count-append (same_event kind day) cs (c ∷ []), absent) (ground arith)
]

collect-once :
    (kind : ActionType) (day : Date) (found : List CorporateCashFlow)
    (actions : List CorporateActionModel)
    → events kind day found ≤ 1
    → events kind day (collect_cashflows found actions) ≤ 1
unfolding collect_cashflows
collect-once kind day found [] h = h
collect-once kind day found (a ∷ rest) h = elim (Option-cases a.amount_rub_per_bond) [
  | inl e ↦ rw (e, collect_cashflows) (collect-once kind day found rest h)
  | inr (amount, e) ↦ elim (Bool-cases (any (same_event a.action_type a.event_date) found)) [
    | inl old ↦ rw (e, old, collect_cashflows) (collect-once kind day found rest h)
    | inr new ↦
        let c : CorporateCashFlow = record {
          action_type = a.action_type;
          event_date = a.event_date;
          amount_rub_per_bond = amount;
        } in
        rw (e, new, collect_cashflows)
          (collect-once kind day (found ++ c ∷ []) rest (events-add kind day c found new h))
  ]
]

count-insert :
    (p : CorporateCashFlow → Bool) (le : CorporateCashFlow → CorporateCashFlow → Bool)
    (c : CorporateCashFlow) (cs : List CorporateCashFlow)
    → count p (insert le c cs) ≡ count p (c ∷ cs)
count-insert p le c [] = refl
count-insert p le c (d ∷ cs) = ground (arith, count-insert p le c cs)

count-sort :
    (p : CorporateCashFlow → Bool) (le : CorporateCashFlow → CorporateCashFlow → Bool)
    (cs : List CorporateCashFlow)
    → count p (sort le cs) ≡ count p cs
count-sort p le [] = refl
count-sort p le (c ∷ cs) = ground (arith, count-insert p le c (sort le cs), count-sort p le cs)

-- However many actions MOEX has sent, the cash flows of an instrument hold at most one of each kind
-- on each date.
pub instrument_cashflows-once :
    (instrument_id : Uuid) (actions : List CorporateActionModel) (kind : ActionType) (day : Date)
    → events kind day (instrument_cashflows instrument_id actions) ≤ 1
unfolding instrument_cashflows
instrument_cashflows-once instrument_id actions kind day =
    rw (count-sort (same_event kind day) not_after (collect_cashflows [] _))
      (collect-once kind day [] _ (omega arith))
