-- ===== src/Triggers/Legs/Groups.antt =====
-- Which legs are built for a position, and the group that joins them: src/triggerOrders.ts.
use fermi_v1_sdk.Base.{
  ℕ, ◌≤◌, ◌<◌, ◌≡◌, ap, refl, arith, ◌++◌, Option, List, [], ◌∷◌, none, some, ok, ℤ, pos, ◌≤ℤ◌,
  ◌==◌, length, subst, from_bind, from_throw, ok_injective,
}
use fermi_v1_sdk.Platform.{Platform}
use fermi_v1_sdk.Triggers.Terms.{TriggerTerms}
use fermi_v1_sdk.Triggers.Legs.{
  SlTpParams, SlTpLeg, LegOptions, build_trigger_order_leg, build_each, build_sl_tp_legs, wanted_of,
  wanted_one, stop_loss, take_profit, oco_group_of, draw,
}
use fermi_v1_sdk.Triggers.Legs.Built.{build_trigger_order_leg-Built}

group_range :
    (wanted : ℕ) (draws : List ℕ) {r : ℤ × List ℕ}
    → oco_group_of wanted draws ≡ ok r
    → (1 < wanted → pos 1 ≤ℤ r.0) × (wanted ≤ 1 → r.0 ≡ pos 0)
unfolding oco_group_of draw
group_range wanted [] h = (ground arith, ground arith)
group_range wanted (d ∷ ds) h = (ground arith, ground arith)

module _ (W : Platform) where
  open W use {PublicKey}

  -- The legs are the wanted ones, in their order: each has the kind, the trigger price and the group.
  abbrev pub Match : SlTpParams PublicKey → ℤ → List (ℕ × ℤ) → List (SlTpLeg PublicKey) → Type 0
  Match params group [] [] = Unit
  Match params group (w ∷ ws) (leg ∷ legs) =
      (leg.kind ≡ w.0)
      × (leg.terms.kind ≡ w.0)
      × (leg.terms.trigger_price_lots ≡ w.1)
      × (leg.terms.oco_group ≡ group)
      × (leg.params ≡ params)
      × Match params group ws legs
  Match params group _ _ = ⊥

  build_each-Match :
      (params : SlTpParams PublicKey) (group : ℤ) (ws : List (ℕ × ℤ)) (draws : List ℕ)
      {r : List (SlTpLeg PublicKey) × List ℕ}
      → build_each W params group ws draws ≡ ok r
      → Match params group ws r.0
  unfolding build_each
  build_each-Match params group [] draws h =
      subst (λ (r : List (SlTpLeg PublicKey) × List ℕ). Match params group [] r.0) (ok_injective h)
        tt
  build_each-Match params group ((kind, price) ∷ ws) draws h =
      let options : LegOptions = record {
        oco_group = some group;
        salt = none;
        limit_price_lots = none;
      } in
      from_bind (build_trigger_order_leg W params kind price options draws) _ h λ built e1 h1.
        from_bind (build_each W params group ws built.1) _ h1 λ others e2 h2.
          let b = build_trigger_order_leg-Built W params kind price options draws e1 in
          subst
            (λ (r : List (SlTpLeg PublicKey) × List ℕ). Match params group ((kind, price) ∷ ws) r.0)
            (ok_injective h2)
            (
              b.kind_eq,
              ap (λ (t : TriggerTerms). t.kind) b.terms_eq,
              ap (λ (t : TriggerTerms). t.trigger_price_lots) b.terms_eq,
              ap (λ (t : TriggerTerms). t.oco_group) b.terms_eq,
              b.params_eq,
              build_each-Match params group ws built.1 e2,
            )

  -- The kinds and prices of the legs that the two prices ask for: a stop loss is of kind 0 and comes first,
  -- a take profit is of kind 1.
  abbrev pub asked : Option ℤ → Option ℤ → List (ℕ × ℤ)
  asked none none = []
  asked (some stop) none = (0, stop) ∷ []
  asked none (some profit) = (1, profit) ∷ []
  asked (some stop) (some profit) = (0, stop) ∷ (1, profit) ∷ []

  wanted-asked :
      (stop profit : Option ℤ)
      → wanted_one stop_loss stop ++ wanted_one take_profit profit ≡ asked stop profit
  wanted-asked none none = refl
  wanted-asked (some stop) none = refl
  wanted-asked none (some profit) = refl
  wanted-asked (some stop) (some profit) = refl

  pub record GroupedAs (params : SlTpParams PublicKey) (ws : List (ℕ × ℤ))
      (legs : List (SlTpLeg PublicKey)) : Type 0 where
    pub group : ℤ
    pub some_leg : 1 ≤ length ws
    pub legs_match : Match params group ws legs
    pub joined : 1 < length ws → pos 1 ≤ℤ group
    pub alone : length ws ≤ 1 → group ≡ pos 0

  abbrev pub Grouped : SlTpParams PublicKey → List (SlTpLeg PublicKey) → Type 0
  Grouped params legs =
      GroupedAs params (asked params.stop_loss_price_lots params.take_profit_price_lots) legs

  -- When legs are built there is one for each price that is set, the stop loss first, each with its
  -- own kind (0 for the stop loss, 1 for the take profit) and price; two legs share one group, which is not zero, and a single leg has group zero.
  pub build_sl_tp_legs-Grouped :
      (params : SlTpParams PublicKey) (draws : List ℕ) {r : List (SlTpLeg PublicKey) × List ℕ}
      → build_sl_tp_legs W params draws ≡ ok r
      → Grouped params r.0
  unfolding build_sl_tp_legs
  build_sl_tp_legs-Grouped params draws {r} h =
      let wanted : ℕ = length (wanted_of W params) in
      from_throw (wanted == 0) _ _ h λ t h1. from_bind (oco_group_of wanted draws) _ h1 λ g eg h2.
        let (joined, alone) = group_range wanted draws eg in
        subst (λ ws. GroupedAs params ws r.0)
          (wanted-asked params.stop_loss_price_lots params.take_profit_price_lots)
          (record {
            group = g.0;
            some_leg = ground arith;
            legs_match = build_each-Match params g.0 (wanted_of W params) g.1 h2;
            joined = joined;
            alone = alone;
          })
