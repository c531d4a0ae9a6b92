-- ===== src/Execution/IntentValidator/Laws.antt =====
-- When an intent is approved.
use coindcx_bot.Prelude.{
  String, ◌≡◌, ◌≢◌, refl, ap, sym, ◌∙◌, ◌↔◌, ◌⊎◌, inl, inr, Bool, true, false, ◌&&◌, Option, none,
  some, List, [], ◌∷◌, ◌++◌, get_or, subst, arith, ◌==◌, string_key, Bool-cases,
}
use coindcx_bot.Prelude.Num.{Num}
use coindcx_bot.Execution.TradeIntent.{TradeIntent, is_trade_side}
use coindcx_bot.Execution.IntentValidator.{
  IntentRejectionCode, IntentValidatorOptions, IntentValidationInput, Approval, approved, refused,
  text, rejected, parse_finite_price, resolve_entry_price, spread_pct, level_metrics, price_checks,
  level_checks, exceeds, decide, approval, validate_levels, validate_trade_intent,
}
use coindcx_bot.Execution.IntentValidator.Checks.{
  append_nil, Clear, rejected-Clear, Clear-rejected, HasFields, Clear-HasFields, HasFields-Clear,
}

module _ {ℓ} {W : Type ℓ} (num : Num W) where
  open num use {of_ℕ, number, lt, le, is_finite}

  -- The levels of a side are on the right sides of the entry.
  abbrev pub InOrder : String → W → W → W → Type 0
  InOrder side entry stop take =
      ((side ≡ "LONG") × (lt stop entry ≡ true) × (lt entry take ≡ true))
      ⊎ ((side ≡ "SHORT") × (lt take entry ≡ true) × (lt entry stop ≡ true))

  -- The levels and their metrics are within the limits, as far as a metric is finite.
  pub record HasLevels (options : IntentValidatorOptions W) (side : String) (entry stop take : W)
      : Type ℓ where
    pub in_order : InOrder side entry stop take
    pub reward_enough :
        is_finite (level_metrics num side entry stop take).reward_risk ≡ true
        → lt
            (level_metrics num side entry stop take).reward_risk
            (get_or options.min_reward_risk (number "1.5"))
          ≡ false
    pub stop_not_near :
        is_finite (level_metrics num side entry stop take).stop_distance_pct ≡ true
        → lt
            (level_metrics num side entry stop take).stop_distance_pct
            (get_or options.min_stop_distance_pct (number "0.0005"))
          ≡ false
    pub stop_not_far :
        is_finite (level_metrics num side entry stop take).stop_distance_pct ≡ true
        → lt
            (get_or options.max_stop_distance_pct (number "0.08"))
            (level_metrics num side entry stop take).stop_distance_pct
          ≡ false

  none≢some : (x : W) → none ≢ some x
  none≢some x e = cc

  and_false : (a b : Bool) → (a && b) ≡ false → a ≡ true → b ≡ false
  and_false a b e h = ground arith

  false-and : (a b : Bool) → (a ≡ true → b ≡ false) → (a && b) ≡ false
  false-and true b h = h refl
  false-and false b h = refl

  side_cases : (side : String) → is_trade_side side ≡ true → (side ≡ "LONG") ⊎ (side ≡ "SHORT")
  unfolding is_trade_side
  side_cases side e =
      ground (arith, string_key.same_iff side "LONG", string_key.same_iff side "SHORT")

  side_known :
      (side : String) (entry stop take : W)
      → InOrder side entry stop take
      → is_trade_side side ≡ true
  unfolding is_trade_side
  side_known side entry stop take (inl p) = rw p.0 refl
  side_known side entry stop take (inr p) = rw p.0 refl

  and_none : (b : Bool) → (b && false) ≡ false
  and_none b = ground arith

  parse_given :
      (s : String) (x : W) → parse_finite_price num (some (text s)) ≡ some x → (s == "") ≡ false
  unfolding parse_finite_price
  parse_given s x e = elim (Bool-cases (s == "")) [
    | inl h ↦ absurd (none≢some x (rw h at e))
    | inr h ↦ h
  ]

  Clear-HasLevels :
      (options : IntentValidatorOptions W) (side : String) (entry stop take : W)
      → is_trade_side side ≡ true
      → Clear (level_checks num options side entry stop take)
      → HasLevels options side entry stop take
  Clear-HasLevels options side entry stop take s (p1, (p2, (p3, (p4, (p5, u))))) = record {
    in_order = elim (side_cases side s) [
      | inl e ↦ ground (arith, string_key.same_iff side "LONG")
      | inr e ↦ ground (arith, string_key.same_iff side "SHORT")
    ];
    reward_enough = and_false _ _ p3;
    stop_not_near = and_false _ _ p4;
    stop_not_far = and_false _ _ p5;
  }

  HasLevels-Clear :
      (options : IntentValidatorOptions W) (side : String) (entry stop take : W)
      → HasLevels options side entry stop take
      → Clear (level_checks num options side entry stop take)
  HasLevels-Clear options side entry stop take h = (
    elim h.in_order [ inl p ↦ rw (p.0, p.1, p.2) refl | inr p ↦ rw p.0 refl ],
    (
      elim h.in_order [ inl p ↦ rw p.0 refl | inr p ↦ rw (p.0, p.1, p.2) refl ],
      (
        false-and _ _ h.reward_enough,
        (false-and _ _ h.stop_not_near, (false-and _ _ h.stop_not_far, tt)),
      ),
    ),
  )

  approved-inj :
      (i i' : TradeIntent W) (a a' : Approval W)
      → approved i a ≡ approved i' a'
      → (i ≡ i') × (a ≡ a')
  approved-inj i i' a a' e = (cc, cc)

  refused≢approved :
      (rs : List IntentRejectionCode) (i : TradeIntent W) (a : Approval W)
      → refused rs ≢ approved i a
  refused≢approved rs i a e = cc

  decide-approved :
      (rs : List IntentRejectionCode) (i i' : TradeIntent W) (a a' : Approval W)
      → decide num rs i a ≡ approved i' a'
      → (rs ≡ []) × (i ≡ i') × (a ≡ a')
  decide-approved [] i i' a a' e =
      (refl, (approved-inj i i' a a' e).0, (approved-inj i i' a a' e).1)
  decide-approved (r ∷ rs) i i' a a' e = cc

  not_exceeds :
      (spread : Option W) (max_spread s : W)
      → exceeds num spread max_spread ≡ false
      → spread ≡ some s
      → lt max_spread s ≡ false
  not_exceeds none max_spread s e h = cc
  not_exceeds (some x) max_spread s e h = cc

  not-exceeds :
      (spread : Option W) (max_spread : W)
      → ((s : W) → spread ≡ some s → lt max_spread s ≡ false)
      → exceeds num spread max_spread ≡ false
  not-exceeds none max_spread h = refl
  not-exceeds (some x) max_spread h = h x refl

  module _ (to_text : W → String) where
    -- The prices, levels and limits of an approved intent.
    pub record IsApproval (options : IntentValidatorOptions W) (intent : TradeIntent W)
        (entry stop take spread : Option W) (a : Approval W) : Type ℓ where
      pub entry_is : entry ≡ some a.entry_price
      pub stop_is : stop ≡ some a.stop_loss
      pub take_is : take ≡ some a.take_profit
      pub spread_is : spread ≡ a.spread
      pub spread_within :
          (s : W) → spread ≡ some s → lt (get_or options.max_spread_pct (number "0.002")) s ≡ false
      pub levels_hold : HasLevels options intent.side a.entry_price a.stop_loss a.take_profit
      pub metrics_are :
          a.levels ≡ level_metrics num intent.side a.entry_price a.stop_loss a.take_profit
      pub text_is : a.resolved_entry_price ≡ to_text a.entry_price

    validate_levels-approved :
        (options : IntentValidatorOptions W) (intent intent' : TradeIntent W)
        (fields : List IntentRejectionCode) (entry stop take spread : Option W) (a : Approval W)
        → validate_levels num to_text options intent
            (fields
              ++ rejected (
                  price_checks num
                    (get_or options.max_spread_pct (number "0.002"))
                    intent
                    entry
                    stop
                    take
                    spread))
            entry
            stop
            take
            spread
          ≡ approved intent' a
        → (fields ≡ []) × (intent ≡ intent') × IsApproval options intent entry stop take spread a
    unfolding validate_levels
    validate_levels-approved options intent intent' fields (some e) (some s) (some t) spread a h =
        let early =
          fields
          ++ rejected (
              price_checks num (get_or options.max_spread_pct (number "0.002")) intent (some e)
                (some s) (some t) spread) in
        elim (Bool-cases (is_trade_side intent.side)) [
          | inl side ↦
              let p = decide-approved _ intent intent' _ a (rw side at h) in
              let q = append_nil _ _ p.0 in
              let r = append_nil fields _ q.0 in
              let c = rejected-Clear _ r.1 in
              (
                r.0,
                p.1,
                subst (IsApproval options intent (some e) (some s) (some t) spread) p.2 (record {
                  entry_is = refl;
                  stop_is = refl;
                  take_is = refl;
                  spread_is = refl;
                  spread_within = λ x k. not_exceeds spread _ x c.1.1.1.1.1.0 k;
                  levels_hold =
                      Clear-HasLevels options intent.side e s t side (rejected-Clear _ q.1);
                  metrics_are = refl;
                  text_is = refl;
                }),
              )
          | inr side ↦ absurd (refused≢approved early intent' a (rw side at h))
        ]
    validate_levels-approved options intent intent' fields none s t spread a h = cc
    validate_levels-approved options intent intent' fields (some e) none t spread a h = cc
    validate_levels-approved options intent intent' fields (some e) (some s) none spread a h = cc

    approval_is :
        (options : IntentValidatorOptions W) (intent : TradeIntent W)
        (entry stop take spread : Option W) (a : Approval W)
        → IsApproval options intent entry stop take spread a
        → approval num to_text intent.side a.entry_price a.stop_loss a.take_profit spread ≡ a
    approval_is options intent entry stop take spread a h =
        rw (sym h.text_is, sym h.metrics_are, h.spread_is) refl

    validate_levels-IsApproval :
        (options : IntentValidatorOptions W) (intent : TradeIntent W)
        (entry stop take spread : Option W) (a : Approval W)
        → (intent.stop_loss == "") ≡ false
        → (intent.take_profit == "") ≡ false
        → IsApproval options intent entry stop take spread a
        → validate_levels num to_text options intent
            (rejected (
              price_checks num
                (get_or options.max_spread_pct (number "0.002"))
                intent
                entry
                stop
                take
                spread))
            entry
            stop
            take
            spread
          ≡ approved intent a
    unfolding validate_levels
    validate_levels-IsApproval options intent entry stop take spread a s t h =
        let limit = get_or options.max_spread_pct (number "0.002") in
        let e' = some a.entry_price in
        let s' = some a.stop_loss in
        let t' = some a.take_profit in
        let prices : rejected (price_checks num limit intent e' s' t' spread) ≡ [] =
          Clear-rejected _ (
            refl,
            (s, (t, (and_none _, (and_none _, (not-exceeds spread limit h.spread_within, tt))))),
          ) in
        let levels : rejected
              (level_checks num options intent.side a.entry_price a.stop_loss a.take_profit)
            ≡ [] =
          Clear-rejected _ (HasLevels-Clear _ _ _ _ _ h.levels_hold) in
        rw
          (
            h.entry_is,
            h.stop_is,
            h.take_is,
            prices,
            side_known _ _ _ _ h.levels_hold.in_order,
            levels,
          )
          (ap (approved intent) (approval_is options intent entry stop take spread a h))

    module _ (trim : String → String) (date_parse : String → W) (clock : W) where
      pub validate_trade_intent-IsApproval :
          (input : IntentValidationInput W) (intent : TradeIntent W) (a : Approval W)
          → validate_trade_intent num to_text trim date_parse clock input ≡ approved intent a
          → (intent ≡ input.intent)
            × HasFields num trim date_parse
                (get_or input.options.now_ms clock)
                input.intent
                input.market
            × IsApproval input.options input.intent
                (resolve_entry_price num input.intent input.market)
                (parse_finite_price num (some (text input.intent.stop_loss)))
                (parse_finite_price num (some (text input.intent.take_profit)))
                (spread_pct num input.market)
                a
      unfolding validate_trade_intent
      validate_trade_intent-IsApproval input intent a h =
          let p = validate_levels-approved input.options input.intent intent _ _ _ _ _ a h in
          (
            sym p.1,
            Clear-HasFields num trim date_parse _ input.intent input.market (rejected-Clear _ p.0),
            p.2,
          )

      pub IsApproval-validate_trade_intent :
          (input : IntentValidationInput W) (a : Approval W)
          → HasFields num trim date_parse
              (get_or input.options.now_ms clock)
              input.intent
              input.market
          → IsApproval input.options input.intent
              (resolve_entry_price num input.intent input.market)
              (parse_finite_price num (some (text input.intent.stop_loss)))
              (parse_finite_price num (some (text input.intent.take_profit)))
              (spread_pct num input.market)
              a
          → validate_trade_intent num to_text trim date_parse clock input ≡ approved input.intent a
      unfolding validate_trade_intent
      IsApproval-validate_trade_intent input a f h =
          let side = side_known _ _ _ _ h.levels_hold.in_order in
          rw
            (Clear-rejected _
              (HasFields-Clear num trim date_parse _ input.intent input.market side f))
            (validate_levels-IsApproval input.options input.intent _ _ _ _ a
              (parse_given _ a.stop_loss h.stop_is) (parse_given _ a.take_profit h.take_is) h)

      -- An intent is approved exactly if its fields, its prices and its levels are as they have to be and no
      -- flag speaks against it; what is approved is that intent, with the prices read, the
      -- metrics of its levels and the spread.
      pub validate_trade_intent_iff :
          (input : IntentValidationInput W) (intent : TradeIntent W) (a : Approval W)
          → (validate_trade_intent num to_text trim date_parse clock input ≡ approved intent a) ↔ (
              (intent ≡ input.intent)
              × HasFields num trim date_parse
                  (get_or input.options.now_ms clock)
                  input.intent
                  input.market
              × IsApproval input.options input.intent
                  (resolve_entry_price num input.intent input.market)
                  (parse_finite_price num (some (text input.intent.stop_loss)))
                  (parse_finite_price num (some (text input.intent.take_profit)))
                  (spread_pct num input.market)
                  a)
      validate_trade_intent_iff input intent a = (
        validate_trade_intent-IsApproval input intent a,
        λ h. IsApproval-validate_trade_intent input a h.1 h.2 ∙ ap (λ i. approved i a) (sym h.0),
      )
