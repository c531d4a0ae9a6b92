-- ===== src/Execution/IntentValidator/Checks.antt =====
-- The checks on the fields of an intent.
use coindcx_bot.Prelude.{
  String, ◌≡◌, ◌≢◌, refl, ap, ◌⊎◌, Bool, true, false, not, Option, none, some, List, [], ◌∷◌, ◌++◌,
  arith, string_key, All,
}
use coindcx_bot.Prelude.Num.{Num}
use coindcx_bot.Execution.TradeIntent.{TradeIntent, is_trade_side}
use coindcx_bot.Execution.IntentValidator.{
  IntentRejectionCode, IntentMarketContext, rejected, is_false, is_true, field_checks,
}

pub append_nil : (a b : List IntentRejectionCode) → a ++ b ≡ [] → (a ≡ []) × (b ≡ [])
append_nil [] b e = (refl, e)
append_nil (x ∷ a) b e = cc

abbrev pub Clear : List (Bool × IntentRejectionCode) → Type 0
Clear = All (λ c. c.0 ≡ false)

pub rejected-Clear : (cs : List (Bool × IntentRejectionCode)) → rejected cs ≡ [] → Clear cs
unfolding rejected
rejected-Clear [] e = tt
rejected-Clear ((true, code) ∷ cs) e = cc
rejected-Clear ((false, code) ∷ cs) e = (refl, rejected-Clear cs e)

pub Clear-rejected : (cs : List (Bool × IntentRejectionCode)) → Clear cs → rejected cs ≡ []
unfolding rejected
Clear-rejected [] e = refl
Clear-rejected ((b, code) ∷ cs) (e, es) = rw e (Clear-rejected cs es)

module _ {ℓ} {W : Type ℓ} (num : Num W) (trim : String → String) (date_parse : String → W) where
  open num use {of_ℕ, number, lt, le, is_finite, sub}

  -- What the fields of an intent and the flags of its context have to be.
  pub record HasFields (now : W) (intent : TradeIntent W) (market : IntentMarketContext W)
      : Type ℓ where
    pub pair_given : trim intent.pair ≢ ""
    pub type_known : (intent.entry_type ≡ "market") ⊎ (intent.entry_type ≡ "limit")
    pub confidence_finite : is_finite intent.confidence ≡ true
    pub confidence_from : lt intent.confidence (of_ℕ 0) ≡ false
    pub confidence_to : lt (of_ℕ 1) intent.confidence ≡ false
    pub ttl_finite : is_finite intent.ttl_ms ≡ true
    pub ttl_positive : le intent.ttl_ms (of_ℕ 0) ≡ false
    pub created_finite : is_finite (date_parse intent.created_at) ≡ true
    pub not_expired : lt intent.ttl_ms (sub now (date_parse intent.created_at)) ≡ false
    pub market_fresh : market.market_data_fresh ≢ some false
    pub account_fresh : market.account_state_fresh ≢ some false
    pub not_divergent : market.account_is_divergent ≢ some true

  is_false-no : (b : Option Bool) → is_false b ≡ false → b ≢ some false
  is_false-no b e h = ground arith

  no-is_false : (b : Option Bool) → b ≢ some false → is_false b ≡ false
  no-is_false none h = refl
  no-is_false (some true) h = refl
  no-is_false (some false) h = absurd (h refl)

  is_true-no : (b : Option Bool) → is_true b ≡ false → b ≢ some true
  is_true-no b e h = ground arith

  no-is_true : (b : Option Bool) → b ≢ some true → is_true b ≡ false
  no-is_true none h = refl
  no-is_true (some false) h = refl
  no-is_true (some true) h = absurd (h refl)

  pub Clear-HasFields :
      (now : W) (intent : TradeIntent W) (market : IntentMarketContext W)
      → Clear (field_checks num trim date_parse now intent market)
      → HasFields now intent market
  Clear-HasFields now intent market (p1, (p2, (p3, (p4, (p5, (p6, (p7, (p8, (p9, (p10, u)))))))))) =
      record {
        pair_given = λ h. ground (arith, p1, string_key.same_iff (trim intent.pair) "");
        type_known = ground (
          arith,
          string_key.same_iff intent.entry_type "market",
          string_key.same_iff intent.entry_type "limit",
        );
        confidence_finite = ground arith;
        confidence_from = ground arith;
        confidence_to = ground arith;
        ttl_finite = ground arith;
        ttl_positive = ground arith;
        created_finite = ground arith;
        not_expired = ground arith;
        market_fresh = is_false-no _ p8;
        account_fresh = is_false-no _ p9;
        not_divergent = is_true-no _ p10;
      }

  pub HasFields-Clear :
      (now : W) (intent : TradeIntent W) (market : IntentMarketContext W)
      → is_trade_side intent.side ≡ true
      → HasFields now intent market
      → Clear (field_checks num trim date_parse now intent market)
  HasFields-Clear now intent market s h = (
    ground (arith, h.pair_given, string_key.same_iff (trim intent.pair) ""),
    (
      ap not s,
      (
        ground (
          arith,
          h.type_known,
          string_key.same_iff intent.entry_type "market",
          string_key.same_iff intent.entry_type "limit",
        ),
        (
          ground (arith, h.confidence_finite, h.confidence_from, h.confidence_to),
          (
            ground (arith, h.ttl_finite, h.ttl_positive),
            (
              ap not h.created_finite,
              (
                ground (arith, h.not_expired),
                (
                  no-is_false _ h.market_fresh,
                  (no-is_false _ h.account_fresh, (no-is_true _ h.not_divergent, tt)),
                ),
              ),
            ),
          ),
        ),
      ),
    ),
  )
