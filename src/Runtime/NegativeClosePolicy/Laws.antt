-- ===== src/Runtime/NegativeClosePolicy/Laws.antt =====
-- Which losing positions may be closed.
use coindcx_bot.Prelude.{
  String, ◌≡◌, ◌≢◌, refl, inl, inr, true, false, Option, none, some, string_key, arith, Bool-cases,
}
use coindcx_bot.Prelude.Num.{Num}
use coindcx_bot.Runtime.NegativeClosePolicy.{
  NegativeCloseContext, parse_ts_ms, time_stop, should_allow_negative_close,
}

false≢true : false ≢ true
false≢true e = cc

module _ {ℓ} {W : Type ℓ} (num : Num W) (date_parse : String → W) where
  open num use {of_ℕ, lt, le, is_finite, sub}

  -- What lets a losing position be closed.
  pub record IsTimedOut (input : NegativeCloseContext W) : Type ℓ where
    pub opened : String
    pub opened_is : input.opened_at ≡ some opened
    pub opened_finite : is_finite (date_parse opened) ≡ true
    pub low_score : le input.high_confluence_threshold input.max_confluence_score ≡ false
    pub not_armed : input.breakeven_armed ≡ false
    pub has_time_stop : le input.time_stop_ms (of_ℕ 0) ≡ false
    pub time_passed : lt (sub input.now_ms (date_parse opened)) input.time_stop_ms ≡ false

  time_stop_allows :
      (input : NegativeCloseContext W) (opened : Option String)
      → input.opened_at ≡ opened
      → le input.high_confluence_threshold input.max_confluence_score ≡ false
      → input.breakeven_armed ≡ false
      → (time_stop num date_parse input (parse_ts_ms num date_parse opened)).allow ≡ true
      → IsTimedOut input
  unfolding time_stop parse_ts_ms
  time_stop_allows input none o low armed e = cc
  time_stop_allows input (some opened) o low armed e = record {
    opened = opened;
    opened_is = o;
    opened_finite = ground (arith, e);
    low_score = low;
    not_armed = armed;
    has_time_stop = ground (arith, e);
    time_passed = ground (arith, e);
  }

  -- A position at a loss may be closed only when its time stop has passed since a known opening, its
  -- confluence was never high and its breakeven lock was not armed.
  pub should_allow_negative_close-IsTimedOut :
      (input : NegativeCloseContext W)
      → le (of_ℕ 0) input.unrealized_pnl ≡ false
      → (should_allow_negative_close num date_parse input).allow ≡ true
      → IsTimedOut input
  unfolding should_allow_negative_close time_stop
  should_allow_negative_close-IsTimedOut input loss e =
      elim (Bool-cases (le input.high_confluence_threshold input.max_confluence_score)) [
        | inl h ↦ absurd (false≢true (rw (loss, h) at e))
        | inr h ↦ elim (Bool-cases input.breakeven_armed) [
          | inl a ↦ absurd (false≢true (rw (loss, h, a) at e))
          | inr a ↦ time_stop_allows input input.opened_at refl h a (rw (loss, h, a) at e)
        ]
      ]
