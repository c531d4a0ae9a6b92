-- ===== src/Runtime/NegativeClosePolicy.antt =====
-- src/runtime/negative-close-policy.ts. Numbers are those of `Num`, and `Date.parse`, which gives NaN
-- for a text that is no date, is a parameter.
mod Laws
mod Tests
use coindcx_bot.Prelude.{
  String, Bool, true, false, not, ◌||◌, Option, none, some, if◌then◌else◌, ◌==◌, string_key,
}
use coindcx_bot.Prelude.Num.{Num}

pub record NegativeCloseContext {ℓ} (W : Type ℓ) : Type ℓ where
  pub unrealized_pnl : W
  pub max_confluence_score : W
  pub breakeven_armed : Bool
  pub opened_at : Option String
  pub now_ms : W
  pub time_stop_ms : W
  pub high_confluence_threshold : W

pub data CloseReason : Type 0 where
  positive_pnl_or_flat high_confluence_gate breakeven_lock : CloseReason
  time_stop_not_reached time_stop_kill : CloseReason

pub record NegativeCloseDecision : Type 0 where
  pub allow : Bool
  pub reason : CloseReason

abbrev pub decided : Bool → CloseReason → NegativeCloseDecision
decided allow reason = record { allow = allow; reason = reason }

module _ {ℓ} {W : Type ℓ} (num : Num W) (date_parse : String → W) where
  open num use {of_ℕ, lt, le, is_finite, sub}

  unfoldable pub parse_ts_ms : Option String → Option W
  parse_ts_ms none = none
  parse_ts_ms (some value) =
      if value == "" || not (is_finite (date_parse value)) then none else some (date_parse value)

  unfoldable pub time_stop : NegativeCloseContext W → Option W → NegativeCloseDecision
  time_stop input none = decided false time_stop_not_reached
  time_stop input (some opened) =
      if le input.time_stop_ms (of_ℕ 0)
      then decided false time_stop_not_reached
      else (if lt (sub input.now_ms opened) input.time_stop_ms
          then decided false time_stop_not_reached
          else decided true time_stop_kill)

  unfoldable pub should_allow_negative_close : NegativeCloseContext W → NegativeCloseDecision
  should_allow_negative_close input =
      if le (of_ℕ 0) input.unrealized_pnl
      then decided true positive_pnl_or_flat
      else (if le input.high_confluence_threshold input.max_confluence_score
          then decided false high_confluence_gate
          else (if input.breakeven_armed
              then decided false breakeven_lock
              else time_stop input (parse_ts_ms input.opened_at)))
