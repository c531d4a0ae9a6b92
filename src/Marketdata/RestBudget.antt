-- ===== src/Marketdata/RestBudget.antt =====
-- src/marketdata/rate-limit/rest-budget.ts: the token buckets that bound REST calls. A token is
-- 60 000 units, so that the refill of `elapsed / 1000 * perMin / 60` tokens is the whole number
-- `elapsed * perMin` of units; the source rounds the same quantities as floats. Units are integers,
-- since a clock that steps back takes tokens away. An `acquire` is the list of the clock readings of
-- its rounds, one every 50 ms: the budget's own clock, and `Date.now()` for the deadline.
pub mod Rate
mod Tests
use coindcx_bot.Prelude.{
  ℕ, suc, ◌+◌, ◌*◌, String, Bool, true, false, ◌&&◌, Option, none, some, List, [], ◌∷◌, string_key,
  if◌then◌else◌, leb, get_or,
}
use coindcx_bot.Prelude.Dict.{Dict, get, set}
use coindcx_bot.Prelude.Int.{ℤ, pos, ◌+ℤ◌, ◌-ℤ◌, min_ℤ, leb_ℤ}

abbrev pub token : ℕ
token = 60_000

pub record RestBudgetOptions : Type 0 where
  pub global_per_min : ℕ
  pub pair_per_min : ℕ
  pub timeout_ms : ℕ

pub record Bucket : Type 0 where
  pub tokens : ℤ
  pub cap : ℕ
  pub refill_rate : ℕ
  pub last : ℕ

pub record RestBudget : Type 0 where
  pub opts : RestBudgetOptions
  pub global : Bucket
  pub per_pair : Dict String Bucket

pub make_bucket : (per_min now : ℕ) → Bucket
make_bucket per_min now = record {
  tokens = pos (per_min * token);
  cap = per_min * token;
  refill_rate = per_min;
  last = now;
}

pub new_budget : RestBudgetOptions → ℕ → RestBudget
new_budget opts now = record {
  opts = opts;
  global = make_bucket opts.global_per_min now;
  per_pair = [];
}

pub refill : Bucket → ℕ → Bucket
refill b t = record b {
  tokens =
      min_ℤ (pos b.cap) (b.tokens +ℤ (pos (t * b.refill_rate) -ℤ pos (b.last * b.refill_rate)));
  last = t;
}

abbrev pub has_token : Bucket → Bool
has_token b = leb_ℤ (pos token) b.tokens

pub take_token : Bucket → Bucket
take_token b = record b { tokens = b.tokens -ℤ pos token }

-- One round of the loop of `acquire`, and whether it returns.
pub attempt : RestBudget → String → (now : ℕ) → RestBudget × Bool
attempt r pair now =
    let pb = refill (get_or (get pair r.per_pair) (make_bucket r.opts.pair_per_min now)) now in
    let global = refill r.global now in
    if has_token global && has_token pb
    then (
      record r { global = take_token global; per_pair = set pair (take_token pb) r.per_pair },
      true,
    )
    else (record r { global = global; per_pair = set pair pb r.per_pair }, false)

pub data AcquireResult : Type 0 where
  granted exhausted waiting : AcquireResult

-- The rounds of `acquire`, with the two clock readings of each; `waiting` if they end too soon.
pub acquire_rounds :
    RestBudget → (pair : String) (deadline : ℕ) → List (ℕ × ℕ) → RestBudget × AcquireResult
acquire_rounds r pair deadline [] = (r, waiting)
acquire_rounds r pair deadline ((now, wall) ∷ rest) =
    let a = attempt r pair now in
    elim a.1 [
      | true ↦ (a.0, granted)
      | false ↦ elim (leb deadline wall) [
        | true ↦ (a.0, exhausted)
        | false ↦ acquire_rounds a.0 pair deadline rest
      ]
    ]

-- `start` is `Date.now()` at the call.
pub acquire : RestBudget → (pair : String) (start : ℕ) → List (ℕ × ℕ) → RestBudget × AcquireResult
acquire r pair start rounds = acquire_rounds r pair (start + r.opts.timeout_ms) rounds
