-- ===== src/Safety/ReadOnlyGuard.antt =====
-- src/safety/read-only-guard.ts: the request interceptor that every HTTP client is given.
-- The callback `onViolation` is shown by the value that is thrown right after it, which carries the
-- same fields.
pub mod Laws
mod Tests
use text.Mathlib.Text.{starts_with}
use coindcx_bot.Prelude.{
  ℕ, String, Bool, true, false, ◌&&◌, not, Option, none, some, List, [], ◌∷◌, ◌++◌, ◌==◌,
  string_key, if◌then◌else◌, get_or, any,
}

pub record WriteRateLimitPolicy : Type 0 where
  pub path_prefix : String
  pub max_requests : ℕ
  pub window_ms : ℕ

abbrev pub write_rate_limit_policies : List WriteRateLimitPolicy
write_rate_limit_policies =
    record { path_prefix = "/exchange/v1/orders/cancel_all"; max_requests = 30; window_ms = 60_000 }
    ∷ record {
      path_prefix = "/exchange/v1/derivatives/futures/positions/cancel_all_open_orders";
      max_requests = 30;
      window_ms = 60_000;
    }
    ∷ []

-- `find`
find_policy : String → List WriteRateLimitPolicy → Option WriteRateLimitPolicy
find_policy path [] = none
find_policy path (p ∷ ps) = if starts_with path p.path_prefix then some p else find_policy path ps

pub get_write_rate_limit_policy : String → Option WriteRateLimitPolicy
unfolding find_policy
get_write_rate_limit_policy path = find_policy path write_rate_limit_policies

pub record ReadOnlyViolation : Type 0 where
  pub method : String
  pub path : String
  pub rate_limit_policy : Option WriteRateLimitPolicy

abbrev pub deny_paths : List String
deny_paths =
    "/exchange/v1/orders/create" ∷ "/exchange/v1/orders/cancel" ∷ "/exchange/v1/orders/edit"
    ∷ "/exchange/v1/orders/cancel_all" ∷ "/exchange/v1/orders/cancel_by_ids"
    ∷ "/exchange/v1/funds/transfer" ∷ "/exchange/v1/wallets/transfer"
    ∷ "/exchange/v1/wallets/sub_account_transfer" ∷ "/exchange/v1/derivatives/futures/orders/create"
    ∷ "/exchange/v1/derivatives/futures/orders/cancel"
    ∷ "/exchange/v1/derivatives/futures/orders/edit"
    ∷ "/exchange/v1/derivatives/futures/positions/cancel_all_open_orders"
    ∷ "/exchange/v1/derivatives/futures/positions/cancel_all_open_orders_for_position"
    ∷ "/exchange/v1/derivatives/futures/positions/create_tpsl"
    ∷ "/exchange/v1/derivatives/futures/positions/exit"
    ∷ "/exchange/v1/derivatives/futures/positions/add_margin"
    ∷ "/exchange/v1/derivatives/futures/positions/remove_margin"
    ∷ "/exchange/v1/derivatives/futures/positions/margin_type"
    ∷ "/exchange/v1/derivatives/futures/wallets/transfer" ∷ []

abbrev pub signed_read_post_paths : List String
signed_read_post_paths =
    "/exchange/v1/derivatives/futures/positions" ∷ "/exchange/v1/derivatives/futures/orders"
    ∷ "/exchange/v1/derivatives/futures/trades" ∷ "/exchange/v1/derivatives/futures/wallets"
    ∷ "/exchange/v1/derivatives/futures/wallets/transactions"
    ∷ "/exchange/v1/derivatives/futures/positions/transactions"
    ∷ "/exchange/v1/derivatives/futures/positions/cross_margin_details"
    ∷ "/api/v1/derivatives/futures/data/stats" ∷ "/api/v1/derivatives/futures/data/conversions"
    ∷ "/exchange/v1/margin/fetch_orders" ∷ "/exchange/v1/funding/fetch_orders"
    ∷ "/exchange/v1/users/balances" ∷ "/exchange/v1/users/info"
    ∷ "/exchange/v1/orders/active_orders" ∷ "/exchange/v1/orders/active_orders_count"
    ∷ "/exchange/v1/orders/trade_history" ∷ "/exchange/v1/orders/status"
    ∷ "/exchange/v1/orders/status_multiple" ∷ []

abbrev pub write_verbs : List String
write_verbs = "POST" ∷ "PUT" ∷ "PATCH" ∷ "DELETE" ∷ []

pub record GuardOptions : Type 0 where
  pub extra_deny_paths : List String
  pub signed_read_post_paths : List String

-- The two fields of the request that the interceptor reads; both may be missing.
pub record RequestConfig : Type 0 where
  pub method : Option String
  pub url : Option String

pub data Outcome : Type 0 where
  passed : RequestConfig → Outcome
  thrown : ReadOnlyViolation → Outcome

pub has_prefix_in : List String → String → Bool
has_prefix_in prefixes path = any (λ p. starts_with path p) prefixes

pub is_write_verb : String → Bool
is_write_verb method = any (λ v. v == method) write_verbs

pub deny : GuardOptions → List String
deny opts = deny_paths ++ opts.extra_deny_paths

pub allow_posts : GuardOptions → List String
allow_posts opts = signed_read_post_paths ++ opts.signed_read_post_paths

abbrev pub path_of : RequestConfig → String
path_of req = get_or req.url ""

-- `toUpperCase` goes by the Unicode tables of the engine, and is a parameter.
module _ (to_upper : String → String) where
  abbrev pub method_of : RequestConfig → String
  method_of req = to_upper (get_or req.method "get")

  pub violation : RequestConfig → ReadOnlyViolation
  violation req = record {
    method = method_of req;
    path = path_of req;
    rate_limit_policy =
        if method_of req == "POST" then get_write_rate_limit_policy (path_of req) else none;
  }

  -- The interceptor that `applyReadOnlyGuard` installs.
  pub intercept : GuardOptions → RequestConfig → Outcome
  intercept opts req =
      if has_prefix_in (deny opts) (path_of req)
      then thrown (violation req)
      else if is_write_verb (method_of req)
      then (if method_of req == "POST" && has_prefix_in (allow_posts opts) (path_of req)
          then passed req
          else thrown (violation req))
      else passed req
