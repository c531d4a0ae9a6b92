-- ===== src/Safety/ReadOnlyGuard/Tests.antt =====
-- The guard on requests that the exchange's API documents.
use coindcx_bot.Prelude.{
  String, ◌≡◌, refl, inl, inr, ◌↔◌, none, some, [], ◌==◌, string_key, if◌then◌else◌,
}
use coindcx_bot.Safety.ReadOnlyGuard.{
  GuardOptions, RequestConfig, passed, thrown, has_prefix_in, is_write_verb, deny, allow_posts,
  path_of, violation, intercept,
}
use coindcx_bot.Safety.ReadOnlyGuard.Laws.{
  IsReadOnly, HasPrefixIn, →has_prefix_in, intercept-IsReadOnly, deny_paths-thrown,
  signed_read_prefix-passed,
}

-- `toUpperCase` on the verbs that the clients use.
abbrev upper : String → String
upper s =
    if s == "get" then "GET" else if s == "post" then "POST" else if s == "put" then "PUT" else s

abbrev no_options : GuardOptions
no_options = record { extra_deny_paths = []; signed_read_post_paths = [] }

abbrev request : String → String → RequestConfig
request method url = record { method = some method; url = some url }

abbrev create_order : RequestConfig
create_order = request "post" "/exchange/v1/derivatives/futures/orders/create"

abbrev read_positions : RequestConfig
read_positions = request "post" "/exchange/v1/derivatives/futures/positions"

abbrev update_leverage : RequestConfig
update_leverage = request "post" "/exchange/v1/derivatives/futures/positions/update_leverage"

guard : Unit {0}
unfolding intercept has_prefix_in is_write_verb deny allow_posts
guard = tt

guard_runs :
    (intercept upper no_options create_order ≡ thrown (violation upper create_order))
    × (intercept upper no_options read_positions ≡ passed read_positions)
    × (intercept upper no_options (request "put" "/anything")
        ≡ thrown (violation upper (request "put" "/anything")))
    × (intercept upper no_options (record { method = none; url = none })
        ≡ passed (record { method = none; url = none }))
unfolding guard
guard_runs = (refl, refl, refl, refl)

intercept-IsReadOnly_example :
    ((intercept upper no_options read_positions ≡ passed read_positions)
      ↔ IsReadOnly upper no_options read_positions)
    × (¬ IsReadOnly upper no_options read_positions
        → intercept upper no_options read_positions ≡ thrown (violation upper read_positions))
intercept-IsReadOnly_example = intercept-IsReadOnly upper no_options read_positions

deny_paths-thrown_example :
    intercept upper no_options create_order ≡ thrown (violation upper create_order)
deny_paths-thrown_example =
    deny_paths-thrown upper no_options create_order
      (inr (inr (inr (inr (inr (inr (inr (inr (inl ("", refl))))))))))

not_denied : ¬ HasPrefixIn (deny no_options) (path_of update_leverage)
unfolding guard
not_denied h = cc (→has_prefix_in (deny no_options) (path_of update_leverage) h)

-- The endpoint that sets a position's leverage lies below the entry for reading positions.
signed_read_prefix-passed_example :
    intercept upper no_options update_leverage ≡ passed update_leverage
signed_read_prefix-passed_example =
    signed_read_prefix-passed upper no_options update_leverage refl (inl ("/update_leverage", refl))
      not_denied
