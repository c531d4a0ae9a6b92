-- ===== src/Marketdata/RestBudget/Rate.antt =====
-- How many calls the budget grants, and that a caller is answered.
use coindcx_bot.Prelude.{
  ℕ, suc, ◌+◌, ◌*◌, ◌≤◌, ◌<◌, ◌≡◌, ◌≢◌, refl, ◌∙◌, String, Bool, true, false, ◌&&◌, List, [], ◌∷◌,
  string_key, if◌then◌else◌, leb, get_or, arith, length, Bool-cases, inl, inr,
}
use native.Mathlib.Nat.{mul-le-mul_right}
use coindcx_bot.Prelude.Dict.{get}
use coindcx_bot.Prelude.Int.{pos, pos_part, neg_part, ◌-ℤ◌, ◌≤ℤ◌, +ℤ_parts, -ℤ_parts}
use coindcx_bot.Marketdata.RestBudget.{
  token, RestBudgetOptions, Bucket, RestBudget, make_bucket, new_budget, refill, has_token,
  take_token, attempt, waiting, acquire_rounds, acquire,
}

-- Rounds of any callers, for any pairs, in the order in which they run: when, and for which pair.
unfoldable pub run_attempts : RestBudget → List (ℕ × String) → RestBudget × ℕ
run_attempts r [] = (r, 0)
run_attempts r ((now, pair) ∷ rest) =
    let a = attempt r pair now in
    let later = run_attempts a.0 rest in (later.0, (if a.1 then suc later.1 else later.1))

-- The clock does not step back.
abbrev pub Monotone : ℕ → List (ℕ × String) → Type 0
Monotone last [] = Unit
Monotone last ((now, pair) ∷ rest) = (last ≤ now) × Monotone now rest

abbrev pub last_time : ℕ → List (ℕ × String) → ℕ
last_time last [] = last
last_time last ((now, pair) ∷ rest) = last_time now rest

-- A bucket that is not overdrawn: what it holds is no debt and fits its capacity.
pub record IsFilled (b : Bucket) : Type 0 where
  pub no_debt : pos 0 ≤ℤ b.tokens
  pub within : b.tokens ≤ℤ pos b.cap

make_bucket-IsFilled : (per_min now : ℕ) → IsFilled (make_bucket per_min now)
unfolding make_bucket
make_bucket-IsFilled per_min now = omega arith

-- What a bucket gains by a refill, with nothing spent: at most the rate times the time gone by.
refill-IsFilled : (b : Bucket) (t : ℕ) → b.last ≤ t → IsFilled b → IsFilled (refill b t)
unfolding refill
refill-IsFilled b t h f =
    let gain = pos (t * b.refill_rate) -ℤ pos (b.last * b.refill_rate) in
    ground (
      arith,
      mul-le-mul_right b.refill_rate h,
      -ℤ_parts (pos (t * b.refill_rate)) (pos (b.last * b.refill_rate)),
      +ℤ_parts b.tokens gain,
    )

-- `x - last * rate` never grows by more than what is spent.
abbrev Spends : Bucket → ℕ → Bucket → Type 0
Spends b cost b' =
    (b'.refill_rate ≡ b.refill_rate)
    × (pos_part b'.tokens + cost + b.last * b.refill_rate + neg_part b.tokens
        ≤ pos_part b.tokens + b'.last * b.refill_rate + neg_part b'.tokens)

refill-Spends : (b : Bucket) (t : ℕ) → Spends b 0 (refill b t)
unfolding refill
refill-Spends b t =
    let gain = pos (t * b.refill_rate) -ℤ pos (b.last * b.refill_rate) in
    ground (
      arith,
      -ℤ_parts (pos (t * b.refill_rate)) (pos (b.last * b.refill_rate)),
      +ℤ_parts b.tokens gain,
    )

take_token-Spends : (b b' : Bucket) → Spends b 0 b' → Spends b token (take_token b')
unfolding take_token
take_token-Spends b b' h = ground (arith, -ℤ_parts b'.tokens (pos token))

take_token-IsFilled : (b : Bucket) → has_token b ≡ true → IsFilled b → IsFilled (take_token b)
unfolding take_token
take_token-IsFilled b e f = ground (arith, -ℤ_parts b.tokens (pos token))

abbrev spent : Bool → ℕ
spent true = token
spent false = 0

-- One round moves the global bucket by a refill and, if it grants the call, one token.
attempt-global :
    (r : RestBudget) (pair : String) (now : ℕ)
    → let a = attempt r pair now in
      Spends r.global (spent a.1) a.0.global
      × (a.0.global.last ≡ now)
      × (r.global.last ≤ now → IsFilled r.global → IsFilled a.0.global)
unfolding attempt refill take_token
attempt-global r pair now =
    let pb = refill (get_or (get pair r.per_pair) (make_bucket r.opts.pair_per_min now)) now in
    let g = refill r.global now in
    elim (Bool-cases (has_token g && has_token pb)) [
      | inl e ↦ rw e (
        take_token-Spends r.global g (refill-Spends r.global now),
        refl,
        λ h f. take_token-IsFilled g (ground arith) (refill-IsFilled r.global now h f),
      )
      | inr e ↦ rw e (refill-Spends r.global now, refl, refill-IsFilled r.global now)
    ]

run_attempts-spent :
    (r : RestBudget) (trace : List (ℕ × String)) (rate : ℕ)
    → r.global.refill_rate ≡ rate
    → IsFilled r.global
    → Monotone r.global.last trace
    → token * (run_attempts r trace).1 + r.global.last * rate + neg_part r.global.tokens
      ≤ pos_part r.global.tokens + last_time r.global.last trace * rate
unfolding run_attempts
run_attempts-spent r [] rate e f m = omega arith
run_attempts-spent r ((now, pair) ∷ rest) rate e f (h, m) =
    let a = attempt r pair now in
    let (s, l, k) = attempt-global r pair now in
    let later = run_attempts-spent a.0 rest rate (s.0 ∙ e) (k h f) (rw l m) in
    let ih = rw l at later in let now_spent = rw (l, e) at s.1 in ground (arith, ih, now_spent)

-- However many callers wait for however many pairs, and in whatever order their rounds run, on a
-- clock that does not step back: from its creation to any later time the budget grants at most its
-- capacity of one minute and what the rate adds in that time.
pub run_attempts-bound :
    (opts : RestBudgetOptions) (start : ℕ) (trace : List (ℕ × String))
    → Monotone start trace
    → token * (run_attempts (new_budget opts start) trace).1 + start * opts.global_per_min
      ≤ opts.global_per_min * token + last_time start trace * opts.global_per_min
unfolding new_budget make_bucket
run_attempts-bound opts start trace m = omega (
  arith,
  run_attempts-spent (new_budget opts start) trace opts.global_per_min refl
      (make_bucket-IsFilled opts.global_per_min start) m,
)

-- The rounds of one caller: after each the caller sleeps 50 ms or more.
abbrev pub Sleeps : ℕ → List (ℕ × ℕ) → Type 0
Sleeps earliest [] = Unit
Sleeps earliest ((now, wall) ∷ rest) = (earliest ≤ wall) × Sleeps (wall + 50) rest

acquire_rounds-ends :
    (r : RestBudget) (pair : String) (deadline earliest : ℕ) (rounds : List (ℕ × ℕ))
    → Sleeps earliest rounds
    → deadline + 50 ≤ earliest + 50 * length rounds
    → 0 < length rounds
    → (acquire_rounds r pair deadline rounds).1 ≢ waiting
unfolding acquire_rounds
acquire_rounds-ends r pair deadline earliest [] s h n = absurd (omega arith)
acquire_rounds-ends r pair deadline earliest ((now, wall) ∷ rest) (w, s) h n =
    elim (Bool-cases (attempt r pair now).1) [
      | inl e ↦ rw (e, acquire_rounds) (λ p. cc)
      | inr e ↦ elim (Bool-cases (leb deadline wall)) [
        | inl d ↦ rw (e, d, acquire_rounds) (λ p. cc)
        | inr d ↦
            let early : wall < deadline = ground arith in
            rw (e, d, acquire_rounds)
              (acquire_rounds-ends (attempt r pair now).0 pair deadline (wall + 50) rest s
                (omega arith) (omega arith))
      ]
    ]

-- A caller that sleeps 50 ms or more between its rounds is answered, by a grant or by the error,
-- within one round more than its timeout has sleeps.
pub acquire-ends :
    (r : RestBudget) (pair : String) (start : ℕ) (rounds : List (ℕ × ℕ))
    → Sleeps start rounds
    → r.opts.timeout_ms + 50 ≤ 50 * length rounds
    → (acquire r pair start rounds).1 ≢ waiting
unfolding acquire
acquire-ends r pair start rounds s h =
    acquire_rounds-ends r pair (start + r.opts.timeout_ms) start rounds s (omega arith)
      (omega arith)
