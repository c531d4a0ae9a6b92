-- ===== src/Strategy/Scheduler/InFlight.antt =====
-- The `pending` set of a driver's entry, an insertion-ordered `Set` of pairs, against the evaluations that
-- are running: the code adds a pair when it starts one, and deletes it when one ends.
use coindcx_bot.Prelude.{
  ℕ, ◌+◌, ◌-◌, ◌≤◌, String, ◌≡◌, refl, Bool, false, not, ◌&&◌, ◌||◌, List, [], ◌∷◌, ◌++◌,
  if◌then◌else◌, ◌==◌, string_key, any, filter, arith,
}
use coindcx_bot.Strategy.Types.{TickChannel}

-- `StrategyTrigger`, with the kinds that the drivers use. `M` is the type of a raw message.
pub data StrategyTrigger {ℓ} (M : Type ℓ) : Type ℓ where
  interval_trigger : StrategyTrigger M
  tick_trigger : TickChannel → M → StrategyTrigger M
  bar_close_trigger : (tf : String) → StrategyTrigger M

pub record Evaluation {ℓ} (M : Type ℓ) : Type ℓ where
  pub id : String
  pub pair : String
  pub trigger : StrategyTrigger M

abbrev pub has_pair : String → List String → Bool
has_pair p xs = any (λ x. x == p) xs

abbrev pub delete_pair : String → List String → List String
delete_pair p xs = filter (λ x. not (x == p)) xs

-- How many evaluations of a pair are running, and one of them ended.
abbrev pub count : String → List String → ℕ
count p [] = 0
count p (x ∷ xs) = (if x == p then 1 else 0) + count p xs

abbrev pub remove_one : String → List String → List String
remove_one p [] = []
remove_one p (x ∷ xs) = if x == p then xs else x ∷ remove_one p xs

pub has_pair-snoc :
    (p q : String) (xs : List String) → has_pair p (xs ++ q ∷ []) ≡ (has_pair p xs || q == p)
has_pair-snoc p q [] = ground arith
has_pair-snoc p q (x ∷ xs) = ground (arith, has_pair-snoc p q xs)

pub has_pair-delete_pair :
    (p q : String) (xs : List String)
    → has_pair p (delete_pair q xs) ≡ (has_pair p xs && not (q == p))
has_pair-delete_pair p q [] = refl
has_pair-delete_pair p q (x ∷ xs) = ground (
  arith,
  has_pair-delete_pair p q xs,
  string_key.same_iff x q,
  string_key.same_iff x p,
  string_key.same_iff q p,
)

pub count-snoc :
    (p q : String) (xs : List String)
    → count p (xs ++ q ∷ []) ≡ count p xs + (if q == p then 1 else 0)
count-snoc p q [] = omega arith
count-snoc p q (x ∷ xs) = ground (arith, count-snoc p q xs)

pub count-remove_one :
    (p q : String) (xs : List String)
    → count p (remove_one q xs) ≡ count p xs - (if q == p then 1 else 0)
count-remove_one p q [] = omega arith
count-remove_one p q (x ∷ xs) = ground (
  arith,
  count-remove_one p q xs,
  string_key.same_iff x q,
  string_key.same_iff x p,
  string_key.same_iff q p,
)

-- One evaluation of each pending pair is running, and none of another.
abbrev pub Matches : (pending running : List String) → Type 0
Matches pending running = (p : String) → count p running ≡ (if has_pair p pending then 1 else 0)

pub begin-Matches :
    (q : String) (pending running : List String)
    → has_pair q pending ≡ false
    → Matches pending running
    → Matches (pending ++ q ∷ []) (running ++ q ∷ [])
begin-Matches q pending running h m p =
    ground (arith, m p, has_pair-snoc p q pending, count-snoc p q running, string_key.same_iff q p)

pub end_evaluation-Matches :
    (q : String) (pending running : List String)
    → Matches pending running
    → Matches (delete_pair q pending) (remove_one q running)
end_evaluation-Matches q pending running m p =
    ground (arith, m p, has_pair-delete_pair p q pending, count-remove_one p q running)

pub Matches-single :
    (pending running : List String) → Matches pending running → (p : String) → count p running ≤ 1
Matches-single pending running m p = ground (arith, m p)
