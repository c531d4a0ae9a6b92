-- ===== src/Strategy/Risk/Cooldown.antt =====
-- The cooldown of a strategy, side and pair, over whole histories of calls.
use coindcx_bot.Prelude.{
  ℕ, ◌+◌, ◌<◌, ◌≤◌, String, ◌≡◌, ◌≢◌, refl, sym, inl, inr, false, none, some, List, [], ◌∷◌, map,
  get_or, subst, arith, Bool-cases, ◌==◌, string_key,
}
use coindcx_bot.Prelude.Dict.{Dict, get, get-set}
use coindcx_bot.Prelude.Num.{Num}
use coindcx_bot.Strategy.Types.{Side}
use coindcx_bot.Strategy.Risk.Outcome.{apply_rules_passed}
use coindcx_bot.Strategy.Risk.{
  RuleDecision, RiskRuleContext, RiskRule, per_pair_cooldown, cooldown_key, is_wait, apply,
  apply_active, apply_rules, record_emit, CompositeRiskFilter, resolve_pair, context, conclude,
  filter_signal,
}
use coindcx_bot.Strategy.Risk.Limits.{Call, run, Monotone}

module _ {ℓ} {W : Type ℓ} (cool : ℕ) where
  -- A cooldown rule of `cool` milliseconds is among the rules.
  pub data HasCooldown : List (RiskRule W) → Type ℓ where
    first :
        {m : Dict String ℕ} {rs : List (RiskRule W)} → HasCooldown (per_pair_cooldown cool m ∷ rs)
    later : {r : RiskRule W} {rs : List (RiskRule W)} → HasCooldown rs → HasCooldown (r ∷ rs)

  -- Such a rule has an emission of the key at `t` or after it.
  pub data Cools (key : String) (t : ℕ) : List (RiskRule W) → Type ℓ where
    first :
        {m : Dict String ℕ} {rs : List (RiskRule W)} (at : ℕ)
        → get key m ≡ some at
        → t ≤ at
        → Cools key t (per_pair_cooldown cool m ∷ rs)
    later : {r : RiskRule W} {rs : List (RiskRule W)} → Cools key t rs → Cools key t (r ∷ rs)

module _ {ℓ} {W : Type ℓ} (num : Num W) (cool : ℕ) where
  apply_cooldown :
      (m : Dict String ℕ) (ctx : RiskRuleContext W)
      → (apply num (per_pair_cooldown cool m) ctx).0 ≡ per_pair_cooldown cool m
  unfolding apply apply_active
  apply_cooldown m ctx = ground arith

  apply_rules-HasCooldown :
      (rules : List (RiskRule W)) (ctx : RiskRuleContext W)
      → HasCooldown cool rules
      → HasCooldown cool (apply_rules num rules ctx).0
  unfolding apply_rules
  apply_rules-HasCooldown [] ctx h = elim h [ ]
  apply_rules-HasCooldown (r ∷ rs) ctx (HasCooldown.first {m = m}) =
      rw (apply_cooldown m ctx) HasCooldown.first
  apply_rules-HasCooldown (r ∷ rs) ctx (HasCooldown.later h) =
      HasCooldown.later (apply_rules-HasCooldown rs ctx h)

  apply_rules-Cools :
      (key : String) (t : ℕ) (rules : List (RiskRule W)) (ctx : RiskRuleContext W)
      → Cools cool key t rules
      → Cools cool key t (apply_rules num rules ctx).0
  unfolding apply_rules
  apply_rules-Cools key t [] ctx h = elim h [ ]
  apply_rules-Cools key t (r ∷ rs) ctx (Cools.first {m = m} at g le) =
      rw (apply_cooldown m ctx) (Cools.first at g le)
  apply_rules-Cools key t (r ∷ rs) ctx (Cools.later h) =
      Cools.later (apply_rules-Cools key t rs ctx h)

  -- Recording an emission at `t` starts the key's cooldown.
  record_emit-starts :
      (id pair : String) (side : Side) (t : ℕ) (rules : List (RiskRule W))
      → HasCooldown cool rules
      → Cools cool (cooldown_key id side pair) t (map (record_emit num id pair side t) rules)
  unfolding record_emit
  record_emit-starts id pair side t [] h = elim h [ ]
  record_emit-starts id pair side t (r ∷ rs) (HasCooldown.first {m = m}) =
      let key = cooldown_key id side pair in
      Cools.first t (ground (arith, get-set key key t m, string_key.same_iff key key)) (omega arith)
  record_emit-starts id pair side t (r ∷ rs) (HasCooldown.later h) =
      Cools.later (record_emit-starts id pair side t rs h)

  -- Recording any emission later keeps it.
  record_emit-Cools :
      (key : String) (t : ℕ) (id pair : String) (side : Side) (now : ℕ) (rules : List (RiskRule W))
      → t ≤ now
      → Cools cool key t rules
      → Cools cool key t (map (record_emit num id pair side now) rules)
  unfolding record_emit
  record_emit-Cools key t id pair side now [] le h = elim h [ ]
  record_emit-Cools key t id pair side now (r ∷ rs) le (Cools.first {m = m} at g old) =
      let k = cooldown_key id side pair in
      elim (Bool-cases (k == key)) [
        | inl e ↦ Cools.first now (ground (arith, get-set k key now m)) le
        | inr e ↦ Cools.first at (ground (arith, get-set k key now m)) old
      ]
  record_emit-Cools key t id pair side now (r ∷ rs) le (Cools.later h) =
      Cools.later (record_emit-Cools key t id pair side now rs le h)

  conclude-Cools :
      (key : String) (t : ℕ) (f : CompositeRiskFilter W) (ctx : RiskRuleContext W)
      (rules : List (RiskRule W)) (blocks : List RuleDecision)
      → t ≤ ctx.now
      → Cools cool key t rules
      → Cools cool key t (conclude num f ctx rules blocks).0.rules
  unfolding conclude
  conclude-Cools key t f ctx rules (b ∷ bs) le h = h
  conclude-Cools key t f ctx rules [] le h = elim (Bool-cases (is_wait ctx.signal.side)) [
    | inl w ↦ rw w h
    | inr w ↦
        rw w (record_emit-Cools key t ctx.manifest.id ctx.pair ctx.signal.side ctx.now rules le h)
  ]

  run-Cools :
      (key : String) (t : ℕ) (f : CompositeRiskFilter W) (calls : List (Call W)) (last : ℕ)
      → t ≤ last
      → Monotone num last calls
      → Cools cool key t f.rules
      → Cools cool key t (run num f calls).rules
  unfolding run filter_signal
  run-Cools key t f [] last le m h = h
  run-Cools key t f (c ∷ cs) last le (le', m) h =
      let ctx =
        context num f c.now c.signal c.manifest c.account
          (get_or c.pair (resolve_pair f.pair_resolver c.signal c.manifest)) in
      let applied = apply_rules num f.rules ctx in
      run-Cools key t (filter_signal num f c.now c.signal c.manifest c.account c.pair).0 cs c.now
        (omega arith) m
        (conclude-Cools key t f ctx applied.0 applied.1 (omega arith)
          (apply_rules-Cools key t f.rules ctx h))

  cooldown_refuses :
      (m : Dict String ℕ) (ctx : RiskRuleContext W) (t at : ℕ)
      → get (cooldown_key ctx.manifest.id ctx.signal.side ctx.pair) m ≡ some at
      → t ≤ at
      → ctx.now < t + cool
      → is_wait ctx.signal.side ≡ false
      → (apply num (per_pair_cooldown cool m) ctx).1.pass ≡ false
  unfolding apply apply_active
  cooldown_refuses m ctx t at g le lt w = ground arith

  apply_rules_blocks :
      (rules : List (RiskRule W)) (ctx : RiskRuleContext W) (t : ℕ)
      → Cools cool (cooldown_key ctx.manifest.id ctx.signal.side ctx.pair) t rules
      → ctx.now < t + cool
      → is_wait ctx.signal.side ≡ false
      → (apply_rules num rules ctx).1 ≢ []
  apply_rules_blocks [] ctx t h lt w e = elim h [ ]
  apply_rules_blocks (r ∷ rs) ctx t (Cools.first {m = m} at g le) lt w e =
      cc (cooldown_refuses m ctx t at g le lt w, (apply_rules_passed num r rs ctx e).0)
  apply_rules_blocks (r ∷ rs) ctx t (Cools.later h) lt w e =
      apply_rules_blocks rs ctx t h lt w (apply_rules_passed num r rs ctx e).1

  conclude-starts :
      (f : CompositeRiskFilter W) (ctx : RiskRuleContext W) (rules : List (RiskRule W))
      (blocks : List RuleDecision)
      → HasCooldown cool rules
      → is_wait ctx.signal.side ≡ false
      → (conclude num f ctx rules blocks).1 ≢ none
      → Cools cool
          (cooldown_key ctx.manifest.id ctx.signal.side ctx.pair)
          ctx.now
          (conclude num f ctx rules blocks).0.rules
  unfolding conclude
  conclude-starts f ctx rules (b ∷ bs) h w a = absurd (a refl)
  conclude-starts f ctx rules [] h w a =
      rw w (record_emit-starts ctx.manifest.id ctx.pair ctx.signal.side ctx.now rules h)

  conclude-none :
      (f : CompositeRiskFilter W) (ctx : RiskRuleContext W) (rules : List (RiskRule W))
      (blocks : List RuleDecision)
      → blocks ≢ []
      → (conclude num f ctx rules blocks).1 ≡ none
  unfolding conclude
  conclude-none f ctx rules [] h = absurd (h refl)
  conclude-none f ctx rules (b ∷ bs) h = refl

  abbrev key_of : Call W → String → String
  key_of c pair = cooldown_key c.manifest.id c.signal.side pair

  filter_signal-starts :
      (f : CompositeRiskFilter W) (c : Call W) (pair : String)
      → HasCooldown cool f.rules
      → c.pair ≡ some pair
      → is_wait c.signal.side ≡ false
      → (filter_signal num f c.now c.signal c.manifest c.account c.pair).1 ≢ none
      → Cools cool
          (key_of c pair)
          c.now
          (filter_signal num f c.now c.signal c.manifest c.account c.pair).0.rules
  unfolding filter_signal
  filter_signal-starts f c pair h cp w =
      let ctx = context num f c.now c.signal c.manifest c.account pair in
      let applied = apply_rules num f.rules ctx in
      rw cp (conclude-starts f ctx applied.0 applied.1 (apply_rules-HasCooldown f.rules ctx h) w)

  filter_signal_refused :
      (f : CompositeRiskFilter W) (d : Call W) (pair : String) (t : ℕ)
      → Cools cool (key_of d pair) t f.rules
      → d.pair ≡ some pair
      → is_wait d.signal.side ≡ false
      → d.now < t + cool
      → (filter_signal num f d.now d.signal d.manifest d.account d.pair).1 ≡ none
  unfolding filter_signal
  filter_signal_refused f d pair t h dp w lt =
      let ctx = context num f d.now d.signal d.manifest d.account pair in
      let applied = apply_rules num f.rules ctx in
      rw dp (conclude-none f ctx applied.0 applied.1 (apply_rules_blocks f.rules ctx t h lt w))

  -- If PerPairCooldownRule is among the rules and a signal that is not WAIT has gone through for a
  -- pair, then after any further calls on a clock that does not step back a signal of the same
  -- strategy and side for that pair is dropped until the cooldown has passed.
  pub filter_signal_cooldown :
      (f : CompositeRiskFilter W) (c d : Call W) (pair : String) (between : List (Call W))
      → HasCooldown cool f.rules
      → c.pair ≡ some pair
      → is_wait c.signal.side ≡ false
      → (filter_signal num f c.now c.signal c.manifest c.account c.pair).1 ≢ none
      → Monotone num c.now between
      → d.pair ≡ some pair
      → key_of d pair ≡ key_of c pair
      → is_wait d.signal.side ≡ false
      → d.now < c.now + cool
      → let f' =
          run num (filter_signal num f c.now c.signal c.manifest c.account c.pair).0 between in
        (filter_signal num f' d.now d.signal d.manifest d.account d.pair).1 ≡ none
  filter_signal_cooldown f c d pair between h cp w a m dp k w' lt =
      let f1 = (filter_signal num f c.now c.signal c.manifest c.account c.pair).0 in
      let f' = run num f1 between in
      filter_signal_refused f' d pair c.now
        (subst (λ key. Cools cool key c.now f'.rules) (sym k)
          (run-Cools (key_of c pair) c.now f1 between c.now (omega arith) m
            (filter_signal-starts f c pair h cp w a)))
        dp w' lt
