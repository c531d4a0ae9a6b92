-- ===== src/Account/Stores/FillsLedger/Tests.antt =====
-- A ledger of two fills. Texts are not compared in it.
use coindcx_bot.Prelude.{String, ◌≡◌, refl, ◌⊎◌, Bool, true, false, none, List, [], ◌∷◌, arith}
use coindcx_bot.Account.Types.{Fill, buy, ws}
use coindcx_bot.Account.Stores.FillsLedger.{
  FillsLedger, new_ledger, has_id, evict, set_cursor, append,
}
use coindcx_bot.Account.Stores.FillsLedger.Laws.{
  IsLedger, ids_of, append-last_of, run, run-IsLedger,
}

ledger_code : Unit {0}
unfolding evict set_cursor append run
ledger_code = tt

abbrev never : String → String → Bool
never s t = false

abbrev fill : String → Fill
fill id = record {
  id = id;
  order_id = none;
  position_id = none;
  pair = "BTC";
  side = buy;
  price = "1";
  qty = "1";
  fee = none;
  fee_currency = none;
  realized_pnl = none;
  executed_at = "t";
  ingested_at = "t";
  source = ws;
}

abbrev fills : List Fill
fills = fill "a" ∷ fill "b" ∷ fill "b" ∷ fill "c" ∷ fill "a" ∷ []

ring_of_two : (run never fills (new_ledger 2)).ids ≡ "c" ∷ "a" ∷ []
unfolding ledger_code
ring_of_two = refl

run-IsLedger_example : IsLedger (run never fills (new_ledger 2))
run-IsLedger_example = run-IsLedger never 2 fills

abbrev full : FillsLedger
full = record {
  ring = fill "a" ∷ fill "b" ∷ [];
  ids = "a" ∷ "b" ∷ [];
  max_cursor = "";
  ring_size = 2;
}

full-IsLedger : IsLedger full
full-IsLedger = record { ids_are = refl; distinct = (refl, (refl, tt)); bounded = omega arith }

append-last_of_example :
    ((has_id "c" (ids_of full.ring) ≡ true) × (append never (fill "c") full ≡ (full, false)))
    ⊎ ((has_id "c" (ids_of full.ring) ≡ false)
        × ((append never (fill "c") full).1 ≡ true)
        × ((append never (fill "c") full).0.ring ≡ fill "b" ∷ fill "c" ∷ [])
        × ((append never (fill "c") full).0.ids ≡ "b" ∷ "c" ∷ [])
        × ((append never (fill "c") full).0.max_cursor ≡ "")
        × ((append never (fill "c") full).0.ring_size ≡ 2))
append-last_of_example = append-last_of never (fill "c") full full-IsLedger
