-- ===== src/Account/Stores/FillsLedger.antt =====
-- src/account/stores/fills-ledger.ts. `>` on texts is a parameter. The set of ids is the list of its
-- members in the order of their insertion.
mod Laws
mod Tests
use coindcx_bot.Prelude.{
  ℕ, String, Bool, true, false, not, List, [], ◌∷◌, ◌++◌, if◌then◌else◌, ltb, length, any, filter,
  ◌==◌, string_key,
}
use coindcx_bot.Account.Types.{Fill}

pub record FillsLedger : Type 0 where
  pub ring : List Fill
  pub ids : List String
  pub max_cursor : String
  pub ring_size : ℕ

abbrev pub new_ledger : ℕ → FillsLedger
new_ledger size = record { ring = []; ids = []; max_cursor = ""; ring_size = size }

-- `Set.has` and `Set.delete`
abbrev pub has_id : String → List String → Bool
has_id id ids = any (λ j. j == id) ids

abbrev pub delete_id : String → List String → List String
delete_id id ids = filter (λ j. not (j == id)) ids

-- The loop that evicts: `while (ring.length > size)`.
unfoldable pub evict : ℕ → List Fill → List String → List Fill × List String
evict size [] ids = ([], ids)
evict size (f ∷ fs) ids =
    let rest = evict size fs (delete_id f.id ids) in
    if ltb size (length (f ∷ fs)) then rest else (f ∷ fs, ids)

module _ (gt : String → String → Bool) where
  unfoldable pub set_cursor : String → FillsLedger → FillsLedger
  set_cursor ts l = record l { max_cursor = if gt ts l.max_cursor then ts else l.max_cursor }

  unfoldable pub append : Fill → FillsLedger → FillsLedger × Bool
  append fill l =
      let kept = evict l.ring_size (l.ring ++ fill ∷ []) (l.ids ++ fill.id ∷ []) in
      if has_id fill.id l.ids
      then (l, false)
      else (record (set_cursor fill.executed_at l) { ring = kept.0; ids = kept.1 }, true)
