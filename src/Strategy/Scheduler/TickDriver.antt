-- ===== src/Strategy/Scheduler/TickDriver.antt =====
-- src/strategy/scheduler/tick-driver.ts. A handler is the channel that it listens on; `extract_pair` reads
-- the pair of a raw message, of the type `M`.
mod Laws
mod Tests
use coindcx_bot.Prelude.{
  ℕ, ◌+◌, String, Bool, true, false, not, ◌||◌, Option, none, some, List, [], ◌∷◌, ◌++◌, map,
  if◌then◌else◌, get_or, ◌==◌, string_key,
}
use coindcx_bot.Prelude.Dict.{Dict, get, set}
use coindcx_bot.Strategy.Types.{TickChannel}
use coindcx_bot.Strategy.Scheduler.InFlight.{tick_trigger, Evaluation, has_pair, delete_pair}

pub record Entry : Type 0 where
  pub id : String
  pub pairs : List String
  pub channels : List TickChannel
  pub pending : List String
  pub drops : Dict String ℕ
  pub handlers : List TickChannel

pub record TickDriver : Type 0 where
  pub entries : Dict String Entry
  pub started : Bool

abbrev pub new_entry : (id : String) → (pairs : List String) → List TickChannel → Entry
new_entry id pairs channels = record {
  id = id;
  pairs = pairs;
  channels = channels;
  pending = [];
  drops = [];
  handlers = [];
}

unfoldable pub add :
    (id : String) → (pairs : List String) → List TickChannel → TickDriver → TickDriver
add id pairs channels d = record d { entries = set id (new_entry id pairs channels) d.entries }

abbrev listen : String × Entry → String × Entry
listen e = (e.0, record e.1 { handlers = e.1.handlers ++ e.1.channels })

abbrev unlisten : String × Entry → String × Entry
unlisten e = (e.0, record e.1 { handlers = [] })

unfoldable pub start : TickDriver → TickDriver
start d = if d.started then d else record d { entries = map listen d.entries; started = true }

unfoldable pub stop : TickDriver → TickDriver
stop d = record d { entries = map unlisten d.entries; started = false }

abbrev pub drops_of : String → Entry → ℕ
drops_of pair e = get_or (get pair e.drops) 0

abbrev drops_in : String → Option Entry → ℕ
drops_in pair none = 0
drops_in pair (some e) = drops_of pair e

unfoldable pub dropped : (id pair : String) → TickDriver → ℕ
dropped id pair d = drops_in pair (get id d.entries)

module _ {ℓ} {M : Type ℓ} where
  -- `dispatch` for a message of a pair, and the evaluations that it starts.
  unfoldable pub dispatch_pair : TickChannel → M → String → Entry → Entry × List (Evaluation M)
  dispatch_pair ch raw pair e =
      if pair == "" || not (has_pair pair e.pairs)
      then (e, [])
      else (if has_pair pair e.pending
          then (record e { drops = set pair (drops_of pair e + 1) e.drops }, [])
          else (
            record e { pending = e.pending ++ pair ∷ [] },
            record { id = e.id; pair = pair; trigger = tick_trigger ch raw } ∷ [],
          ))

  abbrev pub dispatch_to : TickChannel → M → Option String → Entry → Entry × List (Evaluation M)
  dispatch_to ch raw none e = (e, [])
  dispatch_to ch raw (some pair) e = dispatch_pair ch raw pair e

  unfoldable pub dispatch :
      (M → Option String) → TickChannel → M → Entry → Entry × List (Evaluation M)
  dispatch extract_pair ch raw e = dispatch_to ch raw (extract_pair raw) e

-- An evaluation ends, with a result or an error.
unfoldable pub end_evaluation : String → Entry → Entry
end_evaluation pair e = record e { pending = delete_pair pair e.pending }
