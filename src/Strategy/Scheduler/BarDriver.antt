-- ===== src/Strategy/Scheduler/BarDriver.antt =====
-- src/strategy/scheduler/bar-driver.ts. Times are whole milliseconds. A time frame of no minutes, for which
-- the source divides by 0 and never sees a later bucket, has the bucket 0 here.
mod Laws
mod Tests
use Prim.Native.Char.{code}
use Prim.Native.String.{◌++◌ as concat}
use coindcx_bot.Prelude.{
  ℕ, ◌+◌, ◌-◌, ◌*◌, ◌/◌, String, Bool, true, false, ◌&&◌, Option, none, some, List, [], ◌∷◌, ◌++◌,
  if◌then◌else◌, ltb, leb, ◌==◌, string_key, nat_key,
}
use coindcx_bot.Prelude.Dict.{Dict, get, set}
use coindcx_bot.Strategy.Scheduler.InFlight.{bar_close_trigger, Evaluation, has_pair}

pub record Entry : Type 0 where
  pub id : String
  pub pairs : List String
  pub timeframes : List String
  pub last_bucket : Dict String ℕ

abbrev pub BarDriver : Type 0
BarDriver = Dict String Entry

-- `/^(\d+)([mh])$/`: the number, once a digit is read, and the unit that ends the text.
abbrev unit_ms : ℕ → Bool → String → String → Option ℕ
unit_ms n read u rest =
    if read && rest == ""
    then (if u == "h" then some (n * 3_600_000) else (if u == "m" then some (n * 60_000) else none))
    else none

abbrev tf_read : ℕ → Bool → String → Option ℕ
tf_read n read String.[] = none
tf_read n read (String.◌∷◌ c s) =
    let rest = tf_read (n * 10 + (code c - 48)) true s in
    if leb 48 (code c) && leb (code c) 57 then rest else unit_ms n read (String.◌∷◌ c "") s

-- `none` where the code throws.
unfoldable pub tf_ms : String → Option ℕ
tf_ms tf = tf_read 0 false tf

abbrev pub key_of : (pair tf : String) → String
key_of pair tf = concat pair (concat "|" tf)

-- No raw message comes with the close of a bar.
abbrev pub BarEvaluation : Type 0
BarEvaluation = Evaluation (Unit {0})

-- What the loops leave: the state, the evaluations that they start, and whether they end without a throw.
abbrev pub Traded : Type 0 → Type 0
Traded S = S × List BarEvaluation × Bool

unfoldable pub add : (id : String) → (pairs timeframes : List String) → BarDriver → BarDriver
add id pairs timeframes d =
    set id (record { id = id; pairs = pairs; timeframes = timeframes; last_bucket = [] }) d

abbrev pub note_bucket : (pair tf : String) → ℕ → Option ℕ → Entry → Entry × List BarEvaluation
note_bucket pair tf bucket none e =
    (record e { last_bucket = set (key_of pair tf) bucket e.last_bucket }, [])
note_bucket pair tf bucket (some last) e =
    if ltb last bucket
    then (
      record e { last_bucket = set (key_of pair tf) bucket e.last_bucket },
      record { id = e.id; pair = pair; trigger = bar_close_trigger tf } ∷ [],
    )
    else (e, [])

-- One round of the inner loop, for a time frame that is read.
unfoldable pub trade_tf : (pair tf : String) → ℕ → Entry → Entry × List BarEvaluation
trade_tf pair tf bucket e = note_bucket pair tf bucket (get (key_of pair tf) e.last_bucket) e

abbrev before : {S : Type 0} → List BarEvaluation → Traded S → Traded S
before es t = (t.0, es ++ t.1, t.2)

-- The round with the rest of the loop, `rest`.
abbrev pub trade_read :
    (pair tf : String) → (ts : ℕ) → Option ℕ → (rest : Entry → Traded Entry) → Entry → Traded Entry
trade_read pair tf ts none rest e = (e, [], false)
trade_read pair tf ts (some ms) rest e =
    let first = trade_tf pair tf (ts / ms) e in before first.1 (rest first.0)

unfoldable pub trade_tfs : (pair : String) → (ts : ℕ) → List String → Entry → Traded Entry
trade_tfs pair ts [] e = (e, [], true)
trade_tfs pair ts (tf ∷ tfs) e = trade_read pair tf ts (tf_ms tf) (λ x. trade_tfs pair ts tfs x) e

abbrev trade_entry : (pair : String) → (ts : ℕ) → Entry → Traded Entry
trade_entry pair ts e =
    if has_pair pair e.pairs then trade_tfs pair ts e.timeframes e else (e, [], true)

-- A throw leaves the entries behind it alone.
abbrev after_entry :
    String → Traded Entry → BarDriver → (rest : Traded BarDriver) → Traded BarDriver
after_entry id (e, es, true) d rest = ((id, e) ∷ rest.0, es ++ rest.1, rest.2)
after_entry id (e, es, false) d rest = ((id, e) ∷ d, es, false)

unfoldable pub trade_at : (pair : String) → (ts : ℕ) → BarDriver → Traded BarDriver
trade_at pair ts [] = ([], [], true)
trade_at pair ts ((id, e) ∷ d) = after_entry id (trade_entry pair ts e) d (trade_at pair ts d)
