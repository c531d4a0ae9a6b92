-- ===== src/Account/HeartbeatWatcher.antt =====
-- src/account/heartbeat-watcher.ts. The two records by channel are functions; the clock is an argument, and
-- the channels that `onStale` is called with are the answer of a tick.
mod Laws
mod Tests
use coindcx_bot.Prelude.{
  ℕ, ◌+◌, Bool, true, false, not, ◌&&◌, List, [], ◌∷◌, ◌++◌, if◌then◌else◌, leb,
}
use coindcx_bot.Account.Types.{Entity, position, balance, order, fill}

abbrev pub same_entity : Entity → Entity → Bool
same_entity position position = true
same_entity balance balance = true
same_entity order order = true
same_entity fill fill = true
same_entity _ _ = false

pub record HeartbeatWatcher : Type 0 where
  pub floors : Entity → ℕ
  pub last : Entity → ℕ
  pub stale_notified : Entity → Bool

unfoldable pub new_watcher : (floors : Entity → ℕ) → (now : ℕ) → HeartbeatWatcher
new_watcher floors now = record { floors = floors; last = λ ch. now; stale_notified = λ ch. true }

abbrev pub put {ℓ} : {A : Type ℓ} → Entity → A → (Entity → A) → Entity → A
put ch a f c = if same_entity ch c then a else f c

unfoldable pub touch : Entity → (now : ℕ) → HeartbeatWatcher → HeartbeatWatcher
touch ch now w = record w {
  last = put ch now w.last;
  stale_notified = put ch false w.stale_notified;
}

-- `now - last >= floor`
abbrev pub is_stale : (now : ℕ) → Entity → HeartbeatWatcher → Bool
is_stale now ch w = leb (w.last ch + w.floors ch) now && not (w.stale_notified ch)

abbrev pub tick_one : (now : ℕ) → Entity → HeartbeatWatcher → HeartbeatWatcher × List Entity
tick_one now ch w =
    if is_stale now ch w
    then (record w { stale_notified = put ch true w.stale_notified }, ch ∷ [])
    else (w, [])

unfoldable pub tick_all :
    (now : ℕ) → List Entity → HeartbeatWatcher → HeartbeatWatcher × List Entity
tick_all now [] w = (w, [])
tick_all now (ch ∷ chs) w =
    let first = tick_one now ch w in
    let rest = tick_all now chs first.0 in (rest.0, first.1 ++ rest.1)

abbrev pub channels : List Entity
channels = position ∷ balance ∷ order ∷ fill ∷ []

unfoldable pub tick : (now : ℕ) → HeartbeatWatcher → HeartbeatWatcher × List Entity
tick now w = tick_all now channels w
