-- ===== src/Strategy/Registry.antt =====
-- src/strategy/registry.ts. `I` is the type of strategy objects. With no pairs at all the
-- object is kept under `undefined`, where no pair finds it, and is left out. `Date.now()` is an
-- argument.
use coindcx_bot.Prelude.{
  ℕ, suc, String, Bool, true, false, Option, none, some, List, [], ◌∷◌, if◌then◌else◌, get_or, ◌==◌,
  string_key, ltb, length, is_some,
}
use coindcx_bot.Prelude.Dict.{Dict, get, set}
use coindcx_bot.Strategy.Types.{StrategyManifest}

pub record Strategy {ℓ} (I : Type ℓ) : Type ℓ where
  pub manifest : StrategyManifest
  pub object : I
  pub clone : Option I

pub record Performance : Type 0 where
  pub signals_emitted : ℕ
  pub last_signal_at : ℕ
  pub errors : ℕ

pub record RegistryEntry {ℓ} (I : Type ℓ) : Type ℓ where
  pub manifest : StrategyManifest
  pub enabled : Bool
  pub per_instance : Dict String I
  pub perf : Performance
  pub error_streak : Dict String ℕ

pub data Registered {ℓ} (I : Type ℓ) : Type ℓ where
  duplicate_strategy : Registered I
  lacks_clone : Registered I
  registered : Dict String (RegistryEntry I) → Registered I

module _ {ℓ} {I : Type ℓ} where
  unfoldable pub clones : I → List String → Dict String I → Dict String I
  clones copy [] m = m
  clones copy (p ∷ ps) m = clones copy ps (set p copy m)

  abbrev pub single : List String → I → Dict String I
  single [] object = []
  single (p ∷ ps) object = set p object []

  abbrev pub new_entry : StrategyManifest → Dict String I → RegistryEntry I
  new_entry manifest instances = record {
    manifest = manifest;
    enabled = true;
    per_instance = instances;
    perf = record { signals_emitted = 0; last_signal_at = 0; errors = 0 };
    error_streak = [];
  }

  abbrev pub store :
      Strategy I → List String → Option I → Dict String (RegistryEntry I) → Registered I
  store s pairs (some copy) entries = registered (
      set s.manifest.id
        (new_entry s.manifest
          (if ltb 1 (length pairs) then clones copy pairs [] else single pairs s.object))
        entries)
  store s pairs none entries =
      if ltb 1 (length pairs)
      then lacks_clone
      else registered (set s.manifest.id (new_entry s.manifest (single pairs s.object)) entries)

  unfoldable pub register :
      Strategy I → Option (List String) → Dict String (RegistryEntry I) → Registered I
  register s pairs entries =
      if is_some (get s.manifest.id entries)
      then duplicate_strategy
      else store s (get_or pairs s.manifest.pairs) s.clone entries

  abbrev pub put :
      String
      → (RegistryEntry I → RegistryEntry I)
      → Option (RegistryEntry I)
      → Dict String (RegistryEntry I)
      → Dict String (RegistryEntry I)
  put id f none entries = entries
  put id f (some e) entries = set id (f e) entries

  -- A change of the entry of `id`, if it is there.
  unfoldable pub update :
      String
      → (RegistryEntry I → RegistryEntry I)
      → Dict String (RegistryEntry I)
      → Dict String (RegistryEntry I)
  update id f entries = put id f (get id entries) entries

  abbrev object_of : String → Option (RegistryEntry I) → Option I
  object_of pair none = none
  object_of pair (some e) = get pair e.per_instance

  unfoldable pub instance_of : String → String → Dict String (RegistryEntry I) → Option I
  instance_of id pair entries = object_of pair (get id entries)

  abbrev pub enable : String → Dict String (RegistryEntry I) → Dict String (RegistryEntry I)
  enable id = update id (λ e. record e { enabled = true })

  abbrev pub disable : String → Dict String (RegistryEntry I) → Dict String (RegistryEntry I)
  disable id = update id (λ e. record e { enabled = false })

  abbrev pub entry_enabled : Option (RegistryEntry I) → Bool
  entry_enabled none = false
  entry_enabled (some e) = e.enabled

  unfoldable pub is_enabled : String → Dict String (RegistryEntry I) → Bool
  is_enabled id entries = entry_enabled (get id entries)

  abbrev pub record_emit :
      String → ℕ → Dict String (RegistryEntry I) → Dict String (RegistryEntry I)
  record_emit id now = update id (λ e. record e {
    perf = record (e.perf) { signals_emitted = suc e.perf.signals_emitted; last_signal_at = now };
  })

  -- `streak.get(pair) ?? 0`
  unfoldable pub streak_of : String → RegistryEntry I → ℕ
  streak_of pair e = get_or (get pair e.error_streak) 0

  -- `recordError` with a pair
  abbrev pub with_error : String → RegistryEntry I → RegistryEntry I
  with_error pair e = record e {
    perf = record (e.perf) { errors = suc e.perf.errors };
    error_streak =
        if pair == "" then e.error_streak else set pair (suc (streak_of pair e)) e.error_streak;
  }

  -- The streak that `recordError` returns.
  abbrev pub new_streak : String → Option (RegistryEntry I) → ℕ
  new_streak pair none = 0
  new_streak pair (some e) = if pair == "" then 0 else suc (streak_of pair e)

  unfoldable pub record_error :
      String → String → Dict String (RegistryEntry I) → Dict String (RegistryEntry I) × ℕ
  record_error id pair entries =
      (update id (with_error pair) entries, new_streak pair (get id entries))

  abbrev pub reset_error_streak :
      String → String → Dict String (RegistryEntry I) → Dict String (RegistryEntry I)
  reset_error_streak id pair =
      update id (λ e. record e { error_streak = set pair 0 e.error_streak })
