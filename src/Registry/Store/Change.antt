-- ===== src/Registry/Store/Change.antt =====
-- internal/registry/store.go: the methods that change the registry, and what they promise of a map from
-- names to services.
use decloud.Base.{◌≡◌, ◌≢◌, ◌⊎◌, Str, true, false, Option, none}
use decloud.Errors.{Error, Result, ok, err, is_ok, error_is, err_partial_write}
use decloud.Registry.Types.{Service, Time}
use decloud.Base.Path.Clean.{IsName}
use decloud.Deploy.Interface.{Done}
use decloud.Registry.Files.{Toml, value}
use decloud.Registry.Store.{validate_for_save}
use decloud.Registry.Store.Laws.{IsLoaded}
use decloud.Registry.Store.Held.{loaded}

-- The methods that change the registry.
pub data Change : Type 0 where
  saving : Service → Change
  deleting : Str → Change
  dropping : Str → Change

abbrev pub subject : Change → Str
subject (saving svc) = svc.config.name
subject (deleting n) = n
subject (dropping n) = n

-- What the name holds after a change that succeeds.
abbrev pub promised : Time → Change → Option Service
promised now (saving svc) = loaded (validate_for_save now svc)
promised now (deleting n) = none
promised now (dropping n) = none

-- What the name may hold after a change that fails, other than by a partial write.
abbrev pub AfterFailure : Change → Option Service → Option Service → Type 0
AfterFailure (saving svc) before after = after ≡ before
AfterFailure (deleting n) before after = (after ≡ before) ⊎ (after ≡ none)
AfterFailure (dropping n) before after = after ≡ before

-- The step of the map that a change makes at a time, with a result.
abbrev pub Step :
    Time → Change → (Str → Option Service) → Result Done → (Str → Option Service) → Type 0
Step now c before result after =
    ((m : Str) → IsName m → m ≢ subject c → after m ≡ before m)
    × (is_ok result ≡ true → after (subject c) ≡ promised now c)
    × ((e : Error)
        → result ≡ err e
        → error_is e err_partial_write ≡ false
        → AfterFailure c (before (subject c)) (after (subject c)))

-- A service that Load accepts and whose files decode to what was encoded.
abbrev pub IsStorable : Toml → Service → Type 0
IsStorable toml svc =
    IsLoaded svc.config.name svc
    × ((s : Str) → toml.marshal_config svc.config ≡ ok s → toml.decode_config s ≡ value svc.config)
    × ((s : Str)
        → toml.marshal_secrets svc.secrets ≡ ok s
        → toml.decode_secrets s ≡ value svc.secrets)

abbrev pub IsSound : Toml → Time → Change → Type 0
IsSound toml now (saving given) =
    (svc : Service) → validate_for_save now given ≡ ok svc → IsStorable toml svc
IsSound toml now (deleting n) = Unit
IsSound toml now (dropping n) = Unit
