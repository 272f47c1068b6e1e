-- ===== src/Tests/App.antt =====
-- The application's start at one configuration.
use pocket_oid.Base.{◌≡◌, refl, Option, some}
use pocket_oid.App.{client_algorithms, load_keys, load_signing_keys, used_algorithms}
use pocket_oid.Config.{SigningAlgorithm}
use pocket_oid.Handlers.State.{KeyMaterial}
use pocket_oid.Tests.Data.{provider, state}
use pocket_oid.Text.{text_eq, codes}

abbrev load_signing_key : SigningAlgorithm → Option KeyMaterial
load_signing_key a = some (record { kid = codes "k"; encoding_key = codes "e"; algorithm = a })

loaded : load_signing_keys load_signing_key provider state.clients ≡ some state.signing_keys
unfolding load_signing_keys load_keys used_algorithms client_algorithms
loaded = refl
