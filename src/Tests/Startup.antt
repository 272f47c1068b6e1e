-- ===== src/Tests/Startup.antt =====
-- The theorems on the users' file, on the start of the server and on the pages.
use pocket_oid.Config.Providers.{validate_reauth_clients, build_trusted_providers}
use pocket_oid.Config.Settings.{validate_provider_settings}
use pocket_oid.App.Ready.{IsReady, initialize-IsReady}
use pocket_oid.App.Start.{start_with, Application, initialize, state_of}
use pocket_oid.AdminConsole.{load}
use pocket_oid.AdminConsole.Summary.{summarize}
use pocket_oid.App.{
  client_algorithms, used_algorithms, load_keys, load_signing_keys, new_document, collect_scopes,
}
use pocket_oid.AuthStore.{empty_store}
use pocket_oid.Base.{
  ◌≡◌, ◌↔◌, refl, true, false, List, [], ◌∷◌, Option, none, some, is_some, All, any, map,
}
use pocket_oid.Config.{
  SigningAlgorithm, rs256, ClientConfig, ClientAuthMode, ConsentMode, Result, ok,
}
use pocket_oid.Config.Clients.{build_clients, client_of}
use pocket_oid.Config.Load.{Files, UsersConfig, LoadedConfig, load_from_directory}
use pocket_oid.Frontend.{consent_page, reauth_consent_page}
use pocket_oid.Frontend.Safety.{less, count, count-consent_page}
use pocket_oid.Handlers.State.{KeyMaterial}
use pocket_oid.HashMap.{remove, insert, get, HashMap}
use pocket_oid.Json.{object, end}
use pocket_oid.Outside.{HashParser, ParsedHash, ParsedUrl}
use pocket_oid.Tests.Data.{provider}
use pocket_oid.Text.{text_beq, strip_prefix, is_whitespace, trim_start, trim_end, Text, codes}
use pocket_oid.Users.{User, argon2id, plain, UserStoreBackend}
use pocket_oid.Users.Database.{
  SqliteRow, is_enabled_as, validate_sqlite_users, validate_sqlite_users-find, find_enabled_user,
  sqlite_user,
}
use pocket_oid.Users.Credentials.{
  file_user_credential, UserConfig, IsStrong, parse_argon2id_hash, parse_argon2id_hash_iff,
}
use pocket_oid.Users.File.{
  load_file, IsAdded, HasDistinctIds, build_file_users, build_file_users-IsAdded,
}

abbrev parsed : ParsedHash
parsed = record {
  algorithm = codes "argon2id";
  version = some 19;
  has_salt = true;
  output_len = some 32;
  costs = some (19456, 2);
}

abbrev parser : HashParser
parser = record {
  parse = λ hash. some parsed;
  default_m_cost = 19456;
  default_t_cost = 2;
  default_output_len = 32;
}

parse_argon2id_hash_iff_example :
    (parse_argon2id_hash parser (codes "m") (codes "h") ≡ ok (argon2id (codes "h"))) ↔ (
      (p : ParsedHash) × (parser.parse (codes "h") ≡ some p)
      × IsStrong parser p
      × (argon2id (codes "h") ≡ argon2id (codes "h")))
parse_argon2id_hash_iff_example =
    parse_argon2id_hash_iff parser (codes "m") (codes "h") (argon2id (codes "h"))

abbrev hashed_user : UserConfig
hashed_user = record {
  id = codes "1";
  username = codes "m";
  password_hash = some (codes "$argon2id$x");
  password_plain = none;
}

abbrev plain_user : UserConfig
plain_user = record {
  id = codes "2";
  username = codes "n";
  password_hash = none;
  password_plain = some (codes "p");
}

abbrev user_map : HashMap User
user_map =
    (codes "n", record { id = codes "2"; username = codes "n"; credential = plain (codes "p") })
    ∷ (
      codes "m",
      record { id = codes "1"; username = codes "m"; credential = argon2id (codes "$argon2id$x") },
    )
    ∷ []

build_file_users-IsAdded_example :
    All (IsAdded parser user_map) (hashed_user ∷ plain_user ∷ [])
    × HasDistinctIds (hashed_user ∷ plain_user ∷ [])
unfolding build_file_users trim_end trim_start is_whitespace get file_user_credential strip_prefix
    text_beq insert
build_file_users-IsAdded_example =
    build_file_users-IsAdded parser (hashed_user ∷ plain_user ∷ []) user_map refl

abbrev sqlite_rows : List SqliteRow
sqlite_rows =
    record { id = codes "1"; username = codes "m"; password_hash = codes "h"; enabled = false }
    ∷ record { id = codes "2"; username = codes "n"; password_hash = codes "h"; enabled = true }
    ∷ []

validate_sqlite_users-find_example :
    (user : Option User) × (find_enabled_user parser sqlite_rows (codes "n") ≡ ok user)
    × (is_some user ≡ any (is_enabled_as (codes "n")) sqlite_rows)
unfolding validate_sqlite_users sqlite_user trim_end trim_start is_whitespace parse_argon2id_hash
    text_beq
validate_sqlite_users-find_example = validate_sqlite_users-find parser sqlite_rows (codes "n") refl

abbrev client_config : ClientConfig
client_config = record {
  client_id = codes "a";
  client_secret = codes "s";
  signing_algorithm = none;
  audience = none;
  scopes = [];
  metadata = [];
  enabled = true;
  token_ttl_seconds = none;
  redirect_uris = [];
  response_types = [];
  require_pkce = false;
  consent_mode = ConsentMode.skip;
  auth_mode = ClientAuthMode.local;
  re_auth = none;
}

abbrev files : Files
files = record {
  provider = ok provider;
  clients = ok (client_config ∷ []);
  trusted_providers = ok [];
  users = ok (UsersConfig.file (plain_user ∷ []));
  token_template = ok (object end);
}

abbrev key : KeyMaterial
key = record { kid = codes "k"; encoding_key = codes "e"; algorithm = rs256 }

abbrev loaded : LoadedConfig
loaded = record {
  registered_clients = client_config ∷ [];
  provider = provider;
  clients = (codes "a", client_of client_config) ∷ [];
  users = record {
    backend = UserStoreBackend.file (
        (codes "n", record { id = codes "2"; username = codes "n"; credential = plain (codes "p") })
        ∷ []);
    dummy_credential = plain (codes "d");
  };
  trusted_providers = [];
  token_template = object end;
}

abbrev app : Application
app = record {
  state = state_of loaded ((rs256, key) ∷ []);
  admin_console = load none;
  summaries = map summarize (client_config ∷ []);
  discovery = new_document provider (collect_scopes loaded.clients) ((rs256, key) ∷ []);
  auth_store = empty_store;
}

abbrev no_url : Text → Option ParsedUrl
no_url text = none

abbrev no_database : Text → Result UserStoreBackend
no_database path = ok (UserStoreBackend.sqlite (λ name. none))

abbrev load_key : LoadedConfig → SigningAlgorithm → Option KeyMaterial
load_key config algorithm = some key

initialize-IsReady_example :
    (configs : List ClientConfig) × (files.clients ≡ ok configs) × IsReady configs app.state
unfolding initialize load_from_directory validate_provider_settings build_clients get insert remove
    build_trusted_providers validate_reauth_clients client_of load_file trim_end trim_start
    is_whitespace text_beq file_user_credential load_signing_keys load_keys used_algorithms
    client_algorithms start_with
initialize-IsReady_example =
    initialize-IsReady no_url parser (ok (plain (codes "d"))) no_database load_key true (some none)
      files app refl

count-consent_page_example :
    (count b'<' (consent_page (codes "<") (codes "a") (codes "x") (codes "\""))
      ≡ count b'<' (consent_page [] [] [] []))
    × (count b'<' (reauth_consent_page (codes "t") (codes "a") (codes "x") (codes "\""))
        ≡ count b'<' (reauth_consent_page [] [] [] []))
count-consent_page_example =
    count-consent_page b'<' (codes "<") (codes "t") (codes "a") (codes "x") (codes "\"") less
