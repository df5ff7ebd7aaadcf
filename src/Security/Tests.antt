-- ===== src/Security/Tests.antt =====
-- A production deployment with one operator.
use diploma_munka.Prelude.{
  ◌≡◌, refl, true, false, Option, none, some, String, str_eq, if◌then◌else◌,
}
use diploma_munka.Prelude.Int.{pos}
use diploma_munka.Prelude.Results.{ok}
use diploma_munka.Samples.{plain_text}
use diploma_munka.Security.Settings.{SecuritySettings, validate, errors, collect, all_hex}
use diploma_munka.Security.Authorize.{
  Request, Grant, authorize_request, partition_space, token_role,
}
use diploma_munka.Security.Laws.{
  IsBacked, IsSecured, authorize_request-IsBacked, validate-IsSecured, production_writes-IsBacked,
}

abbrev digest : String
digest = "0123456789abcdef0123456789abcdef0123456789abcdef0123456789abcdef"

-- Stands for the hash.
abbrev hash : String → String
hash s = if str_eq s "secret" then digest else "ffff"

abbrev environment : String → Option String
environment name = if str_eq name "DATABASE_URL" then some "postgresql://db" else none

abbrev settings : SecuritySettings
settings = record {
  app_mode = "production";
  allow_synthetic_fallback = false;
  auth_mode = "api_token";
  anonymous_read = true;
  operator_token_sha256 = digest;
  admin_token_sha256 = "";
  max_request_bytes = pos 4096;
}

abbrev request : Request
request = record { method = "POST"; path = "/api/markers"; authorization = some "bearer secret" }

abbrev grant : Grant
grant = record { role = "operator"; actor = "operator-token" }

settings_valid : validate plain_text environment settings ≡ ok tt
unfolding validate errors collect all_hex
settings_valid = refl

request_granted : authorize_request plain_text hash settings request ≡ ok grant
unfolding authorize_request partition_space token_role
request_granted = refl

authorize_request-IsBacked_example : IsBacked plain_text hash settings request grant
authorize_request-IsBacked_example =
    authorize_request-IsBacked plain_text hash settings request grant refl refl request_granted

validate-IsSecured_example : IsSecured plain_text environment settings
validate-IsSecured_example = validate-IsSecured plain_text environment settings settings_valid refl

production_writes-IsBacked_example : IsBacked plain_text hash settings request grant
production_writes-IsBacked_example =
    production_writes-IsBacked plain_text environment settings hash request grant settings_valid
      refl refl refl request_granted
