-- ===== src/Security/Settings.antt =====
-- `SecuritySettings` of security.py: read from the environment, and checked at the start.
use Prim.Native.String
use Prim.Native.Char.{Char, code}
use diploma_munka.Prelude.{
  Bool, true, false, not, ◌&&◌, ◌||◌, Option, none, some, List, [], ◌∷◌, ◌++◌, String, str_eq,
  if◌then◌else◌, leb, ◌==◌,
}
use diploma_munka.Prelude.Int.{ℤ, pos, ltb_ℤ}
use diploma_munka.Prelude.Python.{PyText}
use diploma_munka.Prelude.Results.{Result, ok, raise}

pub record SecuritySettings : Type 0 where
  pub app_mode : String
  pub allow_synthetic_fallback : Bool
  pub auth_mode : String
  pub anonymous_read : Bool
  pub operator_token_sha256 : String
  pub admin_token_sha256 : String
  pub max_request_bytes : ℤ

abbrev pub is_truthy_word : String → Bool
is_truthy_word s = str_eq s "1" || str_eq s "true" || str_eq s "yes" || str_eq s "on"

abbrev pub or_default : Option String → String → String
or_default none d = d
or_default (some s) d = s

abbrev pub is_blank : String → Bool
is_blank s = str_eq s ""

abbrev pub default_synthetic_fallback : String → Bool
default_synthetic_fallback app_mode = not (str_eq app_mode "production")

-- `char in "0123456789abcdef"`
abbrev pub is_hex_digit : Char → Bool
is_hex_digit c = (leb 48 (code c) && leb (code c) 57) || (leb 97 (code c) && leb (code c) 102)

unfoldable pub all_hex : String → Bool
all_hex String.[] = true
all_hex (String.◌∷◌ c s) = is_hex_digit c && all_hex s

-- A digest that is given has 64 digits.
abbrev pub bad_digest : String → Bool
bad_digest value = not (is_blank value) && (not (String.count value == 64) || not (all_hex value))

-- A row of `if bad: errors.append(text)`.
unfoldable pub collect : List (Bool × String) → List String
collect [] = []
collect ((bad, text) ∷ rows) = elim bad [ true ↦ text ∷ collect rows | false ↦ collect rows ]

-- `os.getenv(name)` is `env name`.
module _ (py : PyText) (env : String → Option String) where
  open py use {strip, lower, int_of}

  abbrev pub word_of : String → String → String
  word_of name default = lower (strip (or_default (env name) default))

  -- `_boolean`
  unfoldable pub boolean : String → Bool → Bool
  boolean name default = is_truthy_word (word_of name (if default then "true" else "false"))

  abbrev pub fallback_of : String → String → Bool
  fallback_of word app_mode =
      if is_blank word then default_synthetic_fallback app_mode else is_truthy_word word

  abbrev pub app_mode_of : String
  app_mode_of = lower (strip (or_default (env "APP_PROFILE") (or_default (env "APP_MODE") "demo")))

  unfoldable pub from_env : Result String SecuritySettings
  from_env = elim (int_of (strip (or_default (env "MAX_REQUEST_BYTES") "209715200"))) [
    | none ↦ raise "Invalid production configuration: MAX_REQUEST_BYTES must be an integer"
    | some n ↦ ok (record {
      app_mode = app_mode_of;
      allow_synthetic_fallback = fallback_of (word_of "ALLOW_SYNTHETIC_FALLBACK" "") app_mode_of;
      auth_mode = word_of "AUTH_MODE" "disabled";
      anonymous_read = boolean "AUTH_ANONYMOUS_READ" true;
      operator_token_sha256 = word_of "AUTH_OPERATOR_TOKEN_SHA256" "";
      admin_token_sha256 = word_of "AUTH_ADMIN_TOKEN_SHA256" "";
      max_request_bytes = if ltb_ℤ (pos 1024) n then n else pos 1024;
    })
  ]

  abbrev pub is_unsafe_password : String → Bool
  is_unsafe_password s =
      str_eq s "change_me_dev_only"
      || str_eq s "change_this_password"
      || str_eq s "postgres"
      || str_eq s "password"

  abbrev pub production_rows : SecuritySettings → List (Bool × String)
  production_rows s =
      (
        is_blank (strip (or_default (env "DATABASE_URL") "")),
        "DATABASE_URL is required in production",
      )
      ∷ (not (str_eq s.auth_mode "api_token"), "AUTH_MODE=api_token is required in production")
      ∷ (
        is_blank s.operator_token_sha256 && is_blank s.admin_token_sha256,
        "At least one operator/admin token hash is required in production",
      )
      ∷ (
        is_unsafe_password (word_of "POSTGRES_PASSWORD" ""),
        "Default/unsafe POSTGRES_PASSWORD is forbidden in production",
      )
      ∷ []

  abbrev pub general_rows : SecuritySettings → List (Bool × String)
  general_rows s =
      (
        not (str_eq s.app_mode "demo" || str_eq s.app_mode "production"),
        "APP_MODE must be demo or production",
      )
      ∷ (
        str_eq s.app_mode "production" && s.allow_synthetic_fallback,
        "ALLOW_SYNTHETIC_FALLBACK must be false in production",
      )
      ∷ (
        not (str_eq s.auth_mode "disabled" || str_eq s.auth_mode "api_token"),
        "AUTH_MODE must be disabled or api_token",
      )
      ∷ (
        bad_digest s.operator_token_sha256,
        "AUTH_OPERATOR_TOKEN_SHA256 must be a lowercase SHA-256 hex digest",
      )
      ∷ (
        bad_digest s.admin_token_sha256,
        "AUTH_ADMIN_TOKEN_SHA256 must be a lowercase SHA-256 hex digest",
      )
      ∷ []

  -- The list `errors` of `validate`.
  unfoldable pub errors : SecuritySettings → List String
  errors s =
      collect (general_rows s)
      ++ (if str_eq s.app_mode "production" then collect (production_rows s) else [])

  -- The RuntimeError carries the errors.
  unfoldable pub validate : SecuritySettings → Result (List String) (Unit {0})
  validate s = elim (errors s) [ [] ↦ ok tt | e ∷ es ↦ raise (e ∷ es) ]
