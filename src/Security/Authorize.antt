-- ===== src/Security/Authorize.antt =====
-- `authorize_request` of security.py.
use Prim.Native.String
use Prim.Native.Char.{code}
use diploma_munka.Prelude.{
  ℕ, Bool, false, not, ◌&&◌, ◌||◌, Option, none, some, String, str_eq, if◌then◌else◌, ◌==◌,
}
use diploma_munka.Prelude.Python.{PyText}
use diploma_munka.Prelude.Results.{Result, ok, raise}
use diploma_munka.Security.Settings.{SecuritySettings, is_blank, or_default}

-- The method, the path and the header `authorization` of a request.
pub record Request : Type 0 where
  pub method : String
  pub path : String
  pub authorization : Option String

pub record Grant : Type 0 where
  pub role : String
  pub actor : String

-- The HTTPException: its status and detail.
pub data Denial : Type 0 where
  bearer_token_required operator_or_admin_role_required : Denial

abbrev pub status_code : Denial → ℕ
status_code bearer_token_required = 401
status_code operator_or_admin_role_required = 403

abbrev pub is_write : String → Bool
is_write m = str_eq m "POST" || str_eq m "PUT" || str_eq m "PATCH" || str_eq m "DELETE"

abbrev pub is_public : String → Bool
is_public path =
    str_eq path "/api/health"
    || str_eq path "/api/health/live"
    || str_eq path "/api/health/ready"
    || str_eq path "/api/health/status"

-- `s.partition(" ")`, without the separator.
unfoldable pub partition_space : String → String × String
partition_space String.[] = ("", "")
partition_space (String.◌∷◌ c s) =
    let rest = partition_space s in if code c == 32 then ("", s) else (String.◌∷◌ c rest.0, rest.1)

-- `sha256_hex` is `hashlib.sha256(token.encode("utf-8")).hexdigest()`.
module _ (py : PyText) (sha256_hex : String → String) (settings : SecuritySettings) where
  open py use {lower, upper}
  open settings use {auth_mode, anonymous_read, operator_token_sha256, admin_token_sha256}

  abbrev pub has_digest : String → String → Bool
  has_digest token digest = not (is_blank digest) && str_eq (sha256_hex token) digest

  unfoldable pub token_role : String → Option String
  token_role token =
      if has_digest token admin_token_sha256
      then some "admin"
      else if has_digest token operator_token_sha256
      then some "operator"
      else none

  abbrev pub grant_role : Option String → Result Denial Grant
  grant_role none = raise operator_or_admin_role_required
  grant_role (some role) =
      if str_eq role "operator" || str_eq role "admin"
      then ok (record { role = role; actor = String.◌++◌ role "-token" })
      else raise operator_or_admin_role_required

  abbrev pub requires_auth : Request → Bool
  requires_auth request =
      if is_public request.path
      then false
      else is_write (upper request.method) || not anonymous_read

  abbrev pub check_header : String × String → Result Denial Grant
  check_header (scheme, token) =
      if not (str_eq (lower scheme) "bearer") || is_blank token
      then raise bearer_token_required
      else grant_role (token_role token)

  unfoldable pub authorize_request : Request → Result Denial Grant
  authorize_request request =
      if str_eq auth_mode "disabled"
      then ok (record { role = "demo"; actor = "anonymous-demo" })
      else if not (requires_auth request)
      then ok (record { role = "viewer"; actor = "anonymous-viewer" })
      else check_header (partition_space (or_default request.authorization ""))
