-- ===== src/Security/Laws.antt =====
-- What security.py lets through.
use diploma_munka.Prelude.{
  ◌≡◌, refl, sym, ap, ◌⊎◌, inl, inr, Bool, true, false, not, ◌&&◌, Option, List, [], ◌∷◌, ◌++◌,
  String, str_eq, eq_iff, Bool-cases, All,
}
use diploma_munka.Prelude.Python.{PyText}
use diploma_munka.Prelude.Results.{Result, ok, raise, ok_injective}
use diploma_munka.Security.Settings.{
  SecuritySettings, is_blank, or_default, bad_digest, errors, collect, general_rows,
  production_rows, validate,
}
use diploma_munka.Security.Authorize.{
  Request, Grant, is_write, is_public, partition_space, has_digest, token_role, grant_role,
  requires_auth, check_header, authorize_request,
}

module _ (py : PyText) (sha256_hex : String → String) (settings : SecuritySettings) where
  open py use {lower, upper}

  -- The token of the request's header, whose SHA-256 is a digest that the settings hold.
  pub record IsBacked (request : Request) (g : Grant) : Type 0 where
    pub token : String
    pub scheme : String
    pub header : partition_space (or_default request.authorization "") ≡ (scheme, token)
    pub bearer : lower scheme ≡ "bearer"
    pub given : is_blank token ≡ false
    pub backed :
        ((g.role ≡ "admin")
          × (has_digest py sha256_hex settings token settings.admin_token_sha256 ≡ true))
        ⊎ ((g.role ≡ "operator")
            × (has_digest py sha256_hex settings token settings.operator_token_sha256 ≡ true))

  granted_role :
      (token : String) (g : Grant)
      → grant_role py sha256_hex settings (token_role py sha256_hex settings token) ≡ ok g
      → ((g.role ≡ "admin")
          × (has_digest py sha256_hex settings token settings.admin_token_sha256 ≡ true))
        ⊎ ((g.role ≡ "operator")
            × (has_digest py sha256_hex settings token settings.operator_token_sha256 ≡ true))
  unfolding token_role
  granted_role token g h =
      elim (Bool-cases (has_digest py sha256_hex settings token settings.admin_token_sha256)) [
        | inl a ↦ inl (ap (λ (x : Grant). x.role) (sym (ok_injective _ _ (rw a at h))), a)
        | inr a ↦
            elim (Bool-cases
              (has_digest py sha256_hex settings token settings.operator_token_sha256)) [
                | inl o ↦
                    inr (ap (λ (x : Grant). x.role) (sym (ok_injective _ _ (rw (a, o) at h))), o)
                | inr o ↦ absurd (cc (rw (a, o) at h))
              ]
      ]

  check_header-IsBacked :
      (request : Request) (g : Grant)
      → check_header py sha256_hex settings (partition_space (or_default request.authorization ""))
        ≡ ok g
      → IsBacked request g
  check_header-IsBacked request g h =
      go (partition_space (or_default request.authorization "")) refl h
    where
      go :
          (parts : String × String)
          → partition_space (or_default request.authorization "") ≡ parts
          → check_header py sha256_hex settings parts ≡ ok g
          → IsBacked request g
      go (scheme, token) e h = elim (Bool-cases (str_eq (lower scheme) "bearer")) [
        | inr n ↦ absurd (cc (rw n at h))
        | inl b ↦ elim (Bool-cases (is_blank token)) [
          | inl t ↦ absurd (cc (rw (b, t) at h))
          | inr t ↦ record {
            token = token;
            scheme = scheme;
            header = e;
            bearer = (eq_iff (lower scheme) "bearer").0 b;
            given = t;
            backed = granted_role token g (rw (b, t) at h);
          }
        ]
      ]

  -- A request that needs authorization is let through only with a token of the header whose digest
  -- the settings hold, and under the role of that digest. Authorization is not disabled.
  pub authorize_request-IsBacked :
      (request : Request) (g : Grant)
      → str_eq settings.auth_mode "disabled" ≡ false
      → requires_auth py sha256_hex settings request ≡ true
      → authorize_request py sha256_hex settings request ≡ ok g
      → IsBacked request g
  unfolding authorize_request
  authorize_request-IsBacked request g on needed h =
      check_header-IsBacked request g (rw (on, needed) at h)

append_empty : (xs ys : List String) → xs ++ ys ≡ [] → (xs ≡ []) × (ys ≡ [])
append_empty [] ys h = (refl, h)
append_empty (x ∷ xs) ys h = absurd (cc h)

collect_none : (rows : List (Bool × String)) → collect rows ≡ [] → All (λ r. r.0 ≡ false) rows
unfolding collect
collect_none [] h = tt
collect_none ((true, text) ∷ rows) h = absurd (cc h)
collect_none ((false, text) ∷ rows) h = (refl, collect_none rows h)

not-false : (b : Bool) → not b ≡ false → b ≡ true
not-false true h = refl
not-false false h = absurd (cc h)

one_false : (a b : Bool) → (a && b) ≡ false → (a ≡ false) ⊎ (b ≡ false)
one_false true b h = inr h
one_false false b h = inl refl

module _ (py : PyText) (env : String → Option String) (settings : SecuritySettings) where
  validate-errors : validate py env settings ≡ ok tt → errors py env settings ≡ []
  unfolding validate
  validate-errors h = go (errors py env settings) h
    where
      go :
          (es : List String)
          → ◌≡◌ {A = Result (List String) (Unit {0})}
              (elim es [ [] ↦ ok tt | e ∷ rest ↦ raise (e ∷ rest) ])
              (ok tt)
          → es ≡ []
      go [] h = refl
      go (e ∷ rest) h = absurd (cc h)

  -- What settings that pass the check are like in production.
  pub record IsSecured : Type 0 where
    pub tokens : settings.auth_mode ≡ "api_token"
    pub no_fallback : settings.allow_synthetic_fallback ≡ false
    pub some_digest :
        (is_blank settings.operator_token_sha256 ≡ false)
        ⊎ (is_blank settings.admin_token_sha256 ≡ false)
    pub operator_digest : bad_digest settings.operator_token_sha256 ≡ false
    pub admin_digest : bad_digest settings.admin_token_sha256 ≡ false

  -- Settings that pass the check in production demand tokens, forbid made-up data, and hold at least
  -- one digest; each digest that they hold has 64 hexadecimal digits.
  pub validate-IsSecured :
      validate py env settings ≡ ok tt → settings.app_mode ≡ "production" → IsSecured
  unfolding errors
  validate-IsSecured h production =
      let mode = (eq_iff settings.app_mode "production").1 production in
      let all_empty = append_empty (collect (general_rows py env settings)) _ (validate-errors h) in
      let in_production : collect (production_rows py env settings) ≡ [] = rw mode at all_empty.1 in
      let general = collect_none (general_rows py env settings) all_empty.0 in
      let strict = collect_none (production_rows py env settings) in_production in
      record {
        tokens = (eq_iff settings.auth_mode "api_token").0 (not-false _ strict.1.0);
        no_fallback = rw mode at general.1.0;
        some_digest = one_false _ _ strict.1.1.0;
        operator_digest = general.1.1.1.0;
        admin_digest = general.1.1.1.1.0;
      }

  -- In production with settings that pass the check, a write to a path that is not public is let
  -- through only with a token whose digest the settings hold.
  pub production_writes-IsBacked :
      (sha256_hex : String → String) (request : Request) (g : Grant)
      → validate py env settings ≡ ok tt
      → settings.app_mode ≡ "production"
      → is_write (py.upper request.method) ≡ true
      → is_public request.path ≡ false
      → authorize_request py sha256_hex settings request ≡ ok g
      → IsBacked py sha256_hex settings request g
  production_writes-IsBacked sha256_hex request g valid production write private h =
      let on : str_eq settings.auth_mode "disabled" ≡ false =
        rw (validate-IsSecured valid production).tokens refl in
      let needed : requires_auth py sha256_hex settings request ≡ true = rw (private, write) refl in
      authorize_request-IsBacked py sha256_hex settings request g on needed h
