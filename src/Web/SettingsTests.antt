-- ===== src/Web/SettingsTests.antt =====
-- The settings' theorems at concrete inputs.
use flash_trips.Prelude.{
  String, true, Option, none, some, ◌≡◌, ◌≢◌, ◌⊎◌, refl, str_eq, if◌then◌else◌, Result, ok, ◌+++◌,
}
use flash_trips.Json.{Json, str, obj, end, field, string_member, member, property}
use flash_trips.Web.Oidc.{OidcProvider}
use flash_trips.Web.Settings.{
  Location, Discovery, load_provider, provider_environment, registered_environment,
  tenant_environment, required, location, is_tenant, is_subdomain, ends_as_label, is_safe_redirect,
  local_hostname, endpoint, trusted_endpoint, read_document, read_discovery_body, read_discovery,
  resolve_api_base_url, base_url, tenant_issuer, tenant_origin, tenant_discovery,
  untrusted_endpoint,
}
use flash_trips.Web.Settings.Laws.{
  IsTenant, IsEndpoint, IsPublicRedirect, load_provider-production, resolve_api_base_url_cases,
}
use flash_trips.Prelude.{[], ◌∷◌, All, length, strip, split_on, trim, trim_start, trim_end}
use flash_trips.Web.Session.{Manager, new_manager, require_key}
use flash_trips.Web.Settings.Sessions.{
  session_manager, session_database, allowed_origins_from_environment, key_from_environment,
  check_origins, check_origin, replace_first, listed,
}
use flash_trips.Web.Settings.SessionLaws.{IsAllowedOrigin, session_manager-eq-ok}
use flash_trips.Web.Toy.{platform, identifier_text, csrf_text, identifier, csrf}

abbrev tenant : String
tenant = "01234567-89ab-cdef-0123-456789abcdef"

abbrev redirect_uri : String
redirect_uri = "https://trips.example/api/auth/callback"

abbrev env : String → Option String
env name =
    if str_eq name "NODE_ENV"
    then some "production"
    else if str_eq name "FLASH_TRIPS_OIDC_ISSUER"
    then some (tenant_issuer tenant)
    else if str_eq name "FLASH_TRIPS_OIDC_REDIRECT_URI"
    then some redirect_uri
    else if str_eq name "FLASH_TRIPS_OIDC_CLIENT_ID"
    then some "client"
    else if str_eq name "FLASH_TRIPS_OIDC_CLIENT_SECRET"
    then some "secret"
    else if str_eq name "FLASH_TRIPS_OIDC_TENANT_ID"
    then some tenant
    else if str_eq name "FLASH_TRIPS_OIDC_TENANT_SUBDOMAIN"
    then some "flash"
    else if str_eq name "FLASH_TRIPS_API_BASE_URL"
    then some "https://api.example/v1"
    else none

abbrev at : String → String → String → Location
at origin hostname href = record {
  protocol = "https:";
  hostname = hostname;
  origin = origin;
  search = "";
  hash = "";
  href = href;
}

abbrev authorize_url : String
authorize_url = tenant_origin "flash" +++ "/authorize"

abbrev parse : String → Option Location
parse text =
    if str_eq text redirect_uri
    then some (at "https://trips.example" "trips.example" text)
    else if str_eq text "https://api.example/v1"
    then some (at "https://api.example" "api.example" text)
    else if str_eq text authorize_url
    then some (at (tenant_origin "flash") "flash.ciamlogin.com" text)
    else if str_eq text (tenant_discovery "flash" tenant)
    then some (at (tenant_origin "flash") "flash.ciamlogin.com" text)
    else if str_eq text "https://elsewhere.example/token"
    then some (at "https://elsewhere.example" "elsewhere.example" text)
    else none

abbrev document : String → Json
document token = obj (
    field "issuer" (str (tenant_issuer tenant)) (
      field "authorization_endpoint" (str authorize_url)
        (field "jwks_uri" (str authorize_url) (field "token_endpoint" (str token) end))))

abbrev answer : String → Location → Option Discovery
answer token url = some (record { is_ok = true; body = some (document token) })

abbrev provider : OidcProvider
provider = record {
  authorization_endpoint = authorize_url;
  client_id = "client";
  client_secret = "secret";
  issuer = tenant_issuer tenant;
  jwks_uri = authorize_url;
  redirect_uri = redirect_uri;
  scope = "api://client/principal:read";
  token_endpoint = authorize_url;
}

loads : load_provider env parse (answer authorize_url) ≡ ok provider
unfolding load_provider provider_environment registered_environment tenant_environment required
    location is_tenant is_subdomain ends_as_label is_safe_redirect local_hostname endpoint
    trusted_endpoint read_document read_discovery_body read_discovery string_member member property
loads = refl

-- A discovery document that names another host's token endpoint is refused.
refuses :
    load_provider env parse (answer "https://elsewhere.example/token")
    ≡ Result.err untrusted_endpoint
unfolding load_provider provider_environment registered_environment tenant_environment required
    location is_tenant is_subdomain ends_as_label is_safe_redirect local_hostname endpoint
    trusted_endpoint read_document read_discovery_body read_discovery string_member member property
refuses = refl

load_provider-production_example :
    (origin : String) × IsTenant env parse provider.issuer origin
    × IsEndpoint env parse origin provider.authorization_endpoint
    × IsEndpoint env parse origin provider.jwks_uri
    × IsEndpoint env parse origin provider.token_endpoint
    × IsPublicRedirect env parse provider.redirect_uri
load_provider-production_example =
    load_provider-production env parse refl (answer authorize_url) provider loads

abbrev base : String
base = "https://api.example"

base_resolves : resolve_api_base_url env parse ≡ ok base
unfolding resolve_api_base_url base_url location
base_resolves = refl

resolve_api_base_url_cases_example :
    ((env "FLASH_TRIPS_API_BASE_URL" ≡ none)
      × (base ≡ "http://127.0.0.1:8000")
      × (env "NODE_ENV" ≢ some "production"))
    ⊎ ((text : String) × (url : Location) × (env "FLASH_TRIPS_API_BASE_URL" ≡ some text)
        × (parse text ≡ some url)
        × (base ≡ url.origin)
        × ((url.protocol ≡ "https:")
            ⊎ ((url.protocol ≡ "http:")
                × ((url.hostname ≡ "127.0.0.1") ⊎ (url.hostname ≡ "localhost")))
            ⊎ (env "FLASH_TRIPS_ALLOW_INSECURE_INTERNAL_API" ≡ some "true")))
resolve_api_base_url_cases_example = resolve_api_base_url_cases env parse base base_resolves

abbrev session_env : String → Option String
session_env name =
    if str_eq name "FLASH_TRIPS_ALLOWED_ORIGINS"
    then some "https://trips.example, http://localhost:3000"
    else if str_eq name "FLASH_TRIPS_SESSION_DIGEST_KEY"
    then some identifier_text
    else if str_eq name "FLASH_TRIPS_SESSION_TOKEN_KEY"
    then some csrf_text
    else if str_eq name "DATABASE_URL"
    then some "postgresql+asyncpg://db"
    else none

abbrev parse_origin : String → Option Location
parse_origin text =
    if str_eq text "http://localhost:3000"
    then some (record (at text "localhost" text) { protocol = "http:" })
    else some (at text "trips.example" text)

abbrev started : Manager
started = record {
  allowed_origins = "https://trips.example" ∷ "http://localhost:3000" ∷ [];
  digest_key = identifier;
  token_encryption_key = csrf;
}

starts : session_manager platform session_env parse_origin ≡ ok started
unfolding session_manager session_database allowed_origins_from_environment key_from_environment
    check_origins check_origin replace_first strip split_on trim trim_start trim_end required
    location new_manager require_key
starts = refl

session_manager-eq-ok_example :
    (configured : String) × (session_env "FLASH_TRIPS_ALLOWED_ORIGINS" ≡ some configured)
    × (started.allowed_origins ≡ listed configured)
    × All (IsAllowedOrigin platform session_env parse_origin) started.allowed_origins
    × (length started.digest_key ≡ 32)
    × (length started.token_encryption_key ≡ 32)
session_manager-eq-ok_example =
    session_manager-eq-ok platform session_env parse_origin started starts
