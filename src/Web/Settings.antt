-- ===== src/Web/Settings.antt =====
-- apps/web/lib/server/oidc-runtime.ts and config.ts: the settings the server starts from. The
-- environment, Node's URL parser and `fetch` are parameters; a parser that throws gives `none`.
pub mod Laws
pub mod Sessions
pub mod SessionLaws
use flash_trips.Prelude.{
  ℕ, String, Bool, true, false, Option, none, some, List, [], ◌∷◌, ◌&&◌, ◌||◌, not, length, all,
  leb, nat_eq, codes, to_lower, map, is_lower, is_digit, str_eq, ◌+++◌, if◌then◌else◌, Result, ok,
  err, ◌>>=◌, ◌>>◌, guard,
}
use flash_trips.Json.{Json, null, obj, arr, string_member}
use flash_trips.Web.Oidc.{OidcProvider}
use flash_trips.Web.Session.{KeyError}

-- What the code reads of a URL that parsed; `href` is its `toString()`.
pub record Location : Type 0 where
  pub protocol : String
  pub hostname : String
  pub origin : String
  pub search : String
  pub hash : String
  pub href : String

pub record Discovery : Type 0 where
  pub is_ok : Bool
  pub body : Option Json

pub data SettingsError : Type 0 where
  missing : String → SettingsError
  invalid_url : SettingsError
  insecure_base_url : SettingsError
  unsafe_redirect : SettingsError
  development_redirect : SettingsError
  unsafe_discovery : SettingsError
  foreign_issuer : SettingsError
  invalid_tenant : SettingsError
  invalid_subdomain : SettingsError
  discovery_failed : SettingsError
  invalid_discovery : SettingsError
  issuer_mismatch : SettingsError
  untrusted_endpoint : SettingsError
  invalid_key : String → SettingsError
  refused_key : KeyError → SettingsError
  empty_origin : SettingsError
  insecure_origin : SettingsError
  not_postgres : SettingsError

-- What providerEnvironment returns.
pub record Configured : Type 0 where
  pub discovery_url : Location
  pub client_id : String
  pub client_secret : String
  pub issuer : String
  pub redirect_uri : String
  pub scope : String
  pub provider_origin : String

abbrev pub is_value : String → Option String → Bool
is_value text none = false
is_value text (some value) = str_eq value text

-- localHostname.
unfoldable pub local_hostname : String → Bool
local_hostname hostname = str_eq hostname "localhost" || str_eq hostname "127.0.0.1"

abbrev is_hex_or_dash : ℕ → Bool
is_hex_or_dash c = is_digit c || (leb b'a' c && leb c b'f') || nat_eq c b'-'

-- /^[0-9a-f-]{36}$/i
unfoldable pub is_tenant : String → Bool
is_tenant text = nat_eq (length (codes text)) 36 && all is_hex_or_dash (map to_lower (codes text))

abbrev is_alphanumeric : ℕ → Bool
is_alphanumeric c = is_digit c || is_lower c

abbrev is_label : ℕ → Bool
is_label c = is_alphanumeric c || nat_eq c b'-'

-- [a-z0-9-]*[a-z0-9]$
unfoldable pub ends_as_label : List ℕ → Bool
ends_as_label [] = false
ends_as_label (c ∷ []) = is_alphanumeric c
ends_as_label (c ∷ d ∷ cs) = is_label c && ends_as_label (d ∷ cs)

abbrev starts_as_label : List ℕ → Bool
starts_as_label [] = false
starts_as_label (c ∷ cs) = is_alphanumeric c && ends_as_label cs

-- /^[a-z0-9][a-z0-9-]{1,61}[a-z0-9]$/i
unfoldable pub is_subdomain : String → Bool
unfolding ends_as_label
is_subdomain text =
    leb 3 (length (codes text))
    && leb (length (codes text)) 63
    && starts_as_label (map to_lower (codes text))

abbrev pub tenant_issuer : String → String
tenant_issuer tenant = "https://" +++ tenant +++ ".ciamlogin.com/" +++ tenant +++ "/v2.0"

abbrev pub tenant_origin : String → String
tenant_origin subdomain = "https://" +++ subdomain +++ ".ciamlogin.com"

abbrev pub tenant_discovery : String → String → String
tenant_discovery subdomain tenant =
    tenant_origin subdomain +++ "/" +++ tenant +++ "/v2.0/.well-known/openid-configuration"

abbrev pub api_scope : String → String
api_scope client = "api://" +++ client +++ "/principal:read"

-- The redirect is an exact URI, over HTTPS unless it is local.
unfoldable pub is_safe_redirect : Location → Bool
unfolding local_hostname
is_safe_redirect redirect =
    str_eq redirect.hash ""
    && str_eq redirect.search ""
    && (str_eq redirect.protocol "https:"
        || (str_eq redirect.protocol "http:" && local_hostname redirect.hostname))

abbrev pub is_object : Json → Bool
is_object (obj fields) = true
is_object (arr items) = true
is_object _ = false

module _ (env : String → Option String) (parse : String → Option Location) where
  abbrev is_production : Bool
  is_production = is_value "production" (env "NODE_ENV")

  -- requiredEnvironment.
  unfoldable pub required : String → Result SettingsError String
  required name = elim (env name) [
    | none ↦ err (missing name)
    | some value ↦ if nat_eq (length (codes value)) 0 then err (missing name) else ok value
  ]

  -- `new URL(text)`.
  unfoldable pub location : String → Result SettingsError Location
  location text = elim (parse text) [ none ↦ err invalid_url | some url ↦ ok url ]

  abbrev pub allows_base_url : Location → Bool
  allows_base_url url =
      str_eq url.protocol "https:"
      || (str_eq url.protocol "http:"
          && (str_eq url.hostname "127.0.0.1" || str_eq url.hostname "localhost"))
      || is_value "true" (env "FLASH_TRIPS_ALLOW_INSECURE_INTERNAL_API")

  unfoldable pub base_url : Option String → Result SettingsError String
  unfolding location
  base_url none =
      if is_production then err (missing "FLASH_TRIPS_API_BASE_URL") else ok "http://127.0.0.1:8000"
  base_url (some value) =
      location value >>= λ url. guard (allows_base_url url) insecure_base_url >> ok url.origin

  -- resolveApiBaseUrl.
  unfoldable pub resolve_api_base_url : Result SettingsError String
  unfolding base_url
  resolve_api_base_url = base_url (env "FLASH_TRIPS_API_BASE_URL")

  -- providerEnvironment where FLASH_TRIPS_TEST_OIDC_DISCOVERY_URL is set.
  unfoldable pub test_environment :
      String → Location → String → String → Result SettingsError Configured
  unfolding location required local_hostname
  test_environment issuer redirect client test_discovery = location test_discovery >>= λ discovery.
      guard
        (not is_production
          && str_eq discovery.protocol "https:"
          && local_hostname discovery.hostname)
        unsafe_discovery
      >> (location issuer >>= λ issuer_url.
          guard (str_eq issuer_url.origin discovery.origin) foreign_issuer
          >> (required "FLASH_TRIPS_OIDC_CLIENT_SECRET" >>= λ secret. ok (record {
            discovery_url = discovery;
            client_id = client;
            client_secret = secret;
            issuer = issuer;
            redirect_uri = redirect.href;
            scope = api_scope client;
            provider_origin = discovery.origin;
          })))

  -- providerEnvironment on a tenant of the identity provider.
  unfoldable pub tenant_environment :
      String → Location → String → String → String → Result SettingsError Configured
  unfolding location required is_tenant is_subdomain
  tenant_environment issuer redirect client tenant subdomain =
      guard (is_tenant tenant) invalid_tenant
      >> (guard (is_subdomain subdomain) invalid_subdomain
          >> (guard (str_eq issuer (tenant_issuer tenant)) foreign_issuer
              >> (location (tenant_discovery subdomain tenant) >>= λ discovery.
                  required "FLASH_TRIPS_OIDC_CLIENT_SECRET" >>= λ secret. ok (record {
                    discovery_url = discovery;
                    client_id = client;
                    client_secret = secret;
                    issuer = issuer;
                    redirect_uri = redirect.href;
                    scope = api_scope client;
                    provider_origin = tenant_origin subdomain;
                  }))))

  -- providerEnvironment after the client id, on FLASH_TRIPS_TEST_OIDC_DISCOVERY_URL.
  unfoldable pub registered_environment :
      String → Location → String → Option String → Result SettingsError Configured
  unfolding test_environment tenant_environment required
  registered_environment issuer redirect client (some test_discovery) =
      test_environment issuer redirect client test_discovery
  registered_environment issuer redirect client none =
      required "FLASH_TRIPS_OIDC_TENANT_ID" >>= λ tenant.
      required "FLASH_TRIPS_OIDC_TENANT_SUBDOMAIN" >>= λ subdomain.
      tenant_environment issuer redirect client tenant subdomain

  -- providerEnvironment.
  unfoldable pub provider_environment : Result SettingsError Configured
  unfolding registered_environment required location is_safe_redirect local_hostname
  provider_environment = required "FLASH_TRIPS_OIDC_ISSUER" >>= λ issuer.
      required "FLASH_TRIPS_OIDC_REDIRECT_URI" >>= λ text. location text >>= λ redirect.
      guard (is_safe_redirect redirect) unsafe_redirect
      >> (guard (not (is_production && local_hostname redirect.hostname)) development_redirect
          >> (required "FLASH_TRIPS_OIDC_CLIENT_ID" >>= λ client.
              registered_environment issuer redirect client
                (env "FLASH_TRIPS_TEST_OIDC_DISCOVERY_URL")))

  -- endpoint, on the property read.
  unfoldable pub trusted_endpoint : String → Option String → Result SettingsError String
  unfolding location
  trusted_endpoint provider_origin none = err invalid_discovery
  trusted_endpoint provider_origin (some value) = location value >>= λ url.
      guard (str_eq url.protocol "https:" && str_eq url.origin provider_origin) untrusted_endpoint
      >> ok url.href

  -- endpoint.
  unfoldable pub endpoint : Json → String → String → Result SettingsError String
  unfolding trusted_endpoint string_member
  endpoint document name provider_origin =
      trusted_endpoint provider_origin (string_member name document)

  -- loadProvider on the discovery document.
  unfoldable pub read_document : Configured → Json → Result SettingsError OidcProvider
  unfolding endpoint string_member
  read_document c document =
      guard (is_object document) invalid_discovery
      >> (guard (is_value c.issuer (string_member "issuer" document)) issuer_mismatch
          >> (endpoint document "authorization_endpoint" c.provider_origin >>= λ authorization.
              endpoint document "jwks_uri" c.provider_origin >>= λ jwks.
              endpoint document "token_endpoint" c.provider_origin >>= λ token. ok (record {
                authorization_endpoint = authorization;
                client_id = c.client_id;
                client_secret = c.client_secret;
                issuer = c.issuer;
                jwks_uri = jwks;
                redirect_uri = c.redirect_uri;
                scope = c.scope;
                token_endpoint = token;
              })))

  unfoldable pub read_discovery_body : Configured → Option Json → Result SettingsError OidcProvider
  unfolding read_document
  read_discovery_body c none = err invalid_discovery
  read_discovery_body c (some document) = read_document c document

  unfoldable pub read_discovery : Configured → Option Discovery → Result SettingsError OidcProvider
  unfolding read_discovery_body
  read_discovery c none = err discovery_failed
  read_discovery c (some response) =
      guard response.is_ok discovery_failed >> read_discovery_body c response.body

  -- loadProvider, with the answer of `fetch` to a location.
  unfoldable pub load_provider : (Location → Option Discovery) → Result SettingsError OidcProvider
  unfolding provider_environment read_discovery
  load_provider fetcher = provider_environment >>= λ c. read_discovery c (fetcher c.discovery_url)
