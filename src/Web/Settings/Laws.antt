-- ===== src/Web/Settings/Laws.antt =====
-- The settings that load: a production server trusts its tenant's endpoints only.
use flash_trips.Prelude.{
  subst, String, true, false, Option, none, some, ◌≡◌, refl, str_eq, ok, >>=-eq-ok, guard-eq-ok,
  ok_injective, sym, ap, ◌∙◌, ◌≢◌, arith, inl, inr, eq_iff, not, ◌&&◌, ◌⊎◌,
}
use mathlib.Core.Bool.{and-eq-true_iff}
use flash_trips.Json.{Json, string_member}
use flash_trips.Web.Oidc.{OidcProvider}
use flash_trips.Web.Settings.{
  Location, Discovery, Configured, allows_base_url, unsafe_discovery, is_value, local_hostname,
  is_tenant, is_subdomain, tenant_issuer, tenant_origin, tenant_discovery, is_safe_redirect,
  required, location, endpoint, read_document, tenant_environment, test_environment,
  registered_environment, provider_environment, load_provider, resolve_api_base_url,
  insecure_base_url, invalid_tenant, invalid_subdomain, foreign_issuer, invalid_discovery,
  issuer_mismatch, untrusted_endpoint, read_discovery, read_discovery_body, trusted_endpoint,
  base_url, api_scope, unsafe_redirect, development_redirect, discovery_failed, is_object,
}

module _ (env : String → Option String) (parse : String → Option Location) where
  -- The printed form of a URL that parsed, over HTTPS and at the origin.
  abbrev pub IsEndpoint : String → String → Type 0
  IsEndpoint origin href =
      (text : String) × (url : Location) × (parse text ≡ some url)
      × (url.protocol ≡ "https:")
      × (url.origin ≡ origin)
      × (url.href ≡ href)

  pub location_lem :
      (text : String) {url : Location} → location env parse text ≡ ok url → parse text ≡ some url
  unfolding location
  location_lem text h = ground arith

  pub required_lem :
      (name : String) {value : String} → required env parse name ≡ ok value → env name ≡ some value
  unfolding required
  required_lem name h = ground arith

  trusted_endpoint-IsEndpoint :
      (origin : String) (o : Option String) {href : String}
      → trusted_endpoint env parse origin o ≡ ok href
      → IsEndpoint origin href
  unfolding trusted_endpoint
  trusted_endpoint-IsEndpoint origin none h = cc
  trusted_endpoint-IsEndpoint origin (some value) h =
      let (url, at, rest) = >>=-eq-ok (location env parse value) _ h in
      let (safe, done) =
        guard-eq-ok (str_eq url.protocol "https:" && str_eq url.origin origin) untrusted_endpoint _
          rest in
      let (secure, here) = (and-eq-true_iff _ _).0 safe in
      (
        value,
        url,
        location_lem value at,
        (eq_iff url.protocol "https:").0 secure,
        (eq_iff url.origin origin).0 here,
        ground arith,
      )

  endpoint-IsEndpoint :
      (document : Json) (name origin : String) {href : String}
      → endpoint env parse document name origin ≡ ok href
      → IsEndpoint origin href
  unfolding endpoint
  endpoint-IsEndpoint document name origin h =
      trusted_endpoint-IsEndpoint origin (string_member name document) h

  -- What the discovery document may have set of a provider.
  pub record Trusts (c : Configured) (provider : OidcProvider) : Type 0 where
    pub authorization : IsEndpoint c.provider_origin provider.authorization_endpoint
    pub jwks : IsEndpoint c.provider_origin provider.jwks_uri
    pub token : IsEndpoint c.provider_origin provider.token_endpoint
    pub same_issuer : provider.issuer ≡ c.issuer
    pub same_redirect : provider.redirect_uri ≡ c.redirect_uri
    pub same_client : provider.client_id ≡ c.client_id

  abbrev with_endpoints : Configured → String → String → String → OidcProvider
  with_endpoints c a j t = record {
    authorization_endpoint = a;
    client_id = c.client_id;
    client_secret = c.client_secret;
    issuer = c.issuer;
    jwks_uri = j;
    redirect_uri = c.redirect_uri;
    scope = c.scope;
    token_endpoint = t;
  }

  with_endpoints-Trusts :
      (c : Configured) {a j t : String} {provider : OidcProvider}
      → IsEndpoint c.provider_origin a
      → IsEndpoint c.provider_origin j
      → IsEndpoint c.provider_origin t
      → with_endpoints c a j t ≡ provider
      → Trusts c provider
  with_endpoints-Trusts c trust_a trust_j trust_t done = record {
    authorization = subst (IsEndpoint c.provider_origin) (ground arith) trust_a;
    jwks = subst (IsEndpoint c.provider_origin) (ground arith) trust_j;
    token = subst (IsEndpoint c.provider_origin) (ground arith) trust_t;
    same_issuer = ground arith;
    same_redirect = ground arith;
    same_client = ground arith;
  }

  read_document-Trusts :
      (c : Configured) (document : Json) {provider : OidcProvider}
      → read_document env parse c document ≡ ok provider
      → Trusts c provider
  unfolding read_document
  read_document-Trusts c document h =
      let (_, h₁) = guard-eq-ok (is_object document) invalid_discovery _ h in
      let (_, h₂) =
        guard-eq-ok (is_value c.issuer (string_member "issuer" document)) issuer_mismatch _ h₁ in
      let (a, at_a, h₃) = >>=-eq-ok (endpoint env parse document "authorization_endpoint" _) _ h₂ in
      let (j, at_j, h₄) = >>=-eq-ok (endpoint env parse document "jwks_uri" _) _ h₃ in
      let (t, at_t, h₅) = >>=-eq-ok (endpoint env parse document "token_endpoint" _) _ h₄ in
      with_endpoints-Trusts c (endpoint-IsEndpoint document "authorization_endpoint" _ at_a)
        (endpoint-IsEndpoint document "jwks_uri" _ at_j)
        (endpoint-IsEndpoint document "token_endpoint" _ at_t) (ok_injective h₅)

  read_discovery_body-Trusts :
      (c : Configured) (o : Option Json) {provider : OidcProvider}
      → read_discovery_body env parse c o ≡ ok provider
      → Trusts c provider
  unfolding read_discovery_body
  read_discovery_body-Trusts c none h = cc
  read_discovery_body-Trusts c (some document) h = read_document-Trusts c document h

  read_discovery-Trusts :
      (c : Configured) (o : Option Discovery) {provider : OidcProvider}
      → read_discovery env parse c o ≡ ok provider
      → Trusts c provider
  unfolding read_discovery
  read_discovery-Trusts c none h = cc
  read_discovery-Trusts c (some response) h =
      let (_, rest) = guard-eq-ok response.is_ok discovery_failed _ h in
      read_discovery_body-Trusts c response.body rest

  -- A configuration for a tenant of the identity provider.
  pub record IsTenant (issuer origin : String) : Type 0 where
    pub tenant : String
    pub subdomain : String
    pub tenant_set : env "FLASH_TRIPS_OIDC_TENANT_ID" ≡ some tenant
    pub subdomain_set : env "FLASH_TRIPS_OIDC_TENANT_SUBDOMAIN" ≡ some subdomain
    pub tenant_well_formed : is_tenant tenant ≡ true
    pub subdomain_well_formed : is_subdomain subdomain ≡ true
    pub exact_issuer : issuer ≡ tenant_issuer tenant
    pub subdomain_origin : origin ≡ tenant_origin subdomain

  -- An exact redirect URI over HTTPS that is not local.
  pub record IsPublicRedirect (redirect : String) : Type 0 where
    pub text : String
    pub url : Location
    pub set : env "FLASH_TRIPS_OIDC_REDIRECT_URI" ≡ some text
    pub parsed : parse text ≡ some url
    pub printed : redirect ≡ url.href
    pub secure : url.protocol ≡ "https:"
    pub no_query : url.search ≡ ""
    pub no_fragment : url.hash ≡ ""
    pub not_local : local_hostname url.hostname ≡ false

  abbrev configured : Location → String → String → String → Location → String → Configured
  configured discovery client secret issuer redirect origin = record {
    discovery_url = discovery;
    client_id = client;
    client_secret = secret;
    issuer = issuer;
    redirect_uri = redirect.href;
    scope = api_scope client;
    provider_origin = origin;
  }

  tenant_environment_lem :
      (issuer client tenant subdomain : String) (redirect : Location) {c : Configured}
      → tenant_environment env parse issuer redirect client tenant subdomain ≡ ok c
      → (is_tenant tenant ≡ true)
        × (is_subdomain subdomain ≡ true)
        × (c.issuer ≡ tenant_issuer tenant)
        × (c.provider_origin ≡ tenant_origin subdomain)
        × (c.redirect_uri ≡ redirect.href)
  unfolding tenant_environment
  tenant_environment_lem issuer client tenant subdomain redirect h =
      let (is_t, h₁) = guard-eq-ok (is_tenant tenant) invalid_tenant _ h in
      let (is_s, h₂) = guard-eq-ok (is_subdomain subdomain) invalid_subdomain _ h₁ in
      let (same, h₃) = guard-eq-ok (str_eq issuer (tenant_issuer tenant)) foreign_issuer _ h₂ in
      let (url, at, h₄) = >>=-eq-ok (location env parse (tenant_discovery subdomain tenant)) _ h₃ in
      let (secret, _, h₅) = >>=-eq-ok (required env parse "FLASH_TRIPS_OIDC_CLIENT_SECRET") _ h₄ in
      let done = ok_injective h₅ in
      (
        is_t,
        is_s,
        sym (ap (λ c. c.issuer) done) ∙ (eq_iff issuer (tenant_issuer tenant)).0 same,
        sym (ap (λ c. c.provider_origin) done),
        sym (ap (λ c. c.redirect_uri) done),
      )

  is_value-production :
      env "NODE_ENV" ≡ some "production" → is_value "production" (env "NODE_ENV") ≡ true
  is_value-production production = rw production

  test_environment-production :
      env "NODE_ENV" ≡ some "production"
      → (issuer client test : String) (redirect : Location) {c : Configured}
      → test_environment env parse issuer redirect client test ≢ ok c
  unfolding test_environment
  test_environment-production production issuer client test redirect h =
      let (url, at, h₁) = >>=-eq-ok (location env parse test) _ h in
      let (allowed, _) =
        guard-eq-ok
          (not (is_value "production" (env "NODE_ENV"))
            && str_eq url.protocol "https:"
            && local_hostname url.hostname)
          unsafe_discovery _ h₁ in
      ground (arith, is_value-production production)

  registered_environment-IsTenant :
      env "NODE_ENV" ≡ some "production"
      → (issuer client : String) (redirect : Location) (o : Option String) {c : Configured}
      → registered_environment env parse issuer redirect client o ≡ ok c
      → IsTenant c.issuer c.provider_origin × (c.redirect_uri ≡ redirect.href)
  unfolding registered_environment
  registered_environment-IsTenant production issuer client redirect (some test) h =
      absurd (test_environment-production production issuer client test redirect h)
  registered_environment-IsTenant production issuer client redirect none h =
      let (tenant, set_t, h₁) = >>=-eq-ok (required env parse "FLASH_TRIPS_OIDC_TENANT_ID") _ h in
      let (subdomain, set_s, h₂) =
        >>=-eq-ok (required env parse "FLASH_TRIPS_OIDC_TENANT_SUBDOMAIN") _ h₁ in
      let (is_t, is_s, issuer_is, origin_is, redirect_is) =
        tenant_environment_lem issuer client tenant subdomain redirect h₂ in
      (
        record {
          tenant = tenant;
          subdomain = subdomain;
          tenant_set = required_lem "FLASH_TRIPS_OIDC_TENANT_ID" set_t;
          subdomain_set = required_lem "FLASH_TRIPS_OIDC_TENANT_SUBDOMAIN" set_s;
          tenant_well_formed = is_t;
          subdomain_well_formed = is_s;
          exact_issuer = issuer_is;
          subdomain_origin = origin_is;
        },
        redirect_is,
      )

  public_redirect :
      env "NODE_ENV" ≡ some "production"
      → (text : String) (url : Location) → env "FLASH_TRIPS_OIDC_REDIRECT_URI" ≡ some text
      → parse text ≡ some url
      → is_safe_redirect url ≡ true
      → not (is_value "production" (env "NODE_ENV") && local_hostname url.hostname) ≡ true
      → IsPublicRedirect url.href
  unfolding is_safe_redirect
  public_redirect production text url set parsed safe public =
      let here = is_value-production production in
      let not_local : local_hostname url.hostname ≡ false = ground arith in
      record {
        text = text;
        url = url;
        set = set;
        parsed = parsed;
        printed = refl;
        secure = (eq_iff url.protocol "https:").0 (ground arith);
        no_query = (eq_iff url.search "").0 (ground arith);
        no_fragment = (eq_iff url.hash "").0 (ground arith);
        not_local = not_local;
      }

  provider_environment_lem :
      env "NODE_ENV" ≡ some "production"
      → {c : Configured} → provider_environment env parse ≡ ok c
      → IsTenant c.issuer c.provider_origin × IsPublicRedirect c.redirect_uri
  unfolding provider_environment
  provider_environment_lem production h =
      let (issuer, _, h₁) = >>=-eq-ok (required env parse "FLASH_TRIPS_OIDC_ISSUER") _ h in
      let (text, set, h₂) = >>=-eq-ok (required env parse "FLASH_TRIPS_OIDC_REDIRECT_URI") _ h₁ in
      let (url, parsed, h₃) = >>=-eq-ok (location env parse text) _ h₂ in
      let (safe, h₄) = guard-eq-ok (is_safe_redirect url) unsafe_redirect _ h₃ in
      let (public, h₅) =
        guard-eq-ok (not (is_value "production" (env "NODE_ENV") && local_hostname url.hostname))
          development_redirect _ h₄ in
      let (client, _, h₆) = >>=-eq-ok (required env parse "FLASH_TRIPS_OIDC_CLIENT_ID") _ h₅ in
      let (tenant, redirect_is) =
        registered_environment-IsTenant production issuer client url _ h₆ in
      (
        tenant,
        subst IsPublicRedirect (sym redirect_is) (
            public_redirect production text url (required_lem _ set) (location_lem text parsed) safe
              public),
      )

  -- In production, a provider that loads is the configured tenant of the identity provider: its
  -- issuer is exactly that tenant's, each of its three endpoints is a URL over HTTPS at the origin
  -- of the tenant's subdomain, and its redirect URI is exact, over HTTPS and not local. No
  -- discovery document and no other variable of the environment can change that.
  pub load_provider-production :
      env "NODE_ENV" ≡ some "production"
      → (fetcher : Location → Option Discovery) (provider : OidcProvider)
      → load_provider env parse fetcher ≡ ok provider
      → (origin : String) × IsTenant provider.issuer origin
        × IsEndpoint origin provider.authorization_endpoint
        × IsEndpoint origin provider.jwks_uri
        × IsEndpoint origin provider.token_endpoint
        × IsPublicRedirect provider.redirect_uri
  unfolding load_provider
  load_provider-production production fetcher provider h =
      let (c, made, rest) = >>=-eq-ok (provider_environment env parse) _ h in
      let (tenant, redirect) = provider_environment_lem production made in
      let trusts = read_discovery-Trusts c (fetcher c.discovery_url) rest in
      (
        c.provider_origin,
        subst (λ issuer. IsTenant issuer c.provider_origin) (sym trusts.same_issuer) tenant,
        trusts.authorization,
        trusts.jwks,
        trusts.token,
        subst IsPublicRedirect (sym trusts.same_redirect) redirect,
      )

  -- Over HTTPS, local over HTTP, or allowed by the override.
  abbrev pub IsAllowed : Location → Type 0
  IsAllowed url =
      (url.protocol ≡ "https:")
      ⊎ ((url.protocol ≡ "http:") × ((url.hostname ≡ "127.0.0.1") ⊎ (url.hostname ≡ "localhost")))
      ⊎ (env "FLASH_TRIPS_ALLOW_INSECURE_INTERNAL_API" ≡ some "true")

  IsAllowed-of_test : (url : Location) → allows_base_url env parse url ≡ true → IsAllowed url
  IsAllowed-of_test url h = go (env "FLASH_TRIPS_ALLOW_INSECURE_INTERNAL_API") refl
    where
      go : (o : Option String) → env "FLASH_TRIPS_ALLOW_INSECURE_INTERNAL_API" ≡ o → IsAllowed url
      go none e = ground (
        arith,
        h,
        e,
        eq_iff url.protocol "https:",
        eq_iff url.protocol "http:",
        eq_iff url.hostname "127.0.0.1",
        eq_iff url.hostname "localhost",
      )
      go (some t) e = ground (
        arith,
        h,
        e,
        eq_iff url.protocol "https:",
        eq_iff url.protocol "http:",
        eq_iff url.hostname "127.0.0.1",
        eq_iff url.hostname "localhost",
        eq_iff t "true",
        eq_iff "true" t,
      )

  base_url_cases :
      (o : Option String) (base : String)
      → base_url env parse o ≡ ok base
      → ((o ≡ none) × (base ≡ "http://127.0.0.1:8000") × (env "NODE_ENV" ≢ some "production"))
        ⊎ ((text : String) × (url : Location) × (o ≡ some text)
            × (parse text ≡ some url)
            × (base ≡ url.origin)
            × IsAllowed url)
  unfolding base_url
  base_url_cases none base h =
      inl (refl, ground arith, λ production. ground (arith, is_value-production production))
  base_url_cases (some text) base h =
      let (url, at, rest) = >>=-eq-ok (location env parse text) _ h in
      let (allowed, done) = guard-eq-ok (allows_base_url env parse url) insecure_base_url _ rest in
      inr (
        text,
        url,
        refl,
        location_lem text at,
        sym (ok_injective done),
        IsAllowed-of_test url allowed,
      )

  -- A base URL of the backend that resolves is the local default, where the variable is unset
  -- outside production, or the origin of the URL that is set, which is over HTTPS, local over HTTP,
  -- or allowed by the override.
  pub resolve_api_base_url_cases :
      (base : String)
      → resolve_api_base_url env parse ≡ ok base
      → ((env "FLASH_TRIPS_API_BASE_URL" ≡ none)
          × (base ≡ "http://127.0.0.1:8000")
          × (env "NODE_ENV" ≢ some "production"))
        ⊎ ((text : String) × (url : Location) × (env "FLASH_TRIPS_API_BASE_URL" ≡ some text)
            × (parse text ≡ some url)
            × (base ≡ url.origin)
            × IsAllowed url)
  unfolding resolve_api_base_url
  resolve_api_base_url_cases base h = base_url_cases (env "FLASH_TRIPS_API_BASE_URL") base h
