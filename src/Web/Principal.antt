-- ===== src/Web/Principal.antt =====
-- apps/web/lib/server/authenticated-session.ts: who the bearer of an access token is, and the
-- session established for that planner.
use flash_trips.Prelude.{
  ℕ, String, Bool, true, false, Option, none, some, List, [], ◌∷◌, ◌++◌, ◌&&◌, ◌||◌, replicate, leb,
  nat_eq, codes, is_digit, Result, ok, err, if◌then◌else◌,
}
use flash_trips.Json.{Json, string_member}
use flash_trips.Web.Platform.{Platform}
use flash_trips.Web.Store.{Database, DatabaseError}
use flash_trips.Web.Session.{Manager, Draws, IssuedSession, authenticate}

-- The answer of the backend's principal endpoint; none where `fetch` rejects.
pub record PrincipalResponse : Type 0 where
  pub is_ok : Bool
  pub body : Option Json

abbrev is_hex : ℕ → Bool
is_hex c = is_digit c || (leb b'a' c && leb c b'f') || (leb b'A' c && leb c b'F')

abbrev is_dash : ℕ → Bool
is_dash c = nat_eq c b'-'

abbrev is_variant : ℕ → Bool
is_variant c =
    nat_eq c b'8'
    || nat_eq c b'9'
    || nat_eq c b'a'
    || nat_eq c b'b'
    || nat_eq c b'A'
    || nat_eq c b'B'

-- uuidPattern, a test for each character.
abbrev uuid_pattern : List (ℕ → Bool)
uuid_pattern =
    replicate 8 is_hex
    ++ (is_dash
        ∷ (replicate 4 is_hex
            ++ (is_dash
                ∷ (replicate 4 is_hex
                    ++ (is_dash
                        ∷ (is_variant
                            ∷ (replicate 3 is_hex ++ (is_dash ∷ replicate 12 is_hex))))))))

unfoldable pub matches_each : List (ℕ → Bool) → List ℕ → Bool
matches_each [] [] = true
matches_each (test ∷ tests) (c ∷ cs) = test c && matches_each tests cs
matches_each _ _ = false

-- uuidPattern.test(text).
unfoldable pub is_uuid : String → Bool
unfolding matches_each
is_uuid text = matches_each uuid_pattern (codes text)

unfoldable pub read_planner_id : Option String → Option String
unfolding is_uuid
read_planner_id none = none
read_planner_id (some id) = if is_uuid id then some id else none

unfoldable pub planner_of_body : Option Json → Option String
unfolding read_planner_id string_member
planner_of_body none = none
planner_of_body (some body) = read_planner_id (string_member "planner_id" body)

unfoldable pub planner_of_response : Option PrincipalResponse → Option String
unfolding planner_of_body
planner_of_response none = none
planner_of_response (some response) = if response.is_ok then planner_of_body response.body else none

-- Why no session was established: the principal was refused, or the database threw.
pub data EstablishError : Type 0 where
  authentication_failed : EstablishError
  database_failed : DatabaseError → EstablishError

abbrev authenticated :
    Database × Result DatabaseError IssuedSession → Database × Result EstablishError String
authenticated (db, ok issued) = (db, ok issued.cookie_value)
authenticated (db, err e) = (db, err (database_failed e))

module _ (p : Platform) (m : Manager) (fetcher : String → Option PrincipalResponse) where
  -- resolvePlannerId; `fetcher` is given the access token that the request bears.
  unfoldable pub resolve_planner_id : String → Option String
  unfolding planner_of_response
  resolve_planner_id access = planner_of_response (fetcher access)

  unfoldable pub establish_for :
      Database
      → Option String
      → String
      → Option String
      → Draws
      → ℕ
      → ℕ
      → Database × Result EstablishError String
  establish_for db none access previous draws revoked_at now = (db, err authentication_failed)
  establish_for db (some planner) access previous draws revoked_at now = authenticated (
      authenticate p m db
        (record { access_token = access; planner_id = planner; previous_identifier = previous })
        draws revoked_at now)

  -- establishSession of the callback route: resolvePlannerId, then authenticate.
  unfoldable pub establish_session :
      Database → String → Option String → Draws → ℕ → ℕ → Database × Result EstablishError String
  unfolding establish_for resolve_planner_id
  establish_session db access previous draws revoked_at now =
      establish_for db (resolve_planner_id access) access previous draws revoked_at now
