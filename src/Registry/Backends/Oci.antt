-- ===== src/Registry/Backends/Oci.antt =====
-- registry/oci.go: the tags of an image repository as a registry. The HTTP client, the parser of URLs,
-- the name service and the clock are parameters.
pub mod Headers
pub mod Pages
use dewy.Common.{
  ℕ, zero, suc, ◌+◌, ◌-◌, ◌*◌, ◌/◌, ◌%◌, ◌^◌, ◌≤◌, ◌<◌, Ordering, lt, eq, gt, ◌≡◌, refl, sym, ap,
  ◌∙◌, ◌≢◌, ◌↔◌, ◌⊎◌, inl, inr, Bool, true, false, not, ◌&&◌, ◌||◌, Option, none, some, List, [],
  ◌∷◌, ◌++◌, append_assoc, append-nil, map, arith, ltb, leb, ◌==◌, if◌then◌else◌, Bool-cases,
  Option-cases, &&-true, ltb→lt, lt→ltb, eq_of_==, ==-refl, length, get_elem?, take, drop,
  length-append, take-append-drop, length-drop, any_of, all_of, All, All-append, All-map,
  All-weaken, All-flat_map, In, In-append_left, In-append_right, In-append-cases, All-at, Text,
  codes, text_eq, has_prefix, has_suffix, trim_prefix, split_once, contains, to_lower, split,
  eq_of_text_eq, text_eq_refl, text_eq_iff, has_prefix-drop, has_prefix-append, ℤ, pos, negsuc,
  max_int, pos_part, neg_part, int_sub, sign, int_cmp, ◌>>=◌, ◌>>◌, Returns, Returns-some,
  Returns-bind, bind_of_some,
}
use dewy.Registry.Backends.Oci.Headers.{
  parameter_of, value_of, bearer, auth_parts, next_url_of, first_next,
}
use dewy.Lifecycle.Outside.{CurrentResponse, CurrentAnswer, found, current_failed}
use dewy.Registry.Backends.{Version, find_latest_version, extract_slot}

pub record Oci : Type 0 where
  pub registry : Text
  pub repository : Text
  pub pre_release : Bool
  pub calver : Text
  pub username : Text
  pub password : Text
  pub token : Text
  -- How many requests were sent.
  pub requests : ℕ

abbrev pub max_pagination_pages : ℕ
max_pagination_pages = 100

-- `normalizeDockerHub`
unfoldable pub normalize_docker_hub : Text → Text → Text × Text
normalize_docker_hub host repository =
    let is_alias = text_eq host (codes "docker.io") || text_eq host (codes "index.docker.io") in
    let is_docker_hub = is_alias || text_eq host (codes "registry-1.docker.io") in
    (
      if is_alias then codes "registry-1.docker.io" else host,
      if is_docker_hub && not (contains repository (codes "/"))
          then codes "library/" ++ repository
          else repository,
    )

unfoldable pub get_scheme : Oci → Text
get_scheme o =
    if has_prefix o.registry (codes "localhost") || has_prefix o.registry (codes "127.0.0.1")
    then codes "http"
    else codes "https"

unfoldable pub absolute_url : Oci → Text → Text
absolute_url o url =
    if has_prefix url (codes "/") then get_scheme o ++ codes "://" ++ o.registry ++ url else url

-- `parseNextLink`; the empty text is that of no next page.
unfoldable pub parse_next_link : Oci → Text → Text
parse_next_link o link_header = elim (first_next (split link_header b',')) [
  | none ↦ []
  | some url ↦ absolute_url o url
]

-- The number of the next request, and the state after it.
abbrev pub asked : Oci → ℕ
asked o = o.requests

unfoldable pub sent : Oci → Oci
sent o = record o { requests = o.requests + 1 }

-- A response, its body decoded where that is possible.
pub record Response : Type 0 where
  pub status : ℕ
  pub www_authenticate : Text
  pub link : Text
  pub digest : Text
  pub tags : Option (List Text)

pub record Web : Type 0 where
  -- A request by its number, to a URL, with what it carries for authentication.
  pub send : ℕ → Text → Text → Option Response
  -- Base64 of a user name and a password.
  pub encode : Text → Text → Text
  -- The host name of a URL, and of the registry without its port.
  pub host_of : Text → Option Text
  pub registry_hostname : Text → Text
  -- `validateRealmURL`
  pub is_public : Text → Bool
  -- The token and the access token that a realm answers with, to a service and a scope.
  pub ask_token : ℕ → Text → Option Text → Option Text → Option (Text × Text)

-- The `token` or else the `access_token`.
unfoldable pub token_of : Text × Text → Option Text
token_of (token, access_token) =
    if not (text_eq token [])
    then some token
    else if not (text_eq access_token [])
    then some access_token
    else none

module _ (web : Web) where
  -- A realm on another host than the registry must not be private.
  unfoldable pub is_allowed_realm : Oci → Text → Bool
  is_allowed_realm o host = text_eq host (web.registry_hostname o.registry) || web.is_public host

  unfoldable pub ask_allowed : Oci → List Text → Text → Option Oci
  ask_allowed o parts realm = do
    tokens ←
        web.ask_token (asked o) realm (value_of (codes "service") parts)
          (value_of (codes "scope") parts)
    token ← token_of tokens
    some (record (sent o) { token = token })

  unfoldable pub ask_realm : Oci → List Text → Text → Option Oci
  ask_realm o parts realm = do
    host ← web.host_of realm
    if is_allowed_realm o host then ask_allowed o parts realm else none

  -- `getBearerToken`; `none` is an error.
  unfoldable pub get_bearer_token : Oci → Text → Option Oci
  get_bearer_token o auth_header = do
    parts ← auth_parts auth_header
    realm ← value_of (codes "realm") parts
    ask_realm o parts realm

  unfoldable pub authorization : Oci → Text
  authorization o =
      if not (text_eq o.token [])
      then bearer ++ o.token
      else if not (text_eq o.username []) && not (text_eq o.password [])
      then codes "Basic " ++ web.encode o.username o.password
      else []

  -- The request with the token of the realm.
  unfoldable pub send_with_token : Oci → Text → Response → Option (Oci × Response)
  send_with_token o url r = do
    o' ← get_bearer_token o r.www_authenticate
    r' ← web.send (asked o') url (bearer ++ o'.token)
    some (sent o', r')

  unfoldable pub send_again : Oci → Text → Response → Option (Oci × Response)
  send_again o url r =
      if r.status == 401 && not (text_eq r.www_authenticate [])
      then send_with_token o url r
      else some (o, r)

  unfoldable pub send_authorized : Oci → Text → Option (Oci × Response)
  send_authorized o url = do r ← web.send (asked o) url (authorization o); send_again (sent o) url r

  -- `fetchTagsPage`
  unfoldable pub page_of : Oci → Response → Option (Oci × List Text × Text)
  page_of o r =
      if r.status == 200
      then elim r.tags [ none ↦ none | some tags ↦ some (o, tags, parse_next_link o r.link) ]
      else none

  unfoldable pub fetch_tags_page : Oci → Text → Option (Oci × List Text × Text)
  fetch_tags_page o api_url = do answer ← send_authorized o api_url; page_of answer.0 answer.1

  -- The loop over the pages, with the number of pages that are still allowed.
  unfoldable pub list_from : ℕ → Oci → Text → List Text → Option (Oci × List Text)
  list_from pages o [] all_tags = some (o, all_tags)
  list_from zero o (c ∷ next_url) all_tags = none
  list_from (suc pages) o (c ∷ next_url) all_tags = elim (fetch_tags_page o (c ∷ next_url)) [
    | none ↦ none
    | some (o', tags, next) ↦ list_from pages o' next (all_tags ++ tags)
  ]

  unfoldable pub base_url : Oci → Text
  base_url o =
      get_scheme o
      ++ codes "://"
      ++ o.registry
      ++ codes "/v2/"
      ++ o.repository
      ++ codes "/tags/list"

  unfoldable pub list_tags : Oci → Option (Oci × List Text)
  list_tags o = list_from max_pagination_pages o (base_url o) []

  unfoldable pub find_latest_tag : Oci → List Text → Option Text
  find_latest_tag o tags = elim (find_latest_version o.calver o.pre_release tags) [
    | none ↦ none
    | some (v, tag) ↦ some tag
  ]

  unfoldable pub digest_of : Oci → Response → Option (Oci × Text)
  digest_of o r = if r.status == 200 && not (text_eq r.digest []) then some (o, r.digest) else none

  -- `getImageDigest`
  unfoldable pub get_image_digest : Oci → Text → Option (Oci × Text)
  get_image_digest o tag = do
    answer ← send_authorized o (
        get_scheme o
        ++ codes "://"
        ++ o.registry
        ++ codes "/v2/"
        ++ o.repository
        ++ codes "/manifests/"
        ++ tag)
    digest_of answer.0 answer.1

  unfoldable pub response_for : Oci → Text → Text → CurrentResponse
  response_for o tag digest = record {
    id = digest;
    tag = tag;
    artifact_url = codes "img://" ++ o.registry ++ codes "/" ++ o.repository ++ codes ":" ++ tag;
    slot = extract_slot tag o.calver;
  }

  -- `Current`; `none` is an error, after which the state is not looked at.
  unfoldable pub current : Oci → Option (Oci × CurrentResponse)
  current o = do
    listed ← list_tags o
    tag ← find_latest_tag listed.0 listed.1
    answer ← get_image_digest listed.0 tag
    some (answer.0, response_for o tag answer.1)
