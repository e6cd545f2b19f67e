-- ===== src/Http/Gate.antt =====
-- internal/httpapi/server.go: the checks that ServeHTTP makes before a request reaches its handler.
-- net.SplitHostPort, netip.ParseAddr and url.Parse are parameters.
pub mod Admitted
mod Tests
use winforge.Prelude.{
  ℕ, ◌+◌, ◌-◌, ◌≡◌, Bool, true, false, not, ◌&&◌, ◌||◌, Option, none, some, List, [], ◌∷◌, length,
  take, any, ltb, leb, ◌==◌, if◌then◌else◌,
}
use winforge.Text.{
  Text, codes, text_eq, is_empty, has_prefix, trim_prefix, equal_fold, contains_any, CaseTable,
}
use winforge.AppManager.{has_suffix}
use winforge.Http.RateLimit.{Limiter, allow}

-- url.URL, as far as isSameOrigin looks at it
pub record Url : Type 0 where
  pub scheme : Text
  pub host : Text
  pub has_user : Bool
  pub path : Text
  pub raw_query : Text
  pub fragment : Text

-- functions of the packages net, netip and net/url; none is an error
pub record Net : Type 0 where
  pub split_host_port : Text → Option (Text × Text)
  -- netip.ParseAddr, and IsLoopback of the address
  pub parse_loopback : Text → Option Bool
  pub parse_url : Text → Option Url

pub record Request : Type 0 where
  pub method : Text
  pub host : Text
  pub tls : Bool
  pub sec_fetch_site : Text
  pub origin : Text
  pub token : Text
  pub remote_addr : Text

unfoldable pub is_mutation : Text → Bool
is_mutation m =
    text_eq m (codes "POST")
    || (text_eq m (codes "PUT") || (text_eq m (codes "PATCH") || text_eq m (codes "DELETE")))

-- strings.TrimSuffix(s, "]") of a text that ends with it
abbrev pub drop_last : Text → Text
drop_last [] = []
drop_last (c ∷ []) = []
drop_last (c ∷ d ∷ s) = c ∷ drop_last (d ∷ s)

unfoldable pub trim_bracket : Text → Text
trim_bracket s = if has_suffix s (codes "]") then drop_last s else s

abbrev pub or_plain : Text → Option (Text × Text) → Option (Text × Text)
or_plain authority (some hp) = some hp
or_plain authority none = if contains_any authority (codes ":") then none else some (authority, [])

unfoldable pub split_authority : Net → Text → Option (Text × Text)
unfolding trim_bracket
split_authority net authority =
    if is_empty authority
    then none
    else if has_prefix authority (codes "[") && has_suffix authority (codes "]")
    then some (trim_bracket (trim_prefix authority (codes "[")), [])
    else or_plain authority (net.split_host_port authority)

-- what becomes of a request: an answer with an error status, or the handlers of the mux, which read at
-- most a number of bytes of its body, all of it for none
pub data Outcome : Type 0 where
  answered : (status : ℕ) → Outcome
  served : (body_limit : Option ℕ) → Outcome

-- maxRequestBodyBytes
abbrev pub max_request_body : ℕ
max_request_body = 1048576

-- limitMutation at the time `now`; a nil limiter lets every request through
unfoldable pub limit_mutation : (now : ℕ) → Request → Option Limiter → Bool × Option Limiter
unfolding allow
limit_mutation now r none = (true, none)
limit_mutation now r (some limiter) =
    let key = if is_empty r.remote_addr then codes "unknown" else r.remote_addr in
    let (allowed, limiter') = allow key now limiter in (allowed, some limiter')

module _ ⦃c : CaseTable⦄ (net : Net) where
  abbrev pub is_true : Option Bool → Bool
  is_true (some true) = true
  is_true _ = false

  abbrev pub loopback_host : Option (Text × Text) → Bool
  loopback_host none = false
  loopback_host (some (host, port)) =
      if equal_fold host (codes "localhost") then true else is_true (net.parse_loopback host)

  unfoldable pub is_loopback_authority : Text → Bool
  unfolding split_authority
  is_loopback_authority authority = loopback_host (split_authority net authority)

  abbrev pub or_default : Bool → Text → Text
  or_default tls port = if is_empty port then (if tls then codes "443" else codes "80") else port

  abbrev pub scheme_of : Bool → Text
  scheme_of tls = if tls then codes "https" else codes "http"

  -- the comparison of the two authorities; `u` has the scheme of the request
  abbrev pub same_authority :
      Bool → Option (Text × Text) → Option (Text × Text) → (schemes : Bool) → Bool
  same_authority tls none origin schemes = false
  same_authority tls (some request) none schemes = false
  same_authority tls (some (request_host, request_port)) (some (origin_host, origin_port)) schemes =
      equal_fold request_host origin_host
      && (schemes && text_eq (or_default tls request_port) (or_default tls origin_port))

  abbrev pub malformed : Url → Bool
  malformed u =
      is_empty u.host
      || (u.has_user
          || (not (is_empty u.path)
              || (not (is_empty u.raw_query)
                  || (not (is_empty u.fragment)
                      || (not (text_eq u.scheme (codes "http"))
                          && not (text_eq u.scheme (codes "https")))))))

  abbrev pub from_origin : Request → Option Url → Bool
  from_origin r none = false
  from_origin r (some u) =
      if malformed u
      then false
      else same_authority r.tls (split_authority net r.host) (split_authority net u.host)
          (text_eq u.scheme (scheme_of r.tls))

  unfoldable pub is_same_origin : Request → Bool
  unfolding split_authority
  is_same_origin r =
      if equal_fold r.sec_fetch_site (codes "cross-site")
      then false
      else if is_empty r.origin
      then true
      else from_origin r (net.parse_url r.origin)

  -- `limit` is limitMutation, which answers itself where it refuses
  module _ {L : Type 0} (limit : Request → L → Bool × L) where
    abbrev pub limited : Bool × L → Outcome × L
    limited (true, l) = (served (some max_request_body), l)
    limited (false, l) = (answered 429, l)

    -- ServeHTTP
    unfoldable pub serve_http : (session_token : Text) → Request → L → Outcome × L
    unfolding is_loopback_authority is_mutation is_same_origin
    serve_http session_token r l =
        if not (is_loopback_authority r.host)
        then (answered 403, l)
        else if not (is_mutation r.method)
        then (served none, l)
        else if not (is_same_origin r)
        then (answered 403, l)
        else if is_empty r.token || not (text_eq r.token session_token)
        then (answered 401, l)
        else limited (limit r l)
