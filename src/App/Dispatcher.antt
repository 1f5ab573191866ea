-- ===== src/App/Dispatcher.antt =====
-- internal/app/dispatcher.go: which handler has a request. A path is the list of its bytes.
use aisummoner.Prelude.{
  ℕ, ◌==◌, Bool, true, false, not, ◌&&◌, ◌||◌, Option, none, some, List, [], ◌∷◌, if◌then◌else◌,
  any,
}
use aisummoner.Prelude.Text.{codes}
use aisummoner.Store.Data.{Bytes, bytes_eq}

pub data RouteKind : Type 0 where
  route_static route_tunnel route_terminal route_agent route_health route_browser route_denied :
      RouteKind

-- `strings.HasPrefix` with `strings.TrimPrefix`: what follows the prefix, if it is there.
unfoldable pub after_prefix : Bytes → Bytes → Option Bytes
after_prefix [] value = some value
after_prefix (p ∷ ps) [] = none
after_prefix (p ∷ ps) (c ∷ cs) = let rest = after_prefix ps cs in if p == c then rest else none

unfoldable pub has_prefix : Bytes → Bytes → Bool
has_prefix prefix value = elim (after_prefix prefix value) [ none ↦ false | some rest ↦ true ]

-- `strings.TrimPrefix`.
unfoldable pub trim_prefix : Bytes → Bytes → Bytes
trim_prefix prefix value = elim (after_prefix prefix value) [ none ↦ value | some rest ↦ rest ]

unfoldable pub has_suffix : Bytes → Bytes → Bool
has_suffix suffix [] = bytes_eq [] suffix
has_suffix suffix (c ∷ cs) = bytes_eq (c ∷ cs) suffix || has_suffix suffix cs

-- `strings.TrimSuffix`.
unfoldable pub trim_suffix : Bytes → Bytes → Bytes
trim_suffix suffix [] = []
trim_suffix suffix (c ∷ cs) =
    let rest = trim_suffix suffix cs in if bytes_eq (c ∷ cs) suffix then [] else c ∷ rest

abbrev pub has_slash : Bytes → Bool
has_slash value = any (λ c. c == b'/') value

abbrev pub is_empty : Bytes → Bool
is_empty [] = true
is_empty (c ∷ cs) = false

abbrev pub one_segment : Bytes → Bool
one_segment middle = not (is_empty middle) && not (has_slash middle)

-- The prefix and the suffix may overlap in the value.
unfoldable pub one_segment_between : Bytes → Bytes → Bytes → Bool
one_segment_between value prefix suffix =
    has_prefix prefix value
    && has_suffix suffix value
    && one_segment (trim_suffix suffix (trim_prefix prefix value))

abbrev pub prepend : ℕ → List Bytes → List Bytes
prepend c [] = (c ∷ []) ∷ []
prepend c (s ∷ ss) = (c ∷ s) ∷ ss

-- `strings.Split(value, "/")`.
unfoldable pub split : Bytes → List Bytes
split [] = [] ∷ []
split (c ∷ cs) = let rest = split cs in if c == b'/' then [] ∷ rest else prepend c rest

abbrev pub session_segments : List Bytes → Bool
session_segments [] = false
session_segments (s ∷ []) = not (is_empty s)
session_segments (s ∷ t ∷ []) =
    not (is_empty s)
    && (bytes_eq t (codes "messages") || bytes_eq t (codes "events") || bytes_eq t (codes "models"))
session_segments (s ∷ t ∷ u ∷ rest) = false

abbrev pub session_rest : Option Bytes → Bool
session_rest none = false
session_rest (some []) = false
session_rest (some (c ∷ cs)) = session_segments (split (c ∷ cs))

unfoldable pub agent_session_path : Bytes → Bool
agent_session_path value = session_rest (after_prefix (codes "/api/v1/agent-sessions/") value)

abbrev pub provider_segments : List Bytes → Bool
provider_segments [] = false
provider_segments (s ∷ []) = false
provider_segments (s ∷ t ∷ []) = not (is_empty s) && bytes_eq t (codes "providers")
provider_segments (s ∷ t ∷ u ∷ []) =
    not (is_empty s) && bytes_eq t (codes "providers") && not (is_empty u)
provider_segments (s ∷ t ∷ u ∷ v ∷ rest) = false

abbrev pub provider_rest : Option Bytes → Bool
provider_rest none = false
provider_rest (some rest) = provider_segments (split rest)

unfoldable pub agent_runtime_provider_path : Bytes → Bool
agent_runtime_provider_path value =
    provider_rest (after_prefix (codes "/api/v1/agent-runtimes/") value)

unfoldable pub is_terminal_path : Bytes → Bool
is_terminal_path value = one_segment_between value (codes "/api/v1/devices/") (codes "/terminal")

unfoldable pub is_agent_path : Bytes → Bool
is_agent_path value =
    one_segment_between value (codes "/api/v1/devices/") (codes "/agent-sessions")
    || bytes_eq value (codes "/api/v1/agent-provider/deepseek")
    || bytes_eq value (codes "/api/v1/agent-provider/dsh")
    || bytes_eq value (codes "/api/v1/agent-settings")
    || bytes_eq value (codes "/api/v1/agent-sessions")
    || agent_runtime_provider_path value
    || agent_session_path value
    || one_segment_between value (codes "/api/v1/tool-calls/") (codes "/decision")

unfoldable pub classify_path : Bytes → RouteKind
classify_path value =
    if bytes_eq value (codes "/api/v1/tunnel")
    then route_tunnel
    else if is_terminal_path value
    then route_terminal
    else if is_agent_path value
    then route_agent
    else if bytes_eq value (codes "/healthz")
    then route_health
    else if has_prefix (codes "/healthz/") value
    then route_denied
    else if bytes_eq value (codes "/api") || has_prefix (codes "/api/") value
    then route_browser
    else if bytes_eq value (codes "/internal") || has_prefix (codes "/internal/") value
    then route_denied
    else route_static

pub data Handler : Type 0 where
  tunnel_handler terminal_handler agent_handler health_handler browser_handler static_handler
        not_found_handler unavailable :
      Handler

abbrev pub handler_of : RouteKind → Handler
handler_of route_static = static_handler
handler_of route_tunnel = tunnel_handler
handler_of route_terminal = terminal_handler
handler_of route_agent = agent_handler
handler_of route_health = health_handler
handler_of route_browser = browser_handler
handler_of route_denied = not_found_handler

abbrev pub is_health : RouteKind → Bool
is_health route_health = true
is_health _ = false

unfoldable pub serve_http : Bool → Bytes → Handler
serve_http ready value =
    let kind = classify_path value in
    if not (is_health kind) && not ready then unavailable else handler_of kind
