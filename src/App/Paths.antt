-- ===== src/App/Paths.antt =====
-- internal/app/dispatcher.go: the routes of paths.
use aisummoner.Prelude.{
  ◌≡◌, ◌≢◌, refl, ap, sym, ◌∙◌, Bool, true, false, ◌||◌, [], ◌∷◌, ◌++◌, if◌then◌else◌, arith, inl,
  inr, Bool-cases, ◌==◌, none, Option-cases,
}
use aisummoner.Prelude.Text.{codes}
use aisummoner.Store.Data.{Bytes, bytes_eq}
use aisummoner.App.Dispatcher.{
  RouteKind, route_static, route_tunnel, route_terminal, route_agent, route_health, route_browser,
  route_denied, after_prefix, has_prefix, one_segment_between, agent_session_path,
  agent_runtime_provider_path, is_terminal_path, is_agent_path, classify_path, tunnel_handler,
  handler_of,
}

bytes_eq_sound : (xs ys : Bytes) → bytes_eq xs ys ≡ true → xs ≡ ys
unfolding bytes_eq
bytes_eq_sound [] [] e = refl
bytes_eq_sound [] (y ∷ ys) e = absurd (cc e)
bytes_eq_sound (x ∷ xs) [] e = absurd (cc e)
bytes_eq_sound (x ∷ xs) (y ∷ ys) e = ground (arith, e, bytes_eq_sound xs ys)

pub classify-health_sound :
    (value : Bytes) → classify_path value ≡ route_health → value ≡ codes "/healthz"
unfolding classify_path
classify-health_sound value e = bytes_eq_sound value (codes "/healthz") (ground (arith, e))

pub classify-health : classify_path (codes "/healthz") ≡ route_health
unfolding classify_path is_terminal_path is_agent_path one_segment_between has_prefix after_prefix
    bytes_eq agent_session_path agent_runtime_provider_path
classify-health = refl

pub classify-tunnel_sound :
    (value : Bytes) → classify_path value ≡ route_tunnel → value ≡ codes "/api/v1/tunnel"
unfolding classify_path
classify-tunnel_sound value e = bytes_eq_sound value (codes "/api/v1/tunnel") (ground (arith, e))

pub tunnel_route : (k : RouteKind) → handler_of k ≡ tunnel_handler → k ≡ route_tunnel
tunnel_route route_tunnel e = refl
tunnel_route route_static e = absurd (cc e)
tunnel_route route_terminal e = absurd (cc e)
tunnel_route route_agent e = absurd (cc e)
tunnel_route route_health e = absurd (cc e)
tunnel_route route_browser e = absurd (cc e)
tunnel_route route_denied e = absurd (cc e)

pub classify-tunnel : classify_path (codes "/api/v1/tunnel") ≡ route_tunnel
unfolding classify_path bytes_eq
classify-tunnel = refl

pub classify-api_itself : classify_path (codes "/api") ≡ route_browser
unfolding classify_path is_terminal_path is_agent_path one_segment_between has_prefix after_prefix
    bytes_eq agent_session_path agent_runtime_provider_path
classify-api_itself = refl

pub classify-internal_itself : classify_path (codes "/internal") ≡ route_denied
unfolding classify_path is_terminal_path is_agent_path one_segment_between has_prefix after_prefix
    bytes_eq agent_session_path agent_runtime_provider_path
classify-internal_itself = refl

pub classify-internal : (rest : Bytes) → classify_path (codes "/internal/" ++ rest) ≡ route_denied
unfolding classify_path is_terminal_path is_agent_path one_segment_between has_prefix after_prefix
    bytes_eq agent_session_path agent_runtime_provider_path
classify-internal rest = refl

pub classify-below_health :
    (rest : Bytes) → classify_path (codes "/healthz/" ++ rest) ≡ route_denied
unfolding classify_path is_terminal_path is_agent_path one_segment_between has_prefix after_prefix
    bytes_eq agent_session_path agent_runtime_provider_path
classify-below_health rest = refl

api_prefix : (rest : Bytes) → has_prefix (codes "/api/") (codes "/api/" ++ rest) ≡ true
unfolding has_prefix after_prefix
api_prefix rest = refl

api_elsewhere :
    (rest : Bytes)
    → (bytes_eq (codes "/api/" ++ rest) (codes "/healthz") ≡ false)
      × (has_prefix (codes "/healthz/") (codes "/api/" ++ rest) ≡ false)
unfolding has_prefix after_prefix bytes_eq
api_elsewhere rest = (refl, refl)

abbrev pub IsApiRoute : RouteKind → Type 0
IsApiRoute route_static = ⊥
IsApiRoute route_tunnel = Unit {0}
IsApiRoute route_terminal = Unit {0}
IsApiRoute route_agent = Unit {0}
IsApiRoute route_health = ⊥
IsApiRoute route_browser = Unit {0}
IsApiRoute route_denied = ⊥

api_kind :
    (a b c h u v : Bool) (other : RouteKind)
    → h ≡ false
    → u ≡ false
    → v ≡ true
    → IsApiRoute (
        if a
        then route_tunnel
        else if b
        then route_terminal
        else if c
        then route_agent
        else if h
        then route_health
        else if u
        then route_denied
        else if v
        then route_browser
        else other)
api_kind true b c h u v other p q r = tt
api_kind false true c h u v other p q r = tt
api_kind false false true h u v other p q r = tt
api_kind false false false true u v other p q r = absurd (cc p)
api_kind false false false false true v other p q r = absurd (cc q)
api_kind false false false false false true other p q r = tt
api_kind false false false false false false other p q r = absurd (cc r)

pub classify-api : (rest : Bytes) → IsApiRoute (classify_path (codes "/api/" ++ rest))
unfolding classify_path
classify-api rest =
    let (health, below) = api_elsewhere rest in
    api_kind (bytes_eq (codes "/api/" ++ rest) (codes "/api/v1/tunnel"))
      (is_terminal_path (codes "/api/" ++ rest)) (is_agent_path (codes "/api/" ++ rest))
      (bytes_eq (codes "/api/" ++ rest) (codes "/healthz"))
      (has_prefix (codes "/healthz/") (codes "/api/" ++ rest))
      (bytes_eq (codes "/api/" ++ rest) (codes "/api")
        || has_prefix (codes "/api/") (codes "/api/" ++ rest))
      _ health below (ground (arith, api_prefix rest))

has_prefix-append :
    (p q value : Bytes) → has_prefix p value ≡ false → has_prefix (p ++ q) value ≡ false
unfolding has_prefix after_prefix
has_prefix-append [] q value h = absurd (cc h)
has_prefix-append (c ∷ p) q [] h = refl
has_prefix-append (c ∷ p) q (d ∷ value) h = elim (Bool-cases (c == d)) [
  | inl same ↦ rw (has_prefix, same) (has_prefix-append p q value (rw (has_prefix, same) at h))
  | inr other ↦ rw (has_prefix, other) refl
]

has_prefix-append_self : (p q : Bytes) → has_prefix p (p ++ q) ≡ true
unfolding has_prefix after_prefix
has_prefix-append_self [] q = refl
has_prefix-append_self (c ∷ p) q =
    let same : (c == c) ≡ true = ground arith in rw (has_prefix, same) (has_prefix-append_self p q)

has_prefix_split :
    (p value : Bytes) → has_prefix p value ≡ true → (rest : Bytes) × (value ≡ p ++ rest)
unfolding has_prefix after_prefix
has_prefix_split [] value h = (value, refl)
has_prefix_split (c ∷ p) [] h = absurd (cc h)
has_prefix_split (c ∷ p) (d ∷ value) h = elim (Bool-cases (c == d)) [
  | inl same ↦
      let (rest, e) = has_prefix_split p value (rw (has_prefix, same) at h) in
      let at : c ≡ d = ground (arith, same) in
      (rest, ap (λ k. k ∷ value) (sym at) ∙ ap (λ ks. c ∷ ks) e)
  | inr other ↦ absurd (cc (rw (has_prefix, other) at h))
]

-- A path that is none of these names and is below none of them.
pub record IsOutside (value : Bytes) : Type 0 where
  health : value ≢ codes "/healthz"
  api : value ≢ codes "/api"
  internal : value ≢ codes "/internal"
  below_health : (rest : Bytes) → value ≢ codes "/healthz/" ++ rest
  below_api : (rest : Bytes) → value ≢ codes "/api/" ++ rest
  below_internal : (rest : Bytes) → value ≢ codes "/internal/" ++ rest

not_below : (p value : Bytes) → ((rest : Bytes) → value ≢ p ++ rest) → has_prefix p value ≡ false
not_below p value n = elim (Bool-cases (has_prefix p value)) [
  | inl below ↦ let (rest, e) = has_prefix_split p value below in absurd (n rest e)
  | inr above ↦ above
]

not_equal : (name value : Bytes) → value ≢ name → bytes_eq value name ≡ false
not_equal name value n = elim (Bool-cases (bytes_eq value name)) [
  | inl same ↦ absurd (n (bytes_eq_sound value name same))
  | inr other ↦ other
]

-- What is not below a prefix is not a longer name either.
not_longer : (p q value : Bytes) → has_prefix p value ≡ false → bytes_eq value (p ++ q) ≡ false
not_longer p q value h =
    not_equal (p ++ q) value (λ e. absurd (cc (h, ap (has_prefix p) e, has_prefix-append_self p q)))

not_terminal :
    (value : Bytes) → has_prefix (codes "/api/") value ≡ false → is_terminal_path value ≡ false
unfolding is_terminal_path one_segment_between
not_terminal value h = rw (has_prefix-append (codes "/api/") (codes "v1/devices/") value h) refl

no_rest : (p value : Bytes) → has_prefix p value ≡ false → after_prefix p value ≡ none
unfolding has_prefix
no_rest p value h = elim (Option-cases (after_prefix p value)) [
  | inl off ↦ off
  | inr (rest, on) ↦ absurd (cc (rw (has_prefix, on) at h))
]

not_agent : (value : Bytes) → has_prefix (codes "/api/") value ≡ false → is_agent_path value ≡ false
unfolding is_agent_path one_segment_between agent_session_path agent_runtime_provider_path
not_agent value h =
    rw
      (
        has_prefix-append (codes "/api/") (codes "v1/devices/") value h,
        not_longer (codes "/api/") (codes "v1/agent-provider/deepseek") value h,
        not_longer (codes "/api/") (codes "v1/agent-provider/dsh") value h,
        not_longer (codes "/api/") (codes "v1/agent-settings") value h,
        not_longer (codes "/api/") (codes "v1/agent-sessions") value h,
        no_rest (codes "/api/v1/agent-runtimes/") value
            (has_prefix-append (codes "/api/") (codes "v1/agent-runtimes/") value h),
        no_rest (codes "/api/v1/agent-sessions/") value
            (has_prefix-append (codes "/api/") (codes "v1/agent-sessions/") value h),
        has_prefix-append (codes "/api/") (codes "v1/tool-calls/") value h,
      )
      refl

pub classify-outside : (value : Bytes) → IsOutside value → classify_path value ≡ route_static
unfolding classify_path
classify-outside value o =
    let below : has_prefix (codes "/api/") value ≡ false = not_below _ value o.below_api in
    rw
      (
        not_longer (codes "/api/") (codes "v1/tunnel") value below,
        not_terminal value below,
        not_agent value below,
        not_equal _ value o.health,
        not_below _ value o.below_health,
        not_equal _ value o.api,
        below,
        not_equal _ value o.internal,
        not_below _ value o.below_internal,
      )
      refl
