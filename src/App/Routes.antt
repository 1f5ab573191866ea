-- ===== src/App/Routes.antt =====
-- internal/app/dispatcher.go: who answers which paths.
use aisummoner.Prelude.{
  ◌≡◌, ◌≢◌, refl, ap, sym, ◌∙◌, Bool, true, false, not, ◌&&◌, ◌++◌, if◌then◌else◌,
}
use mathlib.Core.Path.{subst}
use aisummoner.Prelude.Text.{codes}
use aisummoner.Store.Data.{Bytes}
use aisummoner.App.Dispatcher.{
  RouteKind, route_static, route_tunnel, route_terminal, route_agent, route_health, route_browser,
  route_denied, classify_path, Handler, unavailable, health_handler, not_found_handler,
  static_handler, tunnel_handler, terminal_handler, agent_handler, browser_handler, handler_of,
  is_health, serve_http,
}
use aisummoner.App.Paths.{
  classify-health_sound, classify-health, classify-tunnel_sound, tunnel_route, classify-tunnel,
  classify-api_itself, classify-internal_itself, classify-internal, classify-below_health,
  IsApiRoute, classify-api, IsOutside, classify-outside,
}

-- A handler of the interface of the server.
abbrev pub AnswersApi : Handler → Type 0
AnswersApi tunnel_handler = Unit {0}
AnswersApi terminal_handler = Unit {0}
AnswersApi agent_handler = Unit {0}
AnswersApi browser_handler = Unit {0}
AnswersApi health_handler = ⊥
AnswersApi static_handler = ⊥
AnswersApi not_found_handler = ⊥
AnswersApi unavailable = ⊥

-- What the dispatcher promises of the handlers of a path.
pub record Serves (value : Bytes) : Type 0 where
  health : (ready : Bool) → value ≡ codes "/healthz" → serve_http ready value ≡ health_handler
  not_ready : value ≢ codes "/healthz" → serve_http false value ≡ unavailable
  internal_itself : value ≡ codes "/internal" → serve_http true value ≡ not_found_handler
  internal :
      (rest : Bytes)
      → value ≡ codes "/internal/" ++ rest
      → serve_http true value ≡ not_found_handler
  below_health :
      (rest : Bytes) → value ≡ codes "/healthz/" ++ rest → serve_http true value ≡ not_found_handler
  api_itself : value ≡ codes "/api" → serve_http true value ≡ browser_handler
  api : (rest : Bytes) → value ≡ codes "/api/" ++ rest → AnswersApi (serve_http true value)
  tunnel : value ≡ codes "/api/v1/tunnel" → serve_http true value ≡ tunnel_handler
  only_tunnel : serve_http true value ≡ tunnel_handler → value ≡ codes "/api/v1/tunnel"
  outside : IsOutside value → serve_http true value ≡ static_handler

ready_lem : (value : Bytes) → serve_http true value ≡ handler_of (classify_path value)
unfolding serve_http
ready_lem value = served (classify_path value)
  where
    served :
        (k : RouteKind)
        → (if not (is_health k) && not true then unavailable else handler_of k) ≡ handler_of k
    served route_static = refl
    served route_tunnel = refl
    served route_terminal = refl
    served route_agent = refl
    served route_health = refl
    served route_browser = refl
    served route_denied = refl

health_lem : (ready : Bool) → serve_http ready (codes "/healthz") ≡ health_handler
unfolding serve_http
health_lem ready = rw classify-health refl

not_ready_lem : (value : Bytes) → value ≢ codes "/healthz" → serve_http false value ≡ unavailable
unfolding serve_http
not_ready_lem value n = turned (classify_path value) (λ e. n (classify-health_sound value e))
  where
    turned :
        (k : RouteKind)
        → k ≢ route_health
        → (if not (is_health k) && not false then unavailable else handler_of k) ≡ unavailable
    turned route_health h = absurd (h refl)
    turned route_static h = refl
    turned route_tunnel h = refl
    turned route_terminal h = refl
    turned route_agent h = refl
    turned route_browser h = refl
    turned route_denied h = refl

api_handler : (k : RouteKind) → IsApiRoute k → AnswersApi (handler_of k)
api_handler route_static h = absurd h
api_handler route_tunnel h = tt
api_handler route_terminal h = tt
api_handler route_agent h = tt
api_handler route_health h = absurd h
api_handler route_browser h = tt
api_handler route_denied h = absurd h

-- The health check answers its path whether or not the server is ready, and every other path is unavailable
-- while it is not. When it is ready, nothing below /internal/ and /healthz/ is found, and what is below
-- /api/ has a handler of the interface, never the static files.
pub serve_http_sound : (value : Bytes) → Serves value
serve_http_sound value = record {
  health = λ ready e. rw e (health_lem ready);
  not_ready = not_ready_lem value;
  internal = λ rest e. rw e (ready_lem _ ∙ ap handler_of (classify-internal rest));
  below_health = λ rest e. rw e (ready_lem _ ∙ ap handler_of (classify-below_health rest));
  internal_itself = λ e. rw e (ready_lem _ ∙ ap handler_of classify-internal_itself);
  api_itself = λ e. rw e (ready_lem _ ∙ ap handler_of classify-api_itself);
  tunnel = λ e. rw e (ready_lem _ ∙ ap handler_of classify-tunnel);
  only_tunnel = λ e. classify-tunnel_sound value (tunnel_route _ (sym (ready_lem value) ∙ e));
  outside = λ o. ready_lem value ∙ ap handler_of (classify-outside value o);
  api = λ rest e. rw e (subst AnswersApi (sym (ready_lem _)) (api_handler _ (classify-api rest)));
}
