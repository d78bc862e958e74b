-- ===== src/Routing/Errors.antt =====
-- `_shape_upstream_error` of backend/routing.py, less the classification that it logs.
--
-- A response's `message` is a list of code points, empty where its body is no JSON object with one.
use meander.Common.{Bool, String, [], false, if◌then◌else◌, true, ℕ, ◌&&◌, ◌==◌, ◌||◌, ◌∷◌}
use meander.Common.Text.{Text, codes, lower_text}
use meander.Routing.{
  ErrorKind, HumanMessage, RoutingError, Server, auth, could_not_answer, key_rejected,
  mode_not_available, needs_flexible_mode, no_route, no_route_between, nothing_near_point,
  over_quota, plan_limitation, refused_in_front, upstream, upstream_rate_limit,
}

-- `needle in text`
unfoldable pub starts_with : Text → Text → Bool
starts_with [] text = true
starts_with (c ∷ needle) [] = false
starts_with (c ∷ needle) (d ∷ text) = (c == d) && starts_with needle text

unfoldable pub contains : Text → Text → Bool
unfolding starts_with
contains needle [] = starts_with needle []
contains needle (c ∷ text) =
    let rest = contains needle text in starts_with needle (c ∷ text) || rest

unfoldable pub mentions : String → Text → Bool
unfolding contains
mentions needle text = contains (codes needle) text

unfoldable pub plan_error : HumanMessage → RoutingError
plan_error message = record {
  kind = plan_limitation;
  human_message = message;
  status_code = 422;
  point_not_snappable = false;
}

unfoldable pub no_route_error : HumanMessage → Bool → RoutingError
no_route_error message snap = record {
  kind = no_route;
  human_message = message;
  status_code = 422;
  point_not_snappable = snap;
}

-- RoutingError(kind, message, status_code=status)
unfoldable pub routing_error : ErrorKind → HumanMessage → ℕ → RoutingError
routing_error kind message status = record {
  kind = kind;
  human_message = message;
  status_code = status;
  point_not_snappable = false;
}

unfoldable pub shape_upstream_error : Server → (status : ℕ) → (message : Text) → RoutingError
unfolding mentions plan_error no_route_error routing_error lower_text
shape_upstream_error server status message =
    let lowered = lower_text message in
    if mentions "flexible mode" lowered
      || (mentions "custom_model" lowered && mentions "speed mode" lowered)
    then plan_error needs_flexible_mode
    else if mentions "profile parameter can only be one of" lowered
    then plan_error mode_not_available
    else if status == 401 || status == 403
    then routing_error auth (if server.self_hosted then refused_in_front else key_rejected) 503
    else if status == 429
    then routing_error upstream_rate_limit over_quota 503
    else if mentions "cannot find point" lowered || mentions "point 0" lowered
    then no_route_error nothing_near_point true
    else if mentions "connection between locations not found" lowered
    then no_route_error no_route_between false
    else routing_error upstream could_not_answer 502
