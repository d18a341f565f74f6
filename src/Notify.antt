-- ===== src/Notify.antt =====
-- internal/notify/notify.go and registry.go: alerts, routes and the choice of a notifier. A Go map
-- from match keys to values is an association list; the notifiers are known by their names.
pub mod Routing
use rabbot_seo.Base.{
  ℕ, String, Bool, true, false, ◌&&◌, Option, none, some, List, [], ◌∷◌, if◌then◌else◌, str_eq,
  contains_string,
}
use rabbot_seo.Model.{Severity, severity_string}

pub record AlertItem : Type 0 where
  pub url : String
  pub before : String
  pub after : String

pub record NotifyAlert : Type 0 where
  pub site : String
  pub url : String
  pub change_type : String
  pub severity : Severity
  pub before : String
  pub after : String
  pub detected_at : ℕ
  pub group_key : String
  pub related_count : ℕ
  pub deep_link : String
  pub operational : Bool
  pub items : List AlertItem
  pub segments : List String

-- config.RouteConfig.
pub record RouteConfig : Type 0 where
  pub match_keys : List (String × String)
  pub notifier : String

pub record Registry : Type 0 where
  pub by_name : List String
  pub routes : List RouteConfig

-- One entry of a route's match map, tested against an alert.
unfoldable pub key_matches : String → String → NotifyAlert → Bool
unfolding contains_string
key_matches k v a =
    if str_eq k "severity"
    then str_eq (severity_string a.severity) v
    else if str_eq k "site"
    then str_eq a.site v
    else if str_eq k "change_type"
    then str_eq a.change_type v
    else if str_eq k "segment"
    then contains_string a.segments v
    else false

unfoldable pub route_matches : List (String × String) → NotifyAlert → Bool
unfolding key_matches
route_matches [] a = true
route_matches ((k, v) ∷ rest) a = if key_matches k v a then route_matches rest a else false

-- The loops of `Route` and `RouteTarget`, over the routes that are left.
route_from : List String → List RouteConfig → NotifyAlert → List String
route_from names [] a = []
route_from names (r ∷ rs) a =
    let rest = route_from names rs a in
    if route_matches r.match_keys a
    then (if contains_string names r.notifier then r.notifier ∷ [] else rest)
    else rest

route_target_from : List String → List RouteConfig → NotifyAlert → Option String
route_target_from names [] a = none
route_target_from names (r ∷ rs) a =
    let rest = route_target_from names rs a in
    if route_matches r.match_keys a
    then (if contains_string names r.notifier then some r.notifier else rest)
    else rest

unfoldable pub route : Registry → NotifyAlert → List String
unfolding route_from
route reg a = route_from reg.by_name reg.routes a

-- Also `Dispatcher.ThrottleKey`.
unfoldable pub route_target : Registry → NotifyAlert → Option String
unfolding route_target_from
route_target reg a = route_target_from reg.by_name reg.routes a
