-- ===== src/Control/Health.antt =====
-- control/health.go: what the server answers of the health of its services.
pub mod Laws
use vcs_srs_server.Base.{
  String, none, some, List, [], ◌∷◌, nat_eq, string_eq, Map, lookup, insert, delete,
}

pub data ServingStatus : Type 0 where
  serving not_serving unknown service_unknown : ServingStatus

-- statusMap
abbrev pub HealthServer : Type 0
HealthServer = Map String ServingStatus

unfoldable pub new_full_health_server : HealthServer
new_full_health_server = ("", serving) ∷ []

unfoldable pub check : String → HealthServer → ServingStatus
check service h = elim (lookup service h) [ none ↦ service_unknown | some status ↦ status ]

-- The first answer is all that is sent.
unfoldable pub watch : String → HealthServer → List ServingStatus
watch service h = check service h ∷ []

unfoldable pub list : HealthServer → Map String ServingStatus
list [] = []
list ((service, status) ∷ h) = insert service status (list h)

unfoldable pub set_serving_status : String → ServingStatus → HealthServer → HealthServer
set_serving_status service serving h = insert service serving h
set_serving_status service not_serving h = insert service not_serving h
set_serving_status service unknown h = delete service h
set_serving_status service service_unknown h = delete service h
