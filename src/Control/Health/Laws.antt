-- ===== src/Control/Health/Laws.antt =====
-- What a status that was set is read as.
use vcs_srs_server.Control.Health.{
  HealthServer, ServingStatus, check, list, not_serving, service_unknown, serving,
  set_serving_status, unknown,
}
use vcs_srs_server.Base.{
  String, ◌≡◌, refl, [], ◌∷◌, if◌then◌else◌, ◌==◌, nat_eq, string_eq, lookup, map_laws,
}

-- What Check answers of a service whose status was set.
abbrev pub reported : ServingStatus → ServingStatus
reported serving = serving
reported not_serving = not_serving
reported unknown = service_unknown
reported service_unknown = service_unknown

lookup-list : (other : String) (h : HealthServer) → lookup other (list h) ≡ lookup other h
unfolding list lookup
lookup-list other [] = refl
lookup-list other ((service, status) ∷ h) = grind (map_laws, lookup-list other h)

-- Check answers the status that was set last, where that is SERVING or NOT_SERVING, and else that
-- the service is unknown; the other services keep their answers. List tells of each service what
-- the server holds.
pub check-set_serving_status :
    (service other : String) (status : ServingStatus) (h : HealthServer)
    → (check other (set_serving_status service status h)
        ≡ (if service == other then reported status else check other h))
      × (lookup other (list h) ≡ lookup other h)
unfolding check set_serving_status
check-set_serving_status service other serving h = (grind map_laws, lookup-list other h)
check-set_serving_status service other not_serving h = (grind map_laws, lookup-list other h)
check-set_serving_status service other unknown h = (grind map_laws, lookup-list other h)
check-set_serving_status service other service_unknown h = (grind map_laws, lookup-list other h)
