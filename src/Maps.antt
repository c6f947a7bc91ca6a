-- ===== src/Maps.antt =====
-- fe/src/stores/mapsStore.ts. An action is two steps, as other actions may run while it waits for the
-- backend: `begin` or `start_fetch`, and what follows the answer. Each list is kept with its open item.
-- An action that is not a fetch of a list throws what the backend threw.
pub mod Events
pub mod Refinement
pub mod Refresh
use rr_net.Prelude.{Bool, true, false, List, [], ◌∷◌, Option, none, some, String, if◌then◌else◌}
use rr_net.Errors.{Thrown, to_api_error}
use rr_net.Types.{Answer, ok, threw, or_else}
use rr_net.Types.Field.{
  Odc, Odp, ClientLocation, OutageEvent, odc_keyed, odp_keyed, location_keyed, outage_keyed,
}
use rr_net.Keyed.{
  Shelf, empty_shelf, put_all, open_item, close_item, append, prepend, replace, remove, edit,
}

pub record MapsState : Type 0 where
  pub odcs : Shelf Odc
  pub odps : Shelf Odp
  pub client_locations : Shelf ClientLocation
  pub outages : Shelf OutageEvent
  pub loading : Bool
  pub error : Option String

unfoldable pub initial : MapsState
initial = record {
  odcs = empty_shelf;
  odps = empty_shelf;
  client_locations = empty_shelf;
  outages = empty_shelf;
  loading = false;
  error = none;
}

unfoldable pub begin : MapsState → MapsState
begin s = record s { loading = true; error = none }

unfoldable pub fail : Thrown → MapsState → MapsState
fail t s = record s { error = some (to_api_error t).message; loading = false }

-- The start of `fetchODCs`, `fetchODPs` and `fetchClientLocations`: `none` when the store is loading,
-- and nothing is asked of the backend.
unfoldable pub start_fetch : MapsState → Option MapsState
start_fetch s = if s.loading then none else some (record s { loading = true; error = none })

unfoldable pub end_fetch_odcs : MapsState → Answer (Option (List Odc)) → MapsState
end_fetch_odcs s (ok l) = record s { odcs = put_all (or_else l []) s.odcs; loading = false }
end_fetch_odcs s (threw t) = record s {
  error = some (to_api_error t).message;
  loading = false;
  odcs = put_all [] s.odcs;
}

unfoldable pub end_fetch_odc : MapsState → Answer Odc → MapsState
unfolding fail
end_fetch_odc s (ok a) = record s { odcs = open_item a s.odcs; loading = false }
end_fetch_odc s (threw t) = fail t s

unfoldable pub end_create_odc : MapsState → Answer Odc → MapsState
unfolding fail
end_create_odc s (ok a) = record s { odcs = append a s.odcs; loading = false }
end_create_odc s (threw t) = fail t s

unfoldable pub end_update_odc : MapsState → String → Answer Odc → MapsState
unfolding fail
end_update_odc s id (ok a) = record s { odcs = replace id a s.odcs; loading = false }
end_update_odc s id (threw t) = fail t s

unfoldable pub end_delete_odc : MapsState → String → Answer (Unit {0}) → MapsState
unfolding fail
end_delete_odc s id (ok u) = record s { odcs = remove id s.odcs; loading = false }
end_delete_odc s id (threw t) = fail t s

abbrev pub clear_odc : MapsState → MapsState
clear_odc s = record s { odcs = close_item s.odcs }

unfoldable pub end_fetch_odps : MapsState → Answer (Option (List Odp)) → MapsState
end_fetch_odps s (ok l) = record s { odps = put_all (or_else l []) s.odps; loading = false }
end_fetch_odps s (threw t) = record s {
  error = some (to_api_error t).message;
  loading = false;
  odps = put_all [] s.odps;
}

unfoldable pub end_fetch_odp : MapsState → Answer Odp → MapsState
unfolding fail
end_fetch_odp s (ok a) = record s { odps = open_item a s.odps; loading = false }
end_fetch_odp s (threw t) = fail t s

unfoldable pub end_create_odp : MapsState → Answer Odp → MapsState
unfolding fail
end_create_odp s (ok a) = record s { odps = append a s.odps; loading = false }
end_create_odp s (threw t) = fail t s

unfoldable pub end_update_odp : MapsState → String → Answer Odp → MapsState
unfolding fail
end_update_odp s id (ok a) = record s { odps = replace id a s.odps; loading = false }
end_update_odp s id (threw t) = fail t s

unfoldable pub end_delete_odp : MapsState → String → Answer (Unit {0}) → MapsState
unfolding fail
end_delete_odp s id (ok u) = record s { odps = remove id s.odps; loading = false }
end_delete_odp s id (threw t) = fail t s

abbrev pub clear_odp : MapsState → MapsState
clear_odp s = record s { odps = close_item s.odps }

unfoldable pub end_fetch_client_locations :
    MapsState → Answer (Option (List ClientLocation)) → MapsState
end_fetch_client_locations s (ok l) = record s {
  client_locations = put_all (or_else l []) s.client_locations;
  loading = false;
}
end_fetch_client_locations s (threw t) = record s {
  error = some (to_api_error t).message;
  loading = false;
  client_locations = put_all [] s.client_locations;
}

unfoldable pub end_fetch_client_location : MapsState → Answer ClientLocation → MapsState
unfolding fail
end_fetch_client_location s (ok a) = record s {
  client_locations = open_item a s.client_locations;
  loading = false;
}
end_fetch_client_location s (threw t) = fail t s

unfoldable pub end_create_client_location : MapsState → Answer ClientLocation → MapsState
unfolding fail
end_create_client_location s (ok a) = record s {
  client_locations = append a s.client_locations;
  loading = false;
}
end_create_client_location s (threw t) = fail t s

unfoldable pub end_update_client_location : MapsState → String → Answer ClientLocation → MapsState
unfolding fail
end_update_client_location s id (ok a) = record s {
  client_locations = replace id a s.client_locations;
  loading = false;
}
end_update_client_location s id (threw t) = fail t s

unfoldable pub end_delete_client_location : MapsState → String → Answer (Unit {0}) → MapsState
unfolding fail
end_delete_client_location s id (ok u) = record s {
  client_locations = remove id s.client_locations;
  loading = false;
}
end_delete_client_location s id (threw t) = fail t s

abbrev pub clear_client_location : MapsState → MapsState
clear_client_location s = record s { client_locations = close_item s.client_locations }

-- Nothing but the error changes.
unfoldable pub end_find_nearest_odp : MapsState → Answer (List String) → MapsState
end_find_nearest_odp s (ok ids) = s
end_find_nearest_odp s (threw t) = record s { error = some (to_api_error t).message }

unfoldable pub end_fetch_outages : MapsState → Answer (Option (List OutageEvent)) → MapsState
end_fetch_outages s (ok l) = record s {
  outages = put_all (or_else l []) s.outages;
  loading = false;
}
end_fetch_outages s (threw t) = record s {
  error = some (to_api_error t).message;
  loading = false;
  outages = put_all [] s.outages;
}

unfoldable pub end_fetch_outage : MapsState → Answer OutageEvent → MapsState
unfolding fail
end_fetch_outage s (ok a) = record s { outages = open_item a s.outages; loading = false }
end_fetch_outage s (threw t) = fail t s

-- Before the nodes are fetched again.
unfoldable pub end_report_outage : MapsState → Answer OutageEvent → MapsState
unfolding fail
end_report_outage s (ok a) = record s { outages = prepend a s.outages; loading = false }
end_report_outage s (threw t) = fail t s

abbrev pub resolved : OutageEvent → OutageEvent
resolved o = record o { is_resolved = true }

unfoldable pub end_resolve_outage : MapsState → String → Answer (Unit {0}) → MapsState
unfolding fail
end_resolve_outage s id (ok u) = record s { outages = edit id resolved s.outages; loading = false }
end_resolve_outage s id (threw t) = fail t s

abbrev pub clear_outage : MapsState → MapsState
clear_outage s = record s { outages = close_item s.outages }
