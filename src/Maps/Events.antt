-- ===== src/Maps/Events.antt =====
-- Sequences of what happens to the maps store, and the changes of each collection in them.
use rr_net.Prelude.{List, [], ◌∷◌, ◌++◌, Option, String}
use rr_net.Types.{Answer, ok, threw, or_else}
use rr_net.Types.Field.{
  Odc, Odp, ClientLocation, OutageEvent, odc_keyed, odp_keyed, location_keyed, outage_keyed,
}
use rr_net.Keyed.{Change, lists, opens, closes, appends, prepends, replaces, removes, edits}
use rr_net.Maps.{
  MapsState, begin, start_fetch, end_fetch_odcs, end_fetch_odc, end_create_odc, end_update_odc,
  end_delete_odc, clear_odc, end_fetch_odps, end_fetch_odp, end_create_odp, end_update_odp,
  end_delete_odp, clear_odp, end_fetch_client_locations, end_fetch_client_location,
  end_create_client_location, end_update_client_location, end_delete_client_location,
  clear_client_location, end_find_nearest_odp, end_fetch_outages, end_fetch_outage,
  end_report_outage, resolved, end_resolve_outage, clear_outage,
}

-- What happens to a collection of nodes.
pub data Action (A : Type 0) : Type 0 where
  fetched : Answer (Option (List A)) → Action A
  got created : Answer A → Action A
  updated : String → Answer A → Action A
  deleted : String → Answer (Unit {0}) → Action A
  cleared : Action A

pub data OutageAction : Type 0 where
  fetched : Answer (Option (List OutageEvent)) → OutageAction
  got reported : Answer OutageEvent → OutageAction
  resolves : String → Answer (Unit {0}) → OutageAction
  cleared : OutageAction

pub data Event : Type 0 where
  begins starts_fetch : Event
  on_odc : Action Odc → Event
  on_odp : Action Odp → Event
  on_client_location : Action ClientLocation → Event
  on_outage : OutageAction → Event
  searches : Answer (List String) → Event

abbrev pub perform_odc : MapsState → Action Odc → MapsState
perform_odc s (fetched a) = end_fetch_odcs s a
perform_odc s (got a) = end_fetch_odc s a
perform_odc s (created a) = end_create_odc s a
perform_odc s (updated id a) = end_update_odc s id a
perform_odc s (deleted id a) = end_delete_odc s id a
perform_odc s cleared = clear_odc s

abbrev pub perform_odp : MapsState → Action Odp → MapsState
perform_odp s (fetched a) = end_fetch_odps s a
perform_odp s (got a) = end_fetch_odp s a
perform_odp s (created a) = end_create_odp s a
perform_odp s (updated id a) = end_update_odp s id a
perform_odp s (deleted id a) = end_delete_odp s id a
perform_odp s cleared = clear_odp s

abbrev pub perform_client_location : MapsState → Action ClientLocation → MapsState
perform_client_location s (fetched a) = end_fetch_client_locations s a
perform_client_location s (got a) = end_fetch_client_location s a
perform_client_location s (created a) = end_create_client_location s a
perform_client_location s (updated id a) = end_update_client_location s id a
perform_client_location s (deleted id a) = end_delete_client_location s id a
perform_client_location s cleared = clear_client_location s

abbrev pub perform_outage : MapsState → OutageAction → MapsState
perform_outage s (fetched a) = end_fetch_outages s a
perform_outage s (got a) = end_fetch_outage s a
perform_outage s (reported a) = end_report_outage s a
perform_outage s (resolves id a) = end_resolve_outage s id a
perform_outage s cleared = clear_outage s

unfoldable pub perform : MapsState → Event → MapsState
perform s begins = begin s
perform s starts_fetch = or_else (start_fetch s) s
perform s (on_odc a) = perform_odc s a
perform s (on_odp a) = perform_odp s a
perform s (on_client_location a) = perform_client_location s a
perform s (on_outage a) = perform_outage s a
perform s (searches a) = end_find_nearest_odp s a

unfoldable pub run : MapsState → List Event → MapsState
run s [] = s
run s (e ∷ es) = run (perform s e) es

-- What an action does to the finite map; a failure does nothing, but for the fetch of the list, which
-- leaves an empty one.
abbrev pub changes_of : {A : Type 0} → Action A → List (Change A)
changes_of (fetched (ok l)) = lists (or_else l []) ∷ []
changes_of (fetched (threw t)) = lists [] ∷ []
changes_of (got (ok a)) = opens a ∷ []
changes_of (created (ok a)) = appends a ∷ []
changes_of (updated id (ok a)) = replaces id a ∷ []
changes_of (deleted id (ok u)) = removes id ∷ []
changes_of cleared = closes ∷ []
changes_of _ = []

abbrev pub outage_changes_of : OutageAction → List (Change OutageEvent)
outage_changes_of (fetched (ok l)) = lists (or_else l []) ∷ []
outage_changes_of (fetched (threw t)) = lists [] ∷ []
outage_changes_of (got (ok a)) = opens a ∷ []
outage_changes_of (reported (ok a)) = prepends a ∷ []
outage_changes_of (resolves id (ok u)) = edits id resolved ∷ []
outage_changes_of cleared = closes ∷ []
outage_changes_of _ = []

abbrev pub odc_change : Event → List (Change Odc)
odc_change (on_odc a) = changes_of a
odc_change _ = []

abbrev pub odc_changes : List Event → List (Change Odc)
odc_changes [] = []
odc_changes (e ∷ es) = odc_change e ++ odc_changes es

abbrev pub odp_change : Event → List (Change Odp)
odp_change (on_odp a) = changes_of a
odp_change _ = []

abbrev pub odp_changes : List Event → List (Change Odp)
odp_changes [] = []
odp_changes (e ∷ es) = odp_change e ++ odp_changes es

abbrev pub client_location_change : Event → List (Change ClientLocation)
client_location_change (on_client_location a) = changes_of a
client_location_change _ = []

abbrev pub client_location_changes : List Event → List (Change ClientLocation)
client_location_changes [] = []
client_location_changes (e ∷ es) = client_location_change e ++ client_location_changes es

abbrev pub outage_change : Event → List (Change OutageEvent)
outage_change (on_outage a) = outage_changes_of a
outage_change _ = []

abbrev pub outage_changes : List Event → List (Change OutageEvent)
outage_changes [] = []
outage_changes (e ∷ es) = outage_change e ++ outage_changes es
