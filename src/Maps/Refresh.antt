-- ===== src/Maps/Refresh.antt =====
-- The fetches of fe/src/stores/mapsStore.ts that other actions and the maps page start: after an outage
-- is reported or resolved, and in the effect of fe/src/app/(tenant)/maps/page.tsx. No other action runs
-- in between.
use rr_net.Prelude.{
  ◌≡◌, refl, Bool, true, false, List, [], ◌∷◌, ◌++◌, Option, none, some, String, arith,
  if◌then◌else◌,
}
use rr_net.Errors.{to_api_error}
use rr_net.Types.{Answer, ok, threw, or_else}
use rr_net.Types.Field.{Odc, Odp, ClientLocation, OutageEvent, outage_keyed}
use rr_net.Keyed.{put_all}
use rr_net.Maps.{
  MapsState, begin, start_fetch, end_fetch_odcs, end_fetch_odps, end_fetch_client_locations,
  end_report_outage, end_resolve_outage,
}

-- What the backend answers to the three fetches.
pub record Nodes : Type 0 where
  pub odcs : Answer (Option (List Odc))
  pub odps : Answer (Option (List Odp))
  pub client_locations : Answer (Option (List ClientLocation))

-- A fetch as a whole: the guard, the request and what follows the answer.
abbrev fetch_with : (MapsState → MapsState) → MapsState → MapsState
fetch_with end s = elim (start_fetch s) [ none ↦ s | some s' ↦ end s' ]

unfoldable pub fetch_odcs : Answer (Option (List Odc)) → MapsState → MapsState
unfolding end_fetch_odcs start_fetch
fetch_odcs a = fetch_with (λ s. end_fetch_odcs s a)

unfoldable pub fetch_odps : Answer (Option (List Odp)) → MapsState → MapsState
unfolding end_fetch_odps start_fetch
fetch_odps a = fetch_with (λ s. end_fetch_odps s a)

unfoldable pub fetch_client_locations :
    Answer (Option (List ClientLocation)) → MapsState → MapsState
unfolding end_fetch_client_locations start_fetch
fetch_client_locations a = fetch_with (λ s. end_fetch_client_locations s a)

-- `if (!get().loading)`.
abbrev unless_loading : (MapsState → MapsState) → MapsState → MapsState
unless_loading f s = if s.loading then s else f s

unfoldable pub refresh_nodes : Nodes → MapsState → MapsState
unfolding fetch_odcs fetch_odps fetch_client_locations
refresh_nodes n s =
    unless_loading (fetch_client_locations n.client_locations)
      (unless_loading (fetch_odps n.odps) (unless_loading (fetch_odcs n.odcs) s))

abbrev then_refresh : {A : Type 0} → Answer A → Nodes → MapsState → MapsState
then_refresh (ok a) n s = refresh_nodes n s
then_refresh (threw t) n s = s

-- The store, and what the action returns or throws.
unfoldable pub report_outage :
    MapsState → Answer OutageEvent → Nodes → MapsState × Answer OutageEvent
unfolding begin end_report_outage refresh_nodes
report_outage s a n = (then_refresh a n (end_report_outage (begin s) a), a)

unfoldable pub resolve_outage :
    MapsState → String → Answer (Unit {0}) → Nodes → MapsState × Answer (Unit {0})
unfolding begin end_resolve_outage refresh_nodes
resolve_outage s id a n = (then_refresh a n (end_resolve_outage (begin s) id a), a)

-- The lists that the page asks the store for.
pub data Fetch : Type 0 where
  odcs odps client_locations : Fetch

-- The effect of the maps page: what it calls, by what the role may see.
abbrev pub page_fetches : (can_view_odc can_view_odp : Bool) → List Fetch
page_fetches odc odp =
    (if odc then odcs ∷ [] else []) ++ (if odp then odps ∷ [] else []) ++ client_locations ∷ []

-- The calls follow each other before any answer: the store, and the requests that are sent.
unfoldable pub start_all : MapsState → List Fetch → MapsState × List Fetch
unfolding start_fetch
start_all s [] = (s, [])
start_all s (f ∷ fs) = elim (start_fetch s) [
  | none ↦ start_all s fs
  | some s' ↦ (let (r, sent) = start_all s' fs in (r, f ∷ sent))
]

abbrev answered : {A : Type 0} → Answer (Option (List A)) → List A
answered (ok l) = or_else l []
answered (threw t) = []

abbrev message_from : {A : Type 0} → Answer A → Option String
message_from (ok a) = none
message_from (threw t) = some (to_api_error t).message

abbrev with_odcs : List Odc → Option String → MapsState → MapsState
with_odcs l e s = record s { odcs = put_all l s.odcs; loading = false; error = e }

fetch_odcs-answered :
    (a : Answer (Option (List Odc))) (s : MapsState)
    → s.loading ≡ false
    → fetch_odcs a s ≡ with_odcs (answered a) (message_from a) s
unfolding fetch_odcs
fetch_odcs-answered (ok l) s h = ground arith
fetch_odcs-answered (threw t) s h = ground arith

abbrev with_odps : List Odp → Option String → MapsState → MapsState
with_odps l e s = record s { odps = put_all l s.odps; loading = false; error = e }

fetch_odps-answered :
    (a : Answer (Option (List Odp))) (s : MapsState)
    → s.loading ≡ false
    → fetch_odps a s ≡ with_odps (answered a) (message_from a) s
unfolding fetch_odps
fetch_odps-answered (ok l) s h = ground arith
fetch_odps-answered (threw t) s h = ground arith

abbrev with_client_locations : List ClientLocation → Option String → MapsState → MapsState
with_client_locations l e s = record s {
  client_locations = put_all l s.client_locations;
  loading = false;
  error = e;
}

fetch_client_locations-answered :
    (a : Answer (Option (List ClientLocation))) (s : MapsState)
    → s.loading ≡ false
    → fetch_client_locations a s ≡ with_client_locations (answered a) (message_from a) s
unfolding fetch_client_locations
fetch_client_locations-answered (ok l) s h = ground arith
fetch_client_locations-answered (threw t) s h = ground arith

refresh_nodes-answered :
    (n : Nodes) (s : MapsState)
    → s.loading ≡ false
    → refresh_nodes n s
      ≡ with_client_locations (answered n.client_locations) (message_from n.client_locations) (
          with_odps
            (answered n.odps)
            (message_from n.odps)
            (with_odcs (answered n.odcs) (message_from n.odcs) s))
unfolding refresh_nodes
refresh_nodes-answered n s h =
    let s1 = with_odcs (answered n.odcs) (message_from n.odcs) s in
    let s2 = with_odps (answered n.odps) (message_from n.odps) s1 in
    ground (
      arith,
      fetch_odcs-answered n.odcs s h,
      fetch_odps-answered n.odps s1 refl,
      fetch_client_locations-answered n.client_locations s2 refl,
    )

-- After an outage is reported, whatever the three fetches answer, the store is not loading, each list
-- of nodes is what the backend answered to its fetch, or empty where that failed, and the outage is first.
pub report_outage_lem :
    (s : MapsState) (o : OutageEvent) (n : Nodes)
    → let s' = (report_outage s (ok o) n).0 in
      (s'.loading ≡ false)
      × (s'.odcs.items ≡ answered n.odcs)
      × (s'.odps.items ≡ answered n.odps)
      × (s'.client_locations.items ≡ answered n.client_locations)
      × (s'.outages.items ≡ o ∷ s.outages.items)
unfolding report_outage refresh_nodes
report_outage_lem s o n =
    rw (refresh_nodes-answered n (end_report_outage (begin s) (ok o)) refl)
      (refl, refl, refl, refl, refl)

start_all-loading : (s : MapsState) (fs : List Fetch) → s.loading ≡ true → start_all s fs ≡ (s, [])
unfolding start_all
start_all-loading s [] h = refl
start_all-loading s (f ∷ fs) h = ground (arith, start_all-loading s fs h)

start_all-first :
    (s : MapsState) (f : Fetch) (fs : List Fetch)
    → s.loading ≡ false
    → (start_all s (f ∷ fs)).1 ≡ f ∷ []
unfolding start_all
start_all-first s f fs h =
    ground (arith, start_all-loading (record s { loading = true; error = none }) fs)

-- Of the fetches that the page's effect starts one after another on an idle store, only the first is
-- sent, whatever the role may see: the others find the store loading and return.
pub start_all-page_fetches :
    (s : MapsState) (can_view_odc can_view_odp : Bool)
    → s.loading ≡ false
    → (start_all s (page_fetches can_view_odc can_view_odp)).1
      ≡ (if can_view_odc then odcs else if can_view_odp then odps else client_locations) ∷ []
unfolding start_all
start_all-page_fetches s true odp h = start_all-first s odcs (page_fetches false odp) h
start_all-page_fetches s false true h = start_all-first s odps (page_fetches false false) h
start_all-page_fetches s false false h = start_all-first s client_locations [] h
