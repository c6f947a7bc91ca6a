-- ===== src/Maps/Refinement.antt =====
-- The maps store against four finite maps.
use rr_net.Prelude.{◌≡◌, refl, sym, ap, subst, All, ◌∙◌, Bool-cases, inl, inr, List, [], ◌∷◌}
use rr_net.Types.{ok, threw}
use rr_net.Types.Field.{
  Odc, Odp, ClientLocation, OutageEvent, odc_keyed, odp_keyed, location_keyed, outage_keyed,
}
use rr_net.Keyed.{Shelf, changes, contents, effects, FitsAll}
use rr_net.Keyed.Laws.{changes-append, contents-changes}
use rr_net.Keyed.Distinct.{IsDistinct, Lists, changes-IsDistinct}
use rr_net.Maps.{
  MapsState, begin, fail, start_fetch, end_fetch_odcs, end_fetch_odc, end_create_odc,
  end_update_odc, end_delete_odc, end_fetch_odps, end_fetch_odp, end_create_odp, end_update_odp,
  end_delete_odp, end_fetch_client_locations, end_fetch_client_location, end_create_client_location,
  end_update_client_location, end_delete_client_location, end_find_nearest_odp, end_fetch_outages,
  end_fetch_outage, end_report_outage, end_resolve_outage,
}
use rr_net.Maps.Events.{
  Action, OutageAction, fetched, got, created, updated, deleted, cleared, reported, resolves, Event,
  begins, starts_fetch, on_odc, on_odp, on_client_location, on_outage, searches, perform,
  perform_odc, perform_odp, perform_client_location, perform_outage, run, changes_of,
  outage_changes_of, odc_change, odp_change, client_location_change, outage_change, odc_changes,
  odp_changes, client_location_changes, outage_changes,
}

abbrev Shelves : Type 0
Shelves = Shelf Odc × Shelf Odp × Shelf ClientLocation × Shelf OutageEvent

abbrev shelves : MapsState → Shelves
shelves s = (s.odcs, s.odps, s.client_locations, s.outages)

odc-shelves :
    (s : MapsState) (a : Action Odc)
    → shelves (perform_odc s a)
      ≡ (changes s.odcs (changes_of a), s.odps, s.client_locations, s.outages)
unfolding end_fetch_odcs end_fetch_odc end_create_odc end_update_odc end_delete_odc fail
odc-shelves s (fetched (ok l)) = refl
odc-shelves s (fetched (threw t)) = refl
odc-shelves s (got (ok o)) = refl
odc-shelves s (got (threw t)) = refl
odc-shelves s (created (ok o)) = refl
odc-shelves s (created (threw t)) = refl
odc-shelves s (updated id (ok o)) = refl
odc-shelves s (updated id (threw t)) = refl
odc-shelves s (deleted id (ok u)) = refl
odc-shelves s (deleted id (threw t)) = refl
odc-shelves s cleared = refl

odp-shelves :
    (s : MapsState) (a : Action Odp)
    → shelves (perform_odp s a)
      ≡ (s.odcs, changes s.odps (changes_of a), s.client_locations, s.outages)
unfolding end_fetch_odps end_fetch_odp end_create_odp end_update_odp end_delete_odp fail
odp-shelves s (fetched (ok l)) = refl
odp-shelves s (fetched (threw t)) = refl
odp-shelves s (got (ok o)) = refl
odp-shelves s (got (threw t)) = refl
odp-shelves s (created (ok o)) = refl
odp-shelves s (created (threw t)) = refl
odp-shelves s (updated id (ok o)) = refl
odp-shelves s (updated id (threw t)) = refl
odp-shelves s (deleted id (ok u)) = refl
odp-shelves s (deleted id (threw t)) = refl
odp-shelves s cleared = refl

client_location-shelves :
    (s : MapsState) (a : Action ClientLocation)
    → shelves (perform_client_location s a)
      ≡ (s.odcs, s.odps, changes s.client_locations (changes_of a), s.outages)
unfolding end_fetch_client_locations end_fetch_client_location end_create_client_location
    end_update_client_location end_delete_client_location fail
client_location-shelves s (fetched (ok l)) = refl
client_location-shelves s (fetched (threw t)) = refl
client_location-shelves s (got (ok o)) = refl
client_location-shelves s (got (threw t)) = refl
client_location-shelves s (created (ok o)) = refl
client_location-shelves s (created (threw t)) = refl
client_location-shelves s (updated id (ok o)) = refl
client_location-shelves s (updated id (threw t)) = refl
client_location-shelves s (deleted id (ok u)) = refl
client_location-shelves s (deleted id (threw t)) = refl
client_location-shelves s cleared = refl

outage-shelves :
    (s : MapsState) (a : OutageAction)
    → shelves (perform_outage s a)
      ≡ (s.odcs, s.odps, s.client_locations, changes s.outages (outage_changes_of a))
unfolding end_fetch_outages end_fetch_outage end_report_outage end_resolve_outage fail
outage-shelves s (fetched (ok l)) = refl
outage-shelves s (fetched (threw t)) = refl
outage-shelves s (got (ok o)) = refl
outage-shelves s (got (threw t)) = refl
outage-shelves s (reported (ok o)) = refl
outage-shelves s (reported (threw t)) = refl
outage-shelves s (resolves id (ok u)) = refl
outage-shelves s (resolves id (threw t)) = refl
outage-shelves s cleared = refl

-- The four collections do not interfere: each is what its own changes make of it.
abbrev changed : MapsState → List Event → Shelves
changed s es = (
  changes s.odcs (odc_changes es),
  changes s.odps (odp_changes es),
  changes s.client_locations (client_location_changes es),
  changes s.outages (outage_changes es),
)

perform-changed :
    (s : MapsState) (e : Event)
    → shelves (perform s e) ≡ (
      changes s.odcs (odc_change e),
      changes s.odps (odp_change e),
      changes s.client_locations (client_location_change e),
      changes s.outages (outage_change e),
    )
unfolding perform begin start_fetch end_find_nearest_odp
perform-changed s begins = refl
perform-changed s starts_fetch = elim (Bool-cases s.loading) [
  | inl b ↦ rw b refl
  | inr b ↦ rw b refl
]
perform-changed s (on_odc a) = odc-shelves s a
perform-changed s (on_odp a) = odp-shelves s a
perform-changed s (on_client_location a) = client_location-shelves s a
perform-changed s (on_outage a) = outage-shelves s a
perform-changed s (searches (ok ids)) = refl
perform-changed s (searches (threw t)) = refl

run-changed : (s : MapsState) (es : List Event) → shelves (run s es) ≡ changed s es
unfolding run
run-changed s [] = refl
run-changed s (e ∷ es) =
    run-changed (perform s e) es
    ∙ rw
        (
          changes-append s.odcs (odc_change e) (odc_changes es),
          changes-append s.odps (odp_change e) (odp_changes es),
          changes-append s.client_locations (client_location_change e) (client_location_changes es),
          changes-append s.outages (outage_change e) (outage_changes es),
        )
        (ap
          (λ p. (
            changes p.0 (odc_changes es),
            changes p.1 (odp_changes es),
            changes p.2 (client_location_changes es),
            changes p.3 (outage_changes es),
          ))
          (perform-changed s e))

-- Whatever reaches the store and in whatever order, each of the four collections behaves as a finite map
-- by id of its own: created items are added, updates and resolved outages replace, deletions remove,
-- answers to the others and failures leave it alone, and a failed fetch of its list empties it. An
-- id is not in the map when the answer comes that creates an item with it, and an update keeps the id.
pub run-refines :
    (s : MapsState) (es : List Event)
    → FitsAll (contents s.odcs) (odc_changes es)
    → FitsAll (contents s.odps) (odp_changes es)
    → FitsAll (contents s.client_locations) (client_location_changes es)
    → FitsAll (contents s.outages) (outage_changes es)
    → (contents (run s es).odcs ≡ effects (contents s.odcs) (odc_changes es))
      × (contents (run s es).odps ≡ effects (contents s.odps) (odp_changes es))
      × (contents (run s es).client_locations
          ≡ effects (contents s.client_locations) (client_location_changes es))
      × (contents (run s es).outages ≡ effects (contents s.outages) (outage_changes es))
run-refines s es h0 h1 h2 h3 =
    let e = run-changed s es in
    (
      ap (λ p. contents p.0) e ∙ contents-changes s.odcs (odc_changes es) h0,
      ap (λ p. contents p.1) e ∙ contents-changes s.odps (odp_changes es) h1,
      ap (λ p. contents p.2) e
          ∙ contents-changes s.client_locations (client_location_changes es) h2,
      ap (λ p. contents p.3) e ∙ contents-changes s.outages (outage_changes es) h3,
    )

-- No list of the store holds two items with one id after a sequence of answers in which fetched lists
-- have distinct ids, an update keeps the id, and the id of a created item is not in the list when the
-- answer comes (it is, when a fetch that saw the item is answered first).
pub run-IsDistinct :
    (s : MapsState) (es : List Event)
    → (FitsAll (contents s.odcs) (odc_changes es) × All Lists (odc_changes es))
    → (FitsAll (contents s.odps) (odp_changes es) × All Lists (odp_changes es))
    → (FitsAll (contents s.client_locations) (client_location_changes es)
        × All Lists (client_location_changes es))
    → (FitsAll (contents s.outages) (outage_changes es) × All Lists (outage_changes es))
    → IsDistinct s.odcs.items
    → IsDistinct s.odps.items
    → IsDistinct s.client_locations.items
    → IsDistinct s.outages.items
    → IsDistinct (run s es).odcs.items
      × IsDistinct (run s es).odps.items
      × IsDistinct (run s es).client_locations.items
      × IsDistinct (run s es).outages.items
run-IsDistinct s es (f0, l0) (f1, l1) (f2, l2) (f3, l3) d0 d1 d2 d3 =
    let e = sym (run-changed s es) in
    (
      subst (λ p. IsDistinct p.0.items) e (changes-IsDistinct s.odcs (odc_changes es) f0 l0 d0),
      subst (λ p. IsDistinct p.1.items) e (changes-IsDistinct s.odps (odp_changes es) f1 l1 d1),
      subst (λ p. IsDistinct p.2.items) e
          (changes-IsDistinct s.client_locations (client_location_changes es) f2 l2 d2),
      subst (λ p. IsDistinct p.3.items) e
          (changes-IsDistinct s.outages (outage_changes es) f3 l3 d3),
    )
