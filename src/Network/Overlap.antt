-- ===== src/Network/Overlap.antt =====
-- Actions of the network store that overlap.
use rr_net.Prelude.{
  ℕ, suc, ◌-◌, ◌==◌, ◌≤◌, ◌≡◌, ◌↔◌, refl, Bool, true, false, ◌||◌, List, [], ◌∷◌, Option, none,
  some, String, arith, all, if◌then◌else◌,
}
use rr_net.Types.{Answer}
use rr_net.Network.{
  Router, NetworkProfile, NetworkState, initial, begin, start_fetch_routers, end_fetch_routers,
  end_fetch_router, end_create_router, end_update_router, end_delete_router, start_fetch_profiles,
  end_fetch_profiles, end_fetch_profile, end_create_profile, end_update_profile, end_delete_profile,
  settle, clear_router, clear_profile, fail,
}

-- The store, and whether a fetch of each list has been sent and not answered.
pub record Flight : Type 0 where
  pub store : NetworkState
  pub routers_out : ℕ
  pub profiles_out : ℕ

pub data Event : Type 0 where
  asks_routers asks_profiles : Event
  gets_routers : Answer (Option (List Router)) → Event
  gets_profiles : Answer (Option (List NetworkProfile)) → Event
  begins : Event
  gets_router creates_router : Answer Router → Event
  updates_router : String → Answer Router → Event
  deletes_router : String → Answer (Unit {0}) → Event
  gets_profile creates_profile : Answer NetworkProfile → Event
  updates_profile : String → Answer NetworkProfile → Event
  deletes_profile : String → Answer (Unit {0}) → Event
  settles : Answer (Unit {0}) → Event
  clears_router clears_profile : Event

abbrev with_store : Flight → NetworkState → Flight
with_store f s = record f { store = s }

abbrev ask_routers : Flight → Option NetworkState → Flight
ask_routers f none = f
ask_routers f (some s) = record f { store = s; routers_out = suc f.routers_out }

abbrev ask_profiles : Flight → Option NetworkState → Flight
ask_profiles f none = f
ask_profiles f (some s) = record f { store = s; profiles_out = suc f.profiles_out }

-- An answer comes only to a fetch that was sent.
abbrev get_routers : Flight → Answer (Option (List Router)) → Flight
get_routers f a =
    if f.routers_out == 0
    then f
    else record f { store = end_fetch_routers f.store a; routers_out = f.routers_out - 1 }

abbrev get_profiles : Flight → Answer (Option (List NetworkProfile)) → Flight
get_profiles f a =
    if f.profiles_out == 0
    then f
    else record f { store = end_fetch_profiles f.store a; profiles_out = f.profiles_out - 1 }

unfoldable pub perform : Flight → Event → Flight
perform f asks_routers = ask_routers f (start_fetch_routers f.store)
perform f asks_profiles = ask_profiles f (start_fetch_profiles f.store)
perform f (gets_routers a) = get_routers f a
perform f (gets_profiles a) = get_profiles f a
perform f begins = with_store f (begin f.store)
perform f (gets_router a) = with_store f (end_fetch_router f.store a)
perform f (creates_router a) = with_store f (end_create_router f.store a)
perform f (updates_router id a) = with_store f (end_update_router f.store id a)
perform f (deletes_router id a) = with_store f (end_delete_router f.store id a)
perform f (gets_profile a) = with_store f (end_fetch_profile f.store a)
perform f (creates_profile a) = with_store f (end_create_profile f.store a)
perform f (updates_profile id a) = with_store f (end_update_profile f.store id a)
perform f (deletes_profile id a) = with_store f (end_delete_profile f.store id a)
perform f (settles a) = with_store f (settle f.store a)
perform f clears_router = with_store f (clear_router f.store)
perform f clears_profile = with_store f (clear_profile f.store)

unfoldable pub run : Flight → List Event → Flight
run f [] = f
run f (e ∷ es) = run (perform f e) es

abbrev pub grounded : Flight
grounded = record { store = initial; routers_out = 0; profiles_out = 0 }

-- Each list's flag counts the fetches of that list.
abbrev Counts : Flight → Type 0
Counts f =
    (f.routers_out ≡ (if f.store.routers_loading then 1 else 0))
    × (f.profiles_out ≡ (if f.store.profiles_loading then 1 else 0))

perform-Counts : (f : Flight) (e : Event) → Counts f → Counts (perform f e)
unfolding perform begin start_fetch_routers end_fetch_routers end_fetch_router end_create_router
    end_update_router end_delete_router start_fetch_profiles end_fetch_profiles end_fetch_profile
    end_create_profile end_update_profile end_delete_profile settle fail
perform-Counts f asks_routers h = ground arith
perform-Counts f asks_profiles h = ground arith
perform-Counts f (gets_routers a) h = ground arith
perform-Counts f (gets_profiles a) h = ground arith
perform-Counts f begins h = h
perform-Counts f (gets_router a) h = ground arith
perform-Counts f (creates_router a) h = ground arith
perform-Counts f (updates_router id a) h = ground arith
perform-Counts f (deletes_router id a) h = ground arith
perform-Counts f (gets_profile a) h = ground arith
perform-Counts f (creates_profile a) h = ground arith
perform-Counts f (updates_profile id a) h = ground arith
perform-Counts f (deletes_profile id a) h = ground arith
perform-Counts f (settles a) h = ground arith
perform-Counts f clears_router h = h
perform-Counts f clears_profile h = h

run-Counts : (f : Flight) (es : List Event) → Counts f → Counts (run f es)
unfolding run
run-Counts f [] h = h
run-Counts f (e ∷ es) h = run-Counts (perform f e) es (perform-Counts f e h)

-- However the actions overlap, at most one fetch of each list is on its way, and the flag of the list
-- says whether one is.
pub run-single :
    (es : List Event)
    → let f = run grounded es in
      (f.routers_out ≤ 1)
      × (f.profiles_out ≤ 1)
      × ((f.store.routers_loading ≡ true) ↔ (f.routers_out ≡ 1))
      × ((f.store.profiles_loading ≡ true) ↔ (f.profiles_out ≡ 1))
run-single es =
    let h : Counts (run grounded es) = run-Counts grounded es (unfold initial in (refl, refl)) in
    ground arith

-- The fetches of the two lists.
abbrev pub is_list : Event → Bool
is_list asks_routers = true
is_list asks_profiles = true
is_list (gets_routers a) = true
is_list (gets_profiles a) = true
is_list _ = false

abbrev is_loading : Flight → Bool
is_loading f = f.store.routers_loading || f.store.profiles_loading

perform-loading :
    (f : Flight) (e : Event)
    → is_list e ≡ true
    → f.store.loading ≡ is_loading f
    → (perform f e).store.loading ≡ is_loading (perform f e)
unfolding perform start_fetch_routers end_fetch_routers start_fetch_profiles end_fetch_profiles
perform-loading f asks_routers h l = ground arith
perform-loading f asks_profiles h l = ground arith
perform-loading f (gets_routers a) h l = ground arith
perform-loading f (gets_profiles a) h l = ground arith
perform-loading f _ h l = cc

run-loading_from :
    (f : Flight) (es : List Event)
    → all is_list es ≡ true
    → f.store.loading ≡ is_loading f
    → (run f es).store.loading ≡ is_loading (run f es)
unfolding run
run-loading_from f [] h l = l
run-loading_from f (e ∷ es) h l =
    run-loading_from (perform f e) es (ground arith) (perform-loading f e (ground arith) l)

-- As long as only the two lists are fetched, however the fetches overlap, the store is loading exactly
-- while one of them is on its way.
pub run-loading :
    (es : List Event)
    → all is_list es ≡ true
    → let s = (run grounded es).store in s.loading ≡ (s.routers_loading || s.profiles_loading)
run-loading es h = run-loading_from grounded es h (unfold initial in refl)
