-- ===== src/Routing/Sharing.antt =====
-- Who shares a request through the cache of routes.
use rr_net.Prelude.{
  ℕ, ◌≡◌, refl, Bool, true, false, not, List, [], ◌∷◌, some, String, str_eq, eq_iff, arith, all,
  Option-cases, inl, inr,
}
use rr_net.Routing.{Cache, Pending, get_osrm_route, settle}

-- What other calls do to the cache.
pub data Use : Type 0 where
  asks : String → Use
  settles : Pending → (succeeded : Bool) → Use

unfoldable pub perform : Cache → Use → Cache
perform c (asks key) = (get_osrm_route c key).1
perform c (settles p succeeded) = settle c p succeeded

unfoldable pub run : Cache → List Use → Cache
run c [] = c
run c (u ∷ us) = run (perform c u) us

-- Whether the use is no failure of the key.
abbrev pub spares : String → Use → Bool
spares key (asks k) = true
spares key (settles p true) = true
spares key (settles p false) = not (str_eq p.key key)

perform-keeps :
    (c : Cache) (key : String) (n : ℕ) (u : Use)
    → spares key u ≡ true
    → c.routes key ≡ some n
    → (perform c u).routes key ≡ some n
unfolding perform get_osrm_route settle
perform-keeps c key n (asks k) h e = ground (arith, eq_iff k key)
perform-keeps c key n (settles p true) h e = e
perform-keeps c key n (settles p false) h e = ground (arith, eq_iff p.key key)

run-keeps :
    (c : Cache) (key : String) (n : ℕ) (us : List Use)
    → all (spares key) us ≡ true
    → c.routes key ≡ some n
    → (run c us).routes key ≡ some n
unfolding run
run-keeps c key n [] h e = e
run-keeps c key n (u ∷ us) h e =
    run-keeps (perform c u) key n us (ground arith) (perform-keeps c key n u (ground arith) e)

get_osrm_route-stored :
    (c : Cache) (key : String) → (get_osrm_route c key).1.routes key ≡ some (get_osrm_route c key).0
unfolding get_osrm_route
get_osrm_route-stored c key = elim (Option-cases (c.routes key)) [
  | inl absent ↦ ground (arith, eq_iff key key)
  | inr (n, here) ↦ rw (here, get_osrm_route) here
]

-- Whatever happens to the cache between two calls for one route, both share one request, unless the
-- request of that route fails.
pub get_osrm_route-run :
    (c : Cache) (key : String) (us : List Use)
    → all (spares key) us ≡ true
    → (get_osrm_route (run (get_osrm_route c key).1 us) key).0 ≡ (get_osrm_route c key).0
unfolding get_osrm_route
get_osrm_route-run c key us h =
    let kept : (run (get_osrm_route c key).1 us).routes key ≡ some (get_osrm_route c key).0 =
      run-keeps (get_osrm_route c key).1 key (get_osrm_route c key).0 us h
        (get_osrm_route-stored c key) in
    rw (kept, get_osrm_route) refl
