-- ===== src/Routing/Response.antt =====
-- The request of `getOsrmRoute` in fe/src/lib/maps/osrmRouting.ts: its address and the reading of what
-- comes back. `C` is the type of a coordinate and `show` its notation.
use rr_net.Prelude.{
  ℕ, suc, ◌≤◌, ◌==◌, ◌≡◌, refl, ap, ltb, Bool, true, false, not, ◌&&◌, List, [], ◌∷◌, ◌++◌, Option,
  none, some, String, Text, codes, str_eq, truthy, length, map, arith, Bool-cases, inl, inr,
  if◌then◌else◌,
}
use rr_net.Types.{Answer, ok, threw}
use rr_net.Errors.{Thrown}

-- `base.endsWith("/") ? base.slice(0, -1) : base`.
unfoldable pub strip_slash : Text → Text
strip_slash [] = []
strip_slash (c ∷ []) = if c == 47 then [] else c ∷ []
strip_slash (c ∷ d ∷ text) = c ∷ strip_slash (d ∷ text)

abbrev pub default_base_url : Text
default_base_url = codes "https://router.project-osrm.org"

abbrev or_default : Text → Text
or_default [] = default_base_url
or_default (c ∷ text) = c ∷ text

-- `env` is the variable without the white space around it.
unfoldable pub get_base_url : (env : Text) (explicit : Option Text) → Text
unfolding strip_slash
get_base_url env none = strip_slash (or_default env)
get_base_url env (some base) = strip_slash (or_default base)

pub record Geometry (C : Type 0) : Type 0 where
  pub coordinates : Option (List (C × C))

pub record ResponseRoute (C : Type 0) : Type 0 where
  pub distance : C
  pub duration : C
  pub geometry : Option (Geometry C)

pub record OsrmResponse (C : Type 0) : Type 0 where
  pub code : String
  pub routes : Option (List (ResponseRoute C))
  pub message : Option String

-- The fetch fails, or the server answers with a status and a body, whose reading may fail.
pub data Reply (C : Type 0) : Type 0 where
  failed : Thrown → Reply C
  answered : (is_ok : Bool) (status : ℕ) → Answer (OsrmResponse C) → Reply C

pub record OsrmRoute (C : Type 0) : Type 0 where
  pub geometry : List (C × C)
  pub distance_meters : C
  pub duration_seconds : C

-- What the task throws: an error of the fetch or of the body, or one of its own.
pub data RouteError : Type 0 where
  passed_on : Thrown → RouteError
  osrm_http : ℕ → RouteError
  osrm_message osrm_code : String → RouteError
  empty_geometry : RouteError

pub data Outcome (C : Type 0) : Type 0 where
  route : OsrmRoute C → Outcome C
  throws : RouteError → Outcome C

abbrev refusal : Option String → String → RouteError
refusal none code = osrm_code code
refusal (some m) code = if truthy m then osrm_message m else osrm_code code

module _ {C : Type 0} where
  -- `${baseUrl}/route/v1/${profile}/...`, with the longitude first.
  unfoldable pub route_url : (show : C → Text) (base profile : Text) (from to : C × C) → Text
  route_url show base profile (from_lat, from_lon) (to_lat, to_lon) =
      base
      ++ codes "/route/v1/"
      ++ profile
      ++ codes "/"
      ++ show from_lon
      ++ codes ","
      ++ show from_lat
      ++ codes ";"
      ++ show to_lon
      ++ codes ","
      ++ show to_lat
      ++ codes "?overview=full&geometries=geojson&steps=false"

  abbrev pub swap : C × C → C × C
  swap p = (p.1, p.0)

  -- `route.geometry?.coordinates ?? []`.
  abbrev pub coordinates_of : ResponseRoute C → List (C × C)
  coordinates_of r = elim r.geometry [
    | none ↦ []
    | some g ↦ elim g.coordinates [ none ↦ [] | some l ↦ l ]
  ]

  abbrev read_geometry : ResponseRoute C → Outcome C
  read_geometry r =
      if ltb (length (coordinates_of r)) 2
      then throws empty_geometry
      else route (record {
        geometry = map swap (coordinates_of r);
        distance_meters = r.distance;
        duration_seconds = r.duration;
      })

  -- The first route, when there is one.
  abbrev read_routes : OsrmResponse C → Option (List (ResponseRoute C)) → Outcome C
  read_routes b none = throws (refusal b.message b.code)
  read_routes b (some []) = throws (refusal b.message b.code)
  read_routes b (some (r ∷ rs)) = read_geometry r

  unfoldable pub read_body : OsrmResponse C → Outcome C
  read_body b =
      if str_eq b.code "Ok" then read_routes b b.routes else throws (refusal b.message b.code)

  unfoldable pub read_reply : Reply C → Outcome C
  unfolding read_body
  read_reply (failed t) = throws (passed_on t)
  read_reply (answered is_ok status body) =
      if is_ok
      then elim body [ ok b ↦ read_body b | threw t ↦ throws (passed_on t) ]
      else throws (osrm_http status)

  -- The outcome is a route just when the answer is good; the route has at least two points, and they are
  -- the coordinates with latitude and longitude exchanged.
  abbrev pub Reads : (good : Bool) → List (C × C) → Outcome C → Type 0
  Reads good coordinates (throws e) = good ≡ false
  Reads good coordinates (route r) =
      (good ≡ true) × (2 ≤ length r.geometry) × (map swap r.geometry ≡ coordinates)

  abbrev pub is_good : Bool → OsrmResponse C → ResponseRoute C → Bool
  is_good is_ok b r = is_ok && str_eq b.code "Ok" && not (ltb (length (coordinates_of r)) 2)

  map-swap : (l : List (C × C)) → map swap (map swap l) ≡ l
  map-swap [] = refl
  map-swap (p ∷ l) = ap (λ t. p ∷ t) (map-swap l)

  length-map : (l : List (C × C)) → length (map swap l) ≡ length l
  length-map [] = refl
  length-map (p ∷ l) = ap suc (length-map l)

  read_geometry-Reads :
      (r : ResponseRoute C)
      → Reads (not (ltb (length (coordinates_of r)) 2)) (coordinates_of r) (read_geometry r)
  read_geometry-Reads r =
      elim (Bool-cases (ltb (length (coordinates_of r)) 2))
        as (λ x.
          Reads (not (ltb (length (coordinates_of r)) 2)) (coordinates_of r) (read_geometry r)) [
            | inl y ↦ rw y refl
            | inr n ↦ rw n (
              refl,
              ground (arith, n, length-map (coordinates_of r)),
              map-swap (coordinates_of r),
            )
          ]

  -- When the body has a first route, the task gives a route just when the status is good, the code is Ok
  -- and that route has two points or more. What it gives then are these points, with latitude and
  -- longitude exchanged; otherwise it throws.
  pub read_reply-Reads :
      (is_ok : Bool) (status : ℕ) (b : OsrmResponse C) (r : ResponseRoute C)
      (rs : List (ResponseRoute C))
      → b.routes ≡ some (r ∷ rs)
      → Reads (is_good is_ok b r) (coordinates_of r) (read_reply (answered is_ok status (ok b)))
  unfolding read_reply read_body
  read_reply-Reads false status b r rs e = refl
  read_reply-Reads true status b r rs e =
      elim (Bool-cases (str_eq b.code "Ok"))
        as (λ x.
          Reads (is_good true b r) (coordinates_of r) (read_reply (answered true status (ok b)))) [
            | inl y ↦ rw (y, e) (read_geometry-Reads r)
            | inr n ↦ rw n refl
          ]
