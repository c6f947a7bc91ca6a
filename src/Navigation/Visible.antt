-- ===== src/Navigation/Visible.antt =====
-- What filtering leaves, at every depth.
use rr_net.Prelude.{
  ◌≡◌, refl, ap, Bool, true, not, ◌&&◌, List, [], ◌∷◌, Option, none, some, any, str_eq, String, inl,
  inr, Bool-cases, arith,
}
use rr_net.Navigation.{
  route, Children, absent, present, Routes, no_routes, add, Shows, keep_routes, keep_children,
  by_capabilities, filter_routes_by_capabilities,
}

unfoldable mutual
  pub all_shown : Shows → Routes → Bool
  all_shown shows no_routes = true
  all_shown shows (add (route path name caps roles hidden children) rest) =
      shows caps roles hidden && all_below shows children && all_shown shows rest

  pub all_below : Shows → Children → Bool
  all_below shows absent = true
  all_below shows (present routes) = all_shown shows routes

mutual
  unfolding keep_routes keep_children all_shown all_below

  keep_routes-shown : (shows : Shows) (rs : Routes) → all_shown shows (keep_routes shows rs) ≡ true
  keep_routes-shown shows no_routes = refl
  keep_routes-shown shows (add (route path name caps roles hidden children) rest) =
      elim (Bool-cases (shows caps roles hidden)) [
        | inl shown ↦
            ground (arith, keep_children-shown shows children, keep_routes-shown shows rest)
        | inr unseen ↦ ground (arith, keep_routes-shown shows rest)
      ]

  keep_children-shown :
      (shows : Shows) (c : Children) → all_below shows (keep_children shows c) ≡ true
  keep_children-shown shows absent = refl
  keep_children-shown shows (present rs) = keep_routes-shown shows rs

split : (a b c : Bool) → (a && b && c) ≡ true → (a ≡ true) × (b ≡ true) × (c ≡ true)
split a b c h = ground arith

mutual
  unfolding keep_routes keep_children all_shown all_below

  keep_routes-all : (f : Shows) (rs : Routes) → all_shown f rs ≡ true → keep_routes f rs ≡ rs
  keep_routes-all f no_routes h = refl
  keep_routes-all f (add (route path name caps roles hidden children) rest) h =
      let (shown, below, after) =
        split (f caps roles hidden) (all_below f children) (all_shown f rest) h in
      rw (shown, keep_routes)
        (rw (keep_children-all f children below) (rw (keep_routes-all f rest after) refl))

  keep_children-all : (f : Shows) (c : Children) → all_below f c ≡ true → keep_children f c ≡ c
  keep_children-all f absent h = refl
  keep_children-all f (present rs) h = ap present (keep_routes-all f rs h)

-- Everything left by the filter for capabilities, at any depth, is not hidden and requires nothing or
-- a capability of the user; and a menu of which that holds is left as it is.
pub filter_routes_by_capabilities_lem :
    (rs : Routes) (user : List String)
    → (all_shown (by_capabilities user) (filter_routes_by_capabilities rs user) ≡ true)
      × (filter_routes_by_capabilities (filter_routes_by_capabilities rs user) user
          ≡ filter_routes_by_capabilities rs user)
unfolding filter_routes_by_capabilities
filter_routes_by_capabilities_lem rs user =
    let shown = keep_routes-shown (by_capabilities user) rs in
    (shown, keep_routes-all (by_capabilities user) (keep_routes (by_capabilities user) rs) shown)

-- A requirement that is missing or empty, or has one of the user's.
abbrev pub allowed : Option (List String) → List String → Bool
allowed none held = true
allowed (some []) held = true
allowed (some (r ∷ rs)) held = any (λ x. any (str_eq x) held) (r ∷ rs)

-- The user, with these capabilities in this role, may see the route.
abbrev pub open_to : (user : List String) (role : String) → Shows
open_to user role caps roles hidden = not hidden && allowed caps user && allowed roles (role ∷ [])

module _ (f g h : Shows)
    (both : (caps roles : Option (List String)) (hidden : Bool)
      → h caps roles hidden ≡ (f caps roles hidden && g caps roles hidden)) where
  mutual
    unfolding keep_routes keep_children

    keep_routes-both : (rs : Routes) → keep_routes f (keep_routes g rs) ≡ keep_routes h rs
    keep_routes-both no_routes = refl
    keep_routes-both (add (route path name caps roles hidden children) rest) =
        ground (arith, both caps roles hidden, keep_children-both children, keep_routes-both rest)

    keep_children-both : (c : Children) → keep_children f (keep_children g c) ≡ keep_children h c
    keep_children-both absent = refl
    keep_children-both (present rs) = ap present (keep_routes-both rs)

-- Not hidden, and no capability is required or one of the user's is.
abbrev pub enabled_for : (user : List String) → Shows
enabled_for user caps roles hidden = not hidden && allowed caps user

-- Not hidden, and no role is required or the user's is.
abbrev pub meant_for : (role : String) → Shows
meant_for role caps roles hidden = not hidden && allowed roles (role ∷ [])
