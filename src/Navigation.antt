-- ===== src/Navigation.antt =====
-- fe/src/lib/navigation/routes.ts: the routes of the menu and what a user sees of them. An absent list
-- is `none`; the icon, the component and the two fields that no function reads are left out.
pub mod Visible
use rr_net.Prelude.{
  Bool, true, false, not, ◌&&◌, List, [], ◌∷◌, Option, none, some, String, str_eq, any,
  if◌then◌else◌,
}

mutual
  pub data RouteConfig : Type 0 where
    route :
        (path name : String) (required_capabilities required_roles : Option (List String))
        (hidden : Bool) (children : Children)
        → RouteConfig

  -- `children?: RouteConfig[]`.
  pub data Children : Type 0 where
    absent : Children
    present : Routes → Children

  pub data Routes : Type 0 where
    no_routes : Routes
    add : RouteConfig → Routes → Routes

-- What the test of a route reads: the two requirements and whether it is hidden.
abbrev pub Shows : Type 0
Shows = Option (List String) → Option (List String) → Bool → Bool

unfoldable mutual
  pub keep_routes : Shows → Routes → Routes
  keep_routes shows no_routes = no_routes
  keep_routes shows (add (route path name caps roles hidden children) rest) =
      let rest' = keep_routes shows rest in
      if shows caps roles hidden
      then add (route path name caps roles hidden (keep_children shows children)) rest'
      else rest'

  pub keep_children : Shows → Children → Children
  keep_children shows absent = absent
  keep_children shows (present routes) = present (keep_routes shows routes)

abbrev pub text_in : List String → String → Bool
text_in l s = any (str_eq s) l

-- No requirement, or one that is met.
abbrev pub meets : (String → Bool) → Option (List String) → Bool
meets has none = true
meets has (some []) = true
meets has (some (c ∷ cs)) = any has (c ∷ cs)

abbrev pub by_capabilities : List String → Shows
by_capabilities user caps roles hidden = not hidden && meets (text_in user) caps

abbrev pub by_role : String → Shows
by_role role caps roles hidden = not hidden && meets (λ r. str_eq r role) roles

unfoldable pub filter_routes_by_capabilities : Routes → List String → Routes
filter_routes_by_capabilities routes user = keep_routes (by_capabilities user) routes

unfoldable pub filter_routes_by_roles : Routes → String → Routes
filter_routes_by_roles routes role = keep_routes (by_role role) routes
