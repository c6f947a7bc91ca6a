-- ===== src/Tests/Navigation.antt =====
-- The menu of fe/src/lib/navigation/routes.ts: billing with a child that is hidden.
use rr_net.Prelude.{◌≡◌, refl, true, false, List, [], ◌∷◌, none, some, String}
use rr_net.Navigation.{Routes, no_routes, add, route, absent, present, keep_routes, keep_children}
use rr_net.Navigation.Visible.{open_to}

abbrev menu : Routes
menu =
    add
      (route "/billing" "Billing" (some ("billing.view" ∷ [])) none false
        (present (add (route "/billing/new" "New" none none true absent) no_routes)))
      (add (route "/network" "Network" (some ("network.view" ∷ [])) none false absent) no_routes)

abbrev capabilities : List String
capabilities = "billing.view" ∷ []

-- Of the menu only billing is left, without its child.
left :
    keep_routes (open_to capabilities "admin") menu
    ≡ add
        (route "/billing" "Billing" (some ("billing.view" ∷ [])) none false (present no_routes))
        no_routes
unfolding keep_routes keep_children
left = refl
