-- ===== src/Access/Menu.antt =====
-- The menu against the pages it leads to.
use rr_net.Prelude.{
  ◌≡◌, refl, sym, ◌∙◌, Bool, true, false, not, ◌&&◌, ◌||◌, List, [], ◌∷◌, Option, none, some,
  String, any, all, filter, arith, Bool-cases, inl, inr,
}
use rr_net.Types.{Role, super_admin, owner, admin, hr, finance, technician, collector, client}
use rr_net.Roles.{Parse, Storage, same_role, get_effective_role, use_role, is_role_switched}
use rr_net.Access.{Features, has_access, admits, stays, has_any_enabled, is_enabled}
use rr_net.Access.Sidebar.{
  NavItem, nav_items, has_role_access, has_any_feature, is_visible, is_unimplemented,
  visible_nav_items,
}
use rr_net.Access.Pages.{page_guard, lets_in, opens}
use rr_net.Access.Laws.{has_role_access-strict, same_role-≡}

abbrev admits_at : Role → Option (List Role) → Bool
admits_at r none = true
admits_at r (some allowed) = admits allowed r

-- The item is hidden from the role, or its page admits the role.
abbrev fits : Role → NavItem → Bool
fits r i =
    is_unimplemented i.implemented
    || not (has_role_access i (some r) false none)
    || admits_at r (page_guard i.href)

all-fits : (r : Role) → same_role r super_admin ≡ false → all (fits r) nav_items ≡ true
unfolding has_role_access admits page_guard
all-fits super_admin h = ground arith
all-fits owner h = refl
all-fits admin h = refl
all-fits hr h = refl
all-fits finance h = refl
all-fits technician h = refl
all-fits collector h = refl
all-fits client h = refl

any-enabled :
    (f : Features) (codes : List String) → any f.on codes ≡ true → any (is_enabled f) codes ≡ true
any-enabled f [] h = h
any-enabled f (c ∷ codes) h = ground (arith, any-enabled f codes)

has_any_enabled-menu :
    (f : Features) (c : String) (codes : List String)
    → has_any_feature (some f) (c ∷ codes) ≡ true
    → has_any_enabled f (c ∷ codes) ≡ true
unfolding has_any_feature has_any_enabled
has_any_enabled-menu f c codes h = ground (arith, any-enabled f (c ∷ codes))

-- The layout leaves the user on the item's page, or the item is hidden.
abbrev stays_open : Option Features → NavItem → Bool
stays_open d i =
    is_unimplemented i.implemented
    || stays d i.href
    || not (has_any_feature d i.required_any_features)

none-stays : (items : List NavItem) → all (stays_open none) items ≡ true
unfolding stays
none-stays [] = refl
none-stays (i ∷ items) = ground (arith, none-stays items)

some-stays : (f : Features) → all (stays_open (some f)) nav_items ≡ true
unfolding stays
some-stays f = ground (
  arith,
  has_any_enabled-menu f "mikrotik_api_basic" ("mikrotik_api" ∷ []),
  has_any_enabled-menu f "odp_maps" ("client_maps" ∷ []),
  has_any_enabled-menu f "rbac_employee" ("rbac_full" ∷ "rbac_basic" ∷ []),
  has_any_enabled-menu f "service_packages" [],
)

all-stays : (d : Option Features) → all (stays_open d) nav_items ≡ true
all-stays none = none-stays nav_items
all-stays (some f) = some-stays f

has_role_access-effective :
    (i : NavItem) (role original : Option Role) (b : Bool)
    → has_role_access i role b original ≡ has_role_access i role false none
unfolding has_role_access
has_role_access-effective i role original true = has_role_access-strict i role original
has_role_access-effective i none original false = refl
has_role_access-effective i (some r) original false = refl

admits-has_access :
    (parse : Parse) (st : Storage) (allowed : List Role) (path : String) (role r : Role)
    → (get_effective_role parse st (some role)).0 ≡ some r
    → admits allowed r ≡ true
    → has_access parse st allowed path (some role) ≡ true
unfolding has_access
admits-has_access parse st allowed path role r e a = elim (Bool-cases (same_role r role)) [
  | inl s ↦ rw (e, s, sym (same_role-≡ r role s)) (ground arith)
  | inr s ↦ rw (e, s) (ground arith)
]

admits-lets_in :
    (parse : Parse) (st : Storage) (path : String) (role r : Role) (guard : Option (List Role))
    → (get_effective_role parse st (some role)).0 ≡ some r
    → admits_at r guard ≡ true
    → lets_in parse st path (some role) guard ≡ true
admits-lets_in parse st path role r none e a = refl
admits-lets_in parse st path role r (some allowed) e a =
    admits-has_access parse st allowed path role r e a

-- What a user sees depends on the role in effect alone.
is_visible-effective :
    (parse : Parse) (st : Storage) (dashboard : Option Features) (role r : Role) (i : NavItem)
    → (get_effective_role parse st (some role)).0 ≡ some r
    → is_visible parse st dashboard (some role) i ≡ (
        not (is_unimplemented i.implemented)
        && has_any_feature dashboard i.required_any_features
        && has_role_access i (some r) false none)
unfolding is_visible use_role
is_visible-effective parse st dashboard role r i e =
    rw (e, has_role_access-effective i (some r) (some role) (is_role_switched parse st (some role)))
      refl

item-opens :
    (parse : Parse) (st : Storage) (dashboard : Option Features) (role r : Role) (i : NavItem)
    → (get_effective_role parse st (some role)).0 ≡ some r
    → fits r i ≡ true
    → stays_open dashboard i ≡ true
    → is_visible parse st dashboard (some role) i ≡ true
    → opens parse st dashboard (some role) i.href ≡ true
unfolding opens
item-opens parse st dashboard role r i e f s v =
    let v' = sym (is_visible-effective parse st dashboard role r i e) ∙ v in
    ground (arith, admits-lets_in parse st i.href role r (page_guard i.href) e)

items-open :
    (parse : Parse) (st : Storage) (dashboard : Option Features) (role r : Role)
    (items : List NavItem)
    → (get_effective_role parse st (some role)).0 ≡ some r
    → all (fits r) items ≡ true
    → all (stays_open dashboard) items ≡ true
    → all
        (λ i. opens parse st dashboard (some role) i.href)
        (filter (is_visible parse st dashboard (some role)) items)
      ≡ true
items-open parse st dashboard role r [] e f s = refl
items-open parse st dashboard role r (i ∷ items) e f s =
    ground
      (arith, items-open parse st dashboard role r items, item-opens parse st dashboard role r i)

-- Every item of the menu that a user sees opens for that user: whatever the stored role context and
-- the tenant's features are, neither the layout's feature gate nor the page's role guard turns the
-- user away. The role in effect is not the super-admin's.
pub visible_nav_items-opens :
    (parse : Parse) (st : Storage) (dashboard : Option Features) (role r : Role)
    → (get_effective_role parse st (some role)).0 ≡ some r
    → same_role r super_admin ≡ false
    → all
        (λ i. opens parse st dashboard (some role) i.href)
        (visible_nav_items parse st dashboard (some role))
      ≡ true
unfolding visible_nav_items
visible_nav_items-opens parse st dashboard role r e h =
    items-open parse st dashboard role r nav_items e (all-fits r h) (all-stays dashboard)
