-- ===== src/Network/Routers.antt =====
-- Operations of the network store on one router.
use rr_net.Prelude.{
  ◌≡◌, refl, true, not, List, [], ◌∷◌, filter, String, str_eq, arith, Bool-cases, inl, inr,
}
use rr_net.Types.{ok}
use rr_net.Network.{
  Router, NetworkState, end_update_router, end_delete_router, replace_router, has_id,
}

filter-replace_router :
    (id : String) (r : Router) (rs : List Router)
    → str_eq r.id id ≡ true
    → filter (λ q. not (str_eq q.id id)) (replace_router id r rs)
      ≡ filter (λ q. not (str_eq q.id id)) rs
filter-replace_router id r [] h = refl
filter-replace_router id r (q ∷ rs) h = elim (Bool-cases (str_eq q.id id)) [
  | inl same ↦ ground (arith, filter-replace_router id r rs h)
  | inr other ↦ ground (arith, filter-replace_router id r rs h)
]

-- Updating a router, with a router of the same id, before it is deleted makes no difference: the list,
-- the selection and the flags end up as if it had only been deleted.
pub end_delete_router-update :
    (s : NetworkState) (id : String) (r : Router)
    → str_eq r.id id ≡ true
    → end_delete_router (end_update_router s id (ok r)) id (ok tt) ≡ end_delete_router s id (ok tt)
unfolding end_delete_router end_update_router
end_delete_router-update s id r h = elim (Bool-cases (has_id id s.router)) [
  | inl selected ↦ ground (arith, filter-replace_router id r s.routers h)
  | inr free ↦ ground (arith, filter-replace_router id r s.routers h)
]
