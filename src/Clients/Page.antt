-- ===== src/Clients/Page.antt =====
-- What fe/src/app/(tenant)/clients/page.tsx does with the client store.
use rr_net.Prelude.{
  ℕ, ◌≡◌, refl, sym, subst, Bool, true, List, [], ◌∷◌, ◌++◌, Option, none, some, All, Bool-cases,
  inl, inr, if◌then◌else◌,
}
use rr_net.Types.{Answer, ok, threw}
use rr_net.Clients.{
  ClientFilters, ClientListResponse, ClientState, no_filters, start_fetch_clients,
  end_fetch_clients, start_fetch_client, end_fetch_client, set_filters, set_page,
  clear_selected_client,
}

-- The store, the fetches that wait for their answer with the filters they were called with, and the
-- requests sent so far, the last one first.
pub record Page (C : Type 0) : Type 0 where
  pub store : ClientState C
  pub waiting : List (Option ClientFilters)
  pub sent : List ClientFilters

pub data Event (C : Type 0) : Type 0 where
  mounts refetches : Event C
  changes_filters : ClientFilters → Event C
  changes_page : ℕ → Event C
  answers : Answer (ClientListResponse C) → Event C
  opens clears : Event C
  gets : Answer C → Event C

abbrev active_filters : ClientFilters
active_filters = record no_filters { status = some "active"; page = some 1; page_size = some 10 }

abbrev default_filters : ClientFilters
default_filters = record no_filters { page = some 1; page_size = some 10 }

abbrev filters_to_use : (is_technician : Bool) → ClientFilters → ClientFilters
filters_to_use is_technician f =
    if is_technician
    then record f { status = some "active"; page = some 1 }
    else record f { page = some 1 }

abbrev pub IsActive : ClientFilters → Type 0
IsActive f = f.status ≡ some "active"

abbrev CallsActive : Option ClientFilters → Type 0
CallsActive none = Unit
CallsActive (some f) = IsActive f

All-snoc :
    (fs : List (Option ClientFilters)) (f : Option ClientFilters)
    → All CallsActive fs
    → CallsActive f
    → All CallsActive (fs ++ f ∷ [])
All-snoc [] f h g = (g, tt)
All-snoc (x ∷ fs) f (h, hs) g = (h, All-snoc fs f hs g)

module _ {C : Type 0} where
  abbrev send : Page C → Option ClientFilters → Option (ClientState C × ClientFilters) → Page C
  send p f none = p
  send p f (some (s, request)) = record {
    store = s;
    waiting = p.waiting ++ f ∷ [];
    sent = request ∷ p.sent;
  }

  abbrev fetch_clients : Page C → Option ClientFilters → Page C
  fetch_clients p f = send p f (start_fetch_clients p.store f)

  abbrev with_store : Page C → ClientState C → Page C
  with_store p s = record p { store = s }

  -- The effect on mounting, or when the role changes.
  unfoldable pub on_mount : (is_technician : Bool) → Page C → Page C
  on_mount is_technician p =
      if is_technician
      then fetch_clients (with_store p (set_filters p.store active_filters)) (some active_filters)
      else fetch_clients p (some default_filters)

  unfoldable pub handle_filter_change : (is_technician : Bool) → Page C → ClientFilters → Page C
  handle_filter_change is_technician p f =
      let g = filters_to_use is_technician f in
      fetch_clients (with_store p (set_filters p.store g)) (some g)

  unfoldable pub handle_page_change : Page C → ℕ → Page C
  handle_page_change p n =
      fetch_clients (with_store p (set_page p.store n))
        (some (record p.store.filters { page = some n }))

  -- The first fetch that waits gets its answer.
  abbrev answer_with : Page C → List (Option ClientFilters) → Answer (ClientListResponse C) → Page C
  answer_with p [] a = p
  answer_with p (f ∷ fs) a = record p { store = end_fetch_clients p.store f a; waiting = fs }

  unfoldable pub perform : (is_technician : Bool) → Page C → Event C → Page C
  perform tech p mounts = on_mount tech p
  perform tech p refetches = fetch_clients p none
  perform tech p (changes_filters f) = handle_filter_change tech p f
  perform tech p (changes_page n) = handle_page_change p n
  perform tech p (answers a) = answer_with p p.waiting a
  perform tech p opens = with_store p (start_fetch_client p.store)
  perform tech p (gets a) = with_store p (end_fetch_client p.store a)
  perform tech p clears = with_store p (clear_selected_client p.store)

  unfoldable pub run : (is_technician : Bool) → Page C → List (Event C) → Page C
  run tech p [] = p
  run tech p (e ∷ es) = run tech (perform tech p e) es

  -- The filters in the store, in the calls that wait, and in the requests.
  abbrev IsRestricted : Page C → Type 0
  IsRestricted p = IsActive p.store.filters × All CallsActive p.waiting × All IsActive p.sent

  fetch_clients-IsRestricted :
      (p : Page C) (f : Option ClientFilters)
      → CallsActive f
      → IsRestricted p
      → IsRestricted (fetch_clients p f)
  unfolding start_fetch_clients
  fetch_clients-IsRestricted p none g (h, w, r) =
      elim (Bool-cases p.store.loading) as (λ x. IsRestricted (fetch_clients p none)) [
        | inl b ↦ rw b (h, w, r)
        | inr b ↦ rw b (h, All-snoc p.waiting none w tt, (h, r))
      ]
  fetch_clients-IsRestricted p (some f) g (h, w, r) =
      elim (Bool-cases p.store.loading) as (λ x. IsRestricted (fetch_clients p (some f))) [
        | inl b ↦ rw b (h, w, r)
        | inr b ↦ rw b (h, All-snoc p.waiting (some f) w g, (g, r))
      ]

  end_fetch_clients-IsActive :
      (s : ClientState C) (f : Option ClientFilters) (a : Answer (ClientListResponse C))
      → CallsActive f
      → IsActive s.filters
      → IsActive (end_fetch_clients s f a).filters
  unfolding end_fetch_clients
  end_fetch_clients-IsActive s none (ok a) g h = h
  end_fetch_clients-IsActive s (some f) (ok a) g h = g
  end_fetch_clients-IsActive s f (threw t) g h = h

  answer_with-IsRestricted :
      (p : Page C) (fs : List (Option ClientFilters)) (a : Answer (ClientListResponse C))
      → All CallsActive fs
      → IsRestricted p
      → IsRestricted (answer_with p fs a)
  answer_with-IsRestricted p [] a w h = h
  answer_with-IsRestricted p (f ∷ fs) a (g, w) (h, w', r) =
      (end_fetch_clients-IsActive p.store f a g h, w, r)

  perform-IsRestricted :
      (p : Page C) (e : Event C) → IsRestricted p → IsRestricted (perform true p e)
  unfolding perform on_mount handle_filter_change handle_page_change set_filters set_page
      start_fetch_client end_fetch_client
  perform-IsRestricted p mounts (h, w, r) =
      fetch_clients-IsRestricted (with_store p (set_filters p.store active_filters))
        (some active_filters) refl (refl, w, r)
  perform-IsRestricted p refetches h = fetch_clients-IsRestricted p none tt h
  perform-IsRestricted p (changes_filters f) (h, w, r) =
      let g = filters_to_use true f in
      fetch_clients-IsRestricted (with_store p (set_filters p.store g)) (some g) refl (refl, w, r)
  perform-IsRestricted p (changes_page n) (h, w, r) =
      fetch_clients-IsRestricted (with_store p (set_page p.store n))
        (some (record p.store.filters { page = some n })) h (h, w, r)
  perform-IsRestricted p (answers a) (h, w, r) = answer_with-IsRestricted p p.waiting a w (h, w, r)
  perform-IsRestricted p opens h = h
  perform-IsRestricted p (gets (ok c)) h = h
  perform-IsRestricted p (gets (threw t)) h = h
  perform-IsRestricted p clears h = h

  perform-mount :
      (p : Page C)
      → All CallsActive p.waiting
      → All IsActive p.sent
      → IsRestricted (on_mount true p)
  unfolding on_mount set_filters
  perform-mount p w r =
      fetch_clients-IsRestricted (with_store p (set_filters p.store active_filters))
        (some active_filters) refl (refl, w, r)

  run-IsRestricted :
      (p : Page C) (es : List (Event C)) → IsRestricted p → IsRestricted (run true p es)
  unfolding run
  run-IsRestricted p [] h = h
  run-IsRestricted p (e ∷ es) h =
      run-IsRestricted (perform true p e) es (perform-IsRestricted p e h)

  -- From the time the page opens for a technician, whatever filters and pages they choose and however the
  -- answers come, every request for clients is for active ones, and so are the filters that are kept.
  -- When the page opens no other fetch of clients is on its way.
  pub run-IsActive :
      (p : Page C) (es : List (Event C))
      → p.waiting ≡ []
      → p.sent ≡ []
      → let p' = run true (on_mount true p) es in All IsActive p'.sent × IsActive p'.store.filters
  unfolding on_mount set_filters
  run-IsActive p es w r =
      let h =
        run-IsRestricted (on_mount true p) es (
          perform-mount p (subst (All CallsActive) (sym w) tt) (subst (All IsActive) (sym r) tt)) in
      (h.2, h.0)
