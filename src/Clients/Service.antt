-- ===== src/Clients/Service.antt =====
-- `getClients` of fe/src/lib/api/clientService.ts, between the backend and the client store. `show` is
-- the decimal notation of a number.
use native.Mathlib.Nat.{div-add-mod', mod-lt, suc-mul}
use rr_net.Prelude.{
  ℕ, suc, ◌+◌, ◌-◌, ◌*◌, ◌%◌, ◌≤◌, ◌<◌, ◌==◌, zero, ◌≡◌, leb, Bool, not, ◌&&◌, ◌||◌, List, [], ◌∷◌,
  ◌++◌, all, Option, none, some, String, truthy, codes, arith, if◌then◌else◌,
}
use rr_net.Types.{ok, or_else}
use rr_net.Clients.{ClientFilters, ClientListResponse, ClientState, ceil_div, end_fetch_clients}
use rr_net.Clients.Pagination.{shown_range}

-- The backend's answer, in which fields may be missing.
pub record RawClients (C : Type 0) : Type 0 where
  pub clients : Option (List C)
  pub total : Option ℕ
  pub page : Option ℕ
  pub page_size : Option ℕ

abbrev is_space : ℕ → Bool
is_space c = (leb 9 c && leb c 13) || c == 32 || c == 160

abbrev text_param : (name : String) → Option String → List (String × String)
text_param name none = []
text_param name (some v) = if truthy v then (name, v) ∷ [] else []

abbrev group_param : Option String → List (String × String)
group_param none = []
group_param (some v) = if truthy v && not (all is_space (codes v)) then ("group_id", v) ∷ [] else []

abbrev number_param : (show : ℕ → String) (name : String) → Option ℕ → List (String × String)
number_param show name none = []
number_param show name (some n) = if n == 0 then [] else (name, show n) ∷ []

-- The query of the request.
unfoldable pub params : (show : ℕ → String) → ClientFilters → List (String × String)
params show f =
    text_param "search" f.search
    ++ text_param "status" f.status
    ++ text_param "category" f.category
    ++ group_param f.group_id
    ++ number_param show "page" f.page
    ++ number_param show "page_size" f.page_size

quotient-total :
    (q r total size : ℕ)
    → q * size + r ≡ total + (size - 1)
    → r < size
    → 0 < total
    → (1 ≤ q) × ((q - 1) * size < total) × (total ≤ q * size)
quotient-total zero r total size e b t =
    (omega (arith, e, b, t), omega (arith, e, b, t), omega (arith, e, b, t))
quotient-total (suc q) r total size e b t =
    let d : suc q * size ≡ q * size + size = suc-mul q size in
    let p : suc q - 1 ≡ q = omega arith in
    (omega arith, rw p (omega (arith, e, b, d)), omega (arith, e, b, d))

ceil_div-total :
    (total size : ℕ)
    → 0 < total
    → 0 < size
    → (1 ≤ ceil_div total size)
      × ((ceil_div total size - 1) * size < total)
      × (total ≤ ceil_div total size * size)
ceil_div-total total size t s =
    quotient-total (ceil_div total size) ((total + (size - 1)) % size) total size
      (div-add-mod' (total + (size - 1)) size) (mod-lt (total + (size - 1)) s) t

module _ {C : Type 0} where
  unfoldable pub normalise : RawClients C → ClientListResponse C
  normalise raw =
      let total = or_else raw.total 0 in
      let page_size = or_else raw.page_size 20 in
      record {
        items = some (or_else raw.clients []);
        total = some total;
        page = some (or_else raw.page 1);
        page_size = some page_size;
        total_pages = some (if page_size == 0 then 0 else ceil_div total page_size);
      }

  -- The pages that the store counts hold all the clients that there are, and the last one is not empty:
  -- the number of the first client shown on it is at most the total, which is that of the last one.
  pub end_fetch_clients-normalise :
      (s : ClientState C) (f : Option ClientFilters) (raw : RawClients C) (total size : ℕ)
      → raw.total ≡ some total
      → raw.page_size ≡ some size
      → 0 < total
      → 0 < size
      → let s' = end_fetch_clients s f (ok (normalise raw)) in
        let (first, last) = shown_range s'.total_pages s'.page_size s'.total in
        (1 ≤ s'.total_pages) × (first ≤ total) × (last ≡ total)
  unfolding end_fetch_clients normalise shown_range
  end_fetch_clients-normalise s f raw total size t p ht hs =
      let c = ceil_div-total total size ht hs in
      rw (t, p) (ground (arith, c.0), ground (arith, c.0, c.1), ground (arith, c.0, c.2))
