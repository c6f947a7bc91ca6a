-- ===== src/Routing.antt =====
-- fe/src/lib/maps/osrmRouting.ts: the limiter of concurrent requests and the cache of routes. A call of
-- `limit` and a promise are numbers. The limiter's state also names the calls whose promise is
-- resolved and that have not gone on yet.
pub mod Concurrency
pub mod Sharing
pub mod Response
use rr_net.Prelude.{
  ℕ, suc, ◌-◌, Bool, true, false, not, ◌&&◌, List, [], ◌∷◌, ◌++◌, Option, none, some, String, ◌==◌,
  leb, if◌then◌else◌, update,
}

pub record Limiter : Type 0 where
  pub active : ℕ
  pub queue : List ℕ
  pub woken : List ℕ

abbrev pub idle : Limiter
idle = record { active = 0; queue = []; woken = [] }

-- The part of `limit` before its `await` of the queue, or of the task.
unfoldable pub limit : (concurrency : ℕ) → Limiter → ℕ → Limiter
limit concurrency s k =
    if leb concurrency s.active
    then record s { queue = s.queue ++ k ∷ [] }
    else record s { active = suc s.active }

-- What follows the `await` of the queue: there is no second test.
unfoldable pub resume : Limiter → Limiter
resume s = elim s.woken [ [] ↦ s | k ∷ rest ↦ record s { active = suc s.active; woken = rest } ]

abbrev wake_next : Limiter → Limiter
wake_next s = elim s.queue [
  | [] ↦ s
  | k ∷ rest ↦ record s { queue = rest; woken = s.woken ++ k ∷ [] }
]

-- The `finally` of a task that ran.
unfoldable pub finish : Limiter → Limiter
finish s = wake_next (record s { active = s.active - 1 })

-- What the event loop may do next; a task can end only while one runs.
pub data Event : Type 0 where
  calls : ℕ → Event
  resumes ends : Event

unfoldable pub perform : ℕ → Limiter → Event → Limiter
unfolding limit resume finish
perform concurrency s (calls k) = limit concurrency s k
perform concurrency s resumes = resume s
perform concurrency s ends = if s.active == 0 then s else finish s

unfoldable pub run : ℕ → Limiter → List Event → Limiter
unfolding perform
run concurrency s [] = s
run concurrency s (e ∷ es) = run concurrency (perform concurrency s e) es

-- The cache, and the number of the next promise.
pub record Cache : Type 0 where
  pub routes : String → Option ℕ
  pub next_promise : ℕ

-- Of a promise: its number and the key that it was made for.
pub record Pending : Type 0 where
  pub promise : ℕ
  pub key : String

abbrev made : Cache → String → ℕ × Cache
made c key = (
  c.next_promise,
  record { routes = update c.routes key (some c.next_promise); next_promise = suc c.next_promise },
)

-- `getOsrmRoute` up to its `await`: the promise of the key, cached or new.
unfoldable pub get_osrm_route : Cache → String → ℕ × Cache
get_osrm_route c key = elim (c.routes key) [ none ↦ made c key | some p ↦ (p, c) ]

-- How the call that made a promise ends: a failure leaves the cache.
unfoldable pub settle : Cache → Pending → (succeeded : Bool) → Cache
settle c p true = c
settle c p false = record c { routes = update c.routes p.key none }
