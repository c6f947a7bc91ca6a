-- ===== src/Tests/Routing.antt =====
-- The limiter and the cache of fe/src/lib/maps/osrmRouting.ts.
use rr_net.Types.{ok}
use rr_net.Prelude.{some, ℕ, Text, codes, ◌+◌, ◌≤◌, ◌≡◌, refl, true, List, [], ◌∷◌, none, length}
use rr_net.Routing.{idle, Event, calls, resumes, ends, perform, run, limit, resume, finish, Cache}
use rr_net.Routing.Response.{
  OsrmResponse, ResponseRoute, Reads, answered, read_reply, coordinates_of, is_good,
  read_reply-Reads, route_url, get_base_url, strip_slash,
}
use rr_net.Routing.Concurrency.{run-queue, run-bound, is_prompt}

-- One task at a time: the second call waits.
abbrev waiting : List Event
waiting = calls 0 ∷ calls 1 ∷ []

waiting_queue : (run 1 idle waiting).queue ≡ 1 ∷ []
unfolding run perform limit
waiting_queue = refl

run-queue_example : 1 ≤ (run 1 idle waiting).active + length (run 1 idle waiting).woken
run-queue_example = run-queue 1 1 [] waiting waiting_queue

abbrev handing_over : List Event
handing_over = calls 0 ∷ calls 1 ∷ ends ∷ resumes ∷ []

handing_over_prompt : is_prompt 1 idle handing_over ≡ true
unfolding is_prompt perform limit resume finish
handing_over_prompt = refl

run-bound_example : (run 1 idle handing_over).active ≤ 1
run-bound_example = run-bound 1 handing_over handing_over_prompt

-- A call between the wake-up and the resumption runs beside the woken one.
overrun : (run 1 idle (calls 0 ∷ calls 1 ∷ ends ∷ calls 2 ∷ resumes ∷ [])).active ≡ 2
unfolding run perform limit resume finish
overrun = refl

abbrev no_routes : Cache
no_routes = record { routes = λ _. none; next_promise = 0 }

abbrev line : ResponseRoute ℕ
line = record {
  distance = 7;
  duration = 3;
  geometry = some (record { coordinates = some ((106, 6) ∷ (107, 5) ∷ []) });
}

abbrev body : OsrmResponse ℕ
body = record { code = "Ok"; routes = some (line ∷ []); message = none }

read_reply-Reads_example :
    Reads (is_good true body line) (coordinates_of line) (read_reply (answered true 200 (ok body)))
read_reply-Reads_example = read_reply-Reads true 200 body line [] refl

abbrev digit : ℕ → Text
digit n = codes "1"

address :
    route_url digit
      (get_base_url (codes "") (some (codes "http://o/")))
      (codes "foot")
      (6, 106)
      (5, 107)
    ≡ codes "http://o/route/v1/foot/1,1;1,1?overview=full&geometries=geojson&steps=false"
unfolding route_url get_base_url strip_slash
address = refl
