-- ===== src/Collector/Clients/Laws.antt =====
-- Clients over any sequence of actions of the collector.
use rr_net.Prelude.{ℕ, ◌+◌, ◌≡◌, refl, Bool, false, ◌&&◌, List, [], ◌∷◌, map, String, arith, eq_iff}
use rr_net.Types.{Answer, ok, threw, Payment}
use rr_net.Collector.{CollectorState, initial}
use rr_net.Collector.Deposits.{sum}
use rr_net.Collector.Clients.{
  mark_client_paid_full, mark_client_not_home, remove_partial_payment, add_partial_payment,
  is_client_paid_full, is_client_not_home, get_client_partial_amount, get_client_payments,
}

pub data Action : Type 0 where
  pays_full not_home unpays : String → Action
  pays_part : String → ℕ → Answer Payment → Action

pub perform : CollectorState → Action → CollectorState
perform s (pays_full id) = mark_client_paid_full id s
perform s (not_home id) = mark_client_not_home id s
perform s (unpays id) = remove_partial_payment id s
perform s (pays_part id amount a) = (add_partial_payment s id amount a).0

unfoldable pub run : CollectorState → List Action → CollectorState
unfolding perform
run s [] = s
run s (a ∷ rest) = run (perform s a) rest

-- Of one client.
abbrev both : CollectorState → String → Bool
both s id = s.paid_full_clients id && s.not_home_clients id

perform-both :
    (s : CollectorState) (a : Action) (id : String)
    → both s id ≡ false
    → both (perform s a) id ≡ false
unfolding perform mark_client_paid_full mark_client_not_home remove_partial_payment
    add_partial_payment
perform-both s (pays_full k) id h = ground (arith, eq_iff k id)
perform-both s (not_home k) id h = ground (arith, eq_iff k id)
perform-both s (unpays k) id h = h
perform-both s (pays_part k amount (ok p)) id h = h
perform-both s (pays_part k amount (threw t)) id h = h

run-both :
    (rest : List Action) (s : CollectorState) (id : String)
    → both s id ≡ false
    → both (run s rest) id ≡ false
unfolding run
run-both [] s id h = h
run-both (a ∷ rest) s id h = run-both rest (perform s a) id (perform-both s a id h)

-- From the initial state on, no client is ever both paid in full and not at home.
pub run_exclusive :
    (today : ℕ) (actions : List Action) (id : String)
    → let s = run (initial today) actions in
      (is_client_paid_full s id && is_client_not_home s id) ≡ false
unfolding is_client_paid_full is_client_not_home
run_exclusive today actions id = run-both actions (initial today) id (unfold initial in refl)

-- Two partial payments of one client are both kept as payments, but the client's partial amount is
-- the second one alone.
pub add_partial_payment_twice :
    (s : CollectorState) (id : String) (m n : ℕ) (p q : Payment)
    → p.client_id ≡ id
    → q.client_id ≡ id
    → p.amount ≡ m
    → q.amount ≡ n
    → let s' = (add_partial_payment (add_partial_payment s id m (ok p)).0 id n (ok q)).0 in
      (get_client_partial_amount s' id ≡ n)
      × (sum (map (λ r. r.amount) (get_client_payments s' id))
          ≡ n + (m + sum (map (λ r. r.amount) (get_client_payments s id))))
unfolding add_partial_payment get_client_partial_amount get_client_payments
add_partial_payment_twice s id m n p q a b c d =
    (ground (arith, eq_iff id id), ground (arith, eq_iff p.client_id id, eq_iff q.client_id id))
