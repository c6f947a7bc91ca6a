-- ===== src/Collector/Deposits/History.antt =====
-- The history by day loses no money and shows no day twice.
use rr_net.Prelude.{
  ℕ, ◌+◌, ◌*◌, ◌≡◌, refl, inl, inr, Bool, true, false, List, [], ◌∷◌, ◌++◌, map, Option, none, some,
  String, arith, filter, all, Option-cases,
}
use rr_net.Types.{Answer, ok, threw, Payment}
use rr_net.Collector.{CollectorState, DepositDay}
use rr_net.Collector.Deposits.{
  sum, amounts, is_of_day, Groups, add_to_group, group_by_day, day_of_group, insert_day, sort_days,
  fetch_deposit_history, submit_deposit, fetch_today_collection,
}

abbrev days_total : List DepositDay → ℕ
days_total ds = sum (map (λ d. d.amount) ds)

abbrev groups_total : Groups → ℕ
groups_total gs = sum (map (λ g. amounts g.1) gs)

amounts-append : (ps qs : List Payment) → amounts (ps ++ qs) ≡ amounts ps + amounts qs
amounts-append [] qs = omega arith
amounts-append (p ∷ ps) qs = omega (arith, amounts-append ps qs)

add_to_group-total :
    (d : String) (p : Payment) (gs : Groups)
    → groups_total (add_to_group d p gs) ≡ groups_total gs + p.amount
unfolding add_to_group
add_to_group-total d p [] = omega arith
add_to_group-total d p ((e, ps) ∷ gs) =
    ground (arith, add_to_group-total d p gs, amounts-append ps (p ∷ []))

group_by_day-total :
    (day : Payment → Option String) (ps : List Payment) (gs hs : Groups)
    → group_by_day day gs ps ≡ some hs
    → groups_total hs ≡ groups_total gs + amounts ps
unfolding group_by_day
group_by_day-total day [] gs hs e = ground arith
group_by_day-total day (p ∷ ps) gs hs e = elim (Option-cases (day p)) [
  | inl bad ↦ absurd (ground arith)
  | inr (d, good) ↦ omega (
    arith,
    group_by_day-total day ps (add_to_group d p gs) hs (ground arith),
    add_to_group-total d p gs,
  )
]

insert_day-total :
    (before : String → String → Bool) (d : DepositDay) (ds : List DepositDay)
    → days_total (insert_day before d ds) ≡ d.amount + days_total ds
unfolding insert_day
insert_day-total before d [] = refl
insert_day-total before d (e ∷ es) = ground (arith, insert_day-total before d es)

sort_days-total :
    (before : String → String → Bool) (ds : List DepositDay)
    → days_total (sort_days before ds) ≡ days_total ds
unfolding sort_days
sort_days-total before [] = refl
sort_days-total before (d ∷ ds) =
    omega (arith, sort_days-total before ds, insert_day-total before d (sort_days before ds))

map-day_of_group : (gs : Groups) → days_total (map day_of_group gs) ≡ groups_total gs
unfolding day_of_group
map-day_of_group [] = refl
map-day_of_group ((d, ps) ∷ gs) = omega (arith, map-day_of_group gs)

abbrev has_day : (Payment → Option String) → Payment → Bool
has_day day p = elim (day p) [ none ↦ false | some d ↦ true ]

group_by_day-valid :
    (day : Payment → Option String) (ps : List Payment) (gs : Groups)
    → all (has_day day) ps ≡ true
    → ¬ (group_by_day day gs ps ≡ none)
unfolding group_by_day
group_by_day-valid day [] gs h e = cc
group_by_day-valid day (p ∷ ps) gs h e = elim (Option-cases (day p)) [
  | inl bad ↦ ground arith
  | inr (d, good) ↦ group_by_day-valid day ps (add_to_group d p gs) (ground arith) (ground arith)
]

-- When every payment has a valid date, the amounts of the days of the history add up to the amounts
-- of the payments that the backend gives.
pub fetch_deposit_history-total :
    (day : Payment → Option String) (before : String → String → Bool) (s : CollectorState)
    (ps : List Payment)
    → all (has_day day) ps ≡ true
    → sum (map (λ d. d.amount) (fetch_deposit_history day before s (ok ps)).deposit_history)
      ≡ amounts ps
unfolding fetch_deposit_history
fetch_deposit_history-total day before s ps h = elim (Option-cases (group_by_day day [] ps)) [
  | inl bad ↦ absurd (group_by_day-valid day ps [] h bad)
  | inr (gs, good) ↦
      rw (good, fetch_deposit_history)
        (omega (
          arith,
          sort_days-total before (map day_of_group gs),
          map-day_of_group gs,
          group_by_day-total day ps [] gs good,
        ))
]

-- No day comes before one that stands behind it.
abbrev pub IsDescending : (String → String → Bool) → List DepositDay → Type 0
IsDescending before [] = Unit
IsDescending before (d ∷ []) = Unit
IsDescending before (d ∷ e ∷ es) = (before d.date e.date ≡ false) × IsDescending before (e ∷ es)

module _ (before : String → String → Bool)
    (asym : (a b : String) → before a b ≡ true → before b a ≡ false) where
  insert_day-IsDescending :
      (d : DepositDay) (ds : List DepositDay)
      → IsDescending before ds
      → IsDescending before (insert_day before d ds)
  unfolding insert_day
  insert_day-IsDescending d [] h = tt
  insert_day-IsDescending d (e ∷ []) h = ground (arith, asym d.date e.date)
  insert_day-IsDescending d (e ∷ f ∷ es) h =
      ground (arith, asym d.date e.date, insert_day-IsDescending d (f ∷ es) h.1)

  sort_days-IsDescending : (ds : List DepositDay) → IsDescending before (sort_days before ds)
  unfolding sort_days
  sort_days-IsDescending [] = tt
  sort_days-IsDescending (d ∷ ds) =
      insert_day-IsDescending d (sort_days before ds) (sort_days-IsDescending ds)

-- Whatever the backend answers, and valid or not the dates, the history has its latest day first.
pub fetch_deposit_history-IsDescending :
    (day : Payment → Option String) (before : String → String → Bool)
    → ((a b : String) → before a b ≡ true → before b a ≡ false)
    → (s : CollectorState) (a : Answer (List Payment))
    → IsDescending before (fetch_deposit_history day before s a).deposit_history
unfolding fetch_deposit_history
fetch_deposit_history-IsDescending day before asym s (threw t) = tt
fetch_deposit_history-IsDescending day before asym s (ok ps) =
    elim (Option-cases (group_by_day day [] ps)) [
      | inl bad ↦ rw (bad, fetch_deposit_history) tt
      | inr (gs, good) ↦
          rw (good, fetch_deposit_history)
            (sort_days-IsDescending before asym (map day_of_group gs))
    ]

-- Depositing what was collected today counts it a second time: the day's collection becomes the
-- sum of the day's payments plus the deposit.
pub submit_deposit-after_fetch :
    (today deposit_id now : String) (s : CollectorState) (client_ids payment_ids : List String)
    → let collected = fetch_today_collection today s in
      (submit_deposit deposit_id now collected collected.today_collection client_ids
        payment_ids).today_collection
      ≡ 2 * amounts (filter (is_of_day today) s.payments)
unfolding submit_deposit fetch_today_collection
submit_deposit-after_fetch today deposit_id now s client_ids payment_ids = omega arith
