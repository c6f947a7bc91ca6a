-- ===== src/Tests/Widgets.antt =====
-- The wizard, the table, the tenant's slug and the tempo templates.
use rr_net.Prelude.{
  ◌≡◌, ◌∷◌, refl, true, false, ℕ, List, [], Option, none, some, String, str_eq, arith,
  if◌then◌else◌,
}
use rr_net.Types.{ok, threw}
use rr_net.Errors.{string}
use rr_net.Widgets.Wizard as Wizard
use rr_net.Widgets.Wizard.{Values, Event, next, previous, click, run-on_complete, run-completed}
use rr_net.Widgets.Table as Table
use rr_net.Widgets.Table.{asc, desc, handle_sort, visible_rows, handle_sort-is_sorted, is_sorted}
use rr_net.Tests.Sorting.{numbers, sort-Sorts, ltb-IsWeakOrder}
use rr_net.Tenants as Tenants
use rr_net.Shell as Shell
use rr_net.Dashboard as Dashboard
use rr_net.Tempo as Tempo
use rr_net.Tempo.{TempoTemplate, Updates, list-update, IsUpdate}

abbrev clicks : List (Event ℕ)
clicks = next (λ k. some 1) ∷ click 0 ∷ next (λ k. some 1) ∷ next (λ k. some 2) ∷ []

abbrev handed : Values ℕ
handed k = some 2

run-on_complete_example :
    (Wizard.run 2 true (Wizard.opened {V = ℕ}) clicks).completed_steps 0 ≡ true
unfolding Wizard.run Wizard.perform Wizard.handle_next Wizard.handle_step_click
run-on_complete_example =
    run-on_complete 2 true clicks handed [] 0 (ground arith) refl (ground arith)

handle_sort-is_sorted_example :
    (is_sorted numbers "n" asc
        (visible_rows numbers false (handle_sort Table.opened "n") (3 ∷ 1 ∷ 2 ∷ []))
      ≡ true)
    × (is_sorted numbers "n" desc (
          visible_rows numbers false
            (handle_sort (handle_sort Table.opened "n") "n")
            (3 ∷ 1 ∷ 2 ∷ []))
        ≡ true)
handle_sort-is_sorted_example =
    handle_sort-is_sorted numbers false Table.opened "n" (3 ∷ 1 ∷ 2 ∷ []) ltb-IsWeakOrder sort-Sorts
      refl refl

downwards :
    visible_rows numbers false (handle_sort (handle_sort Table.opened "n") "n") (3 ∷ 1 ∷ 2 ∷ [])
    ≡ 3 ∷ 2 ∷ 1 ∷ []
unfolding visible_rows handle_sort
downwards = refl

abbrev visits : List Tenants.Event
visits =
    Tenants.sets_slug (some "acme")
    ∷ Tenants.starts none
    ∷ Tenants.ends "acme" (threw (string "down"))
    ∷ []

abbrev tenth : TempoTemplate
tenth = record {
  id = "t";
  name = "Tenth";
  day = 10;
  description = none;
  created_at = none;
  updated_at = none;
}

abbrev moved : Updates
moved = record { name = none; day = some 12; description = none }

abbrev twelfth : TempoTemplate
twelfth = record tenth { day = 12; updated_at = some "now" }

abbrev parse : String → Option (List TempoTemplate)
parse text = if str_eq text "old" then some (tenth ∷ []) else some (twelfth ∷ [])

abbrev stringify : List TempoTemplate → String
stringify l = "new"

list-update_example :
    IsUpdate parse stringify "now" "t" moved
      (Tempo.list parse stringify (some "old"))
      "u"
      (Tempo.update parse stringify "now" (some "old") "t" moved)
list-update_example =
    list-update parse stringify "now" (some "old") "t" moved "u" (unfold Tempo.list in refl, refl)

-- The first fetch is answered; the second one is late, and its answer comes during the third.
abbrev fetched : List (Dashboard.Event ℕ)
fetched =
    Dashboard.fetches
    ∷ Dashboard.answers 1 (ok 1) "d1"
    ∷ Dashboard.fetches
    ∷ Dashboard.times_out 2
    ∷ Dashboard.fetches
    ∷ Dashboard.answers 2 (ok 2) "d2"
    ∷ []

cleared :
    (Shell.clear_error (Shell.set_error (Shell.set_error Shell.initial "a" "x") "b" "y") "a").errors
      "b"
    ≡ some "y"
unfolding Shell.initial Shell.set_error Shell.clear_error
cleared = refl

abbrev saved : Shell.NewToast
saved = record {
  id = none;
  title = "Saved";
  description = none;
  variant = some Shell.success;
  duration_ms = none;
}

hidden :
    Shell.hide_toast (Shell.show_toast "u2" (Shell.show_toast "u1" [] saved) saved) "u1"
    ≡ Shell.show_toast "u2" [] saved
unfolding Shell.hide_toast Shell.show_toast
hidden = refl
