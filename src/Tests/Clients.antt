-- ===== src/Tests/Clients.antt =====
-- The clients' store, page, form and prices.
use rr_net.Prelude.{◌≡◌, ◌≤◌, refl, true, false, ℕ, All, List, [], ◌∷◌, none, some, arith}
use rr_net.Types.{ok}
use rr_net.Clients.{ClientFilters, ClientState, initial_state, no_filters, end_fetch_clients}
use rr_net.Clients.Service.{RawClients, normalise, end_fetch_clients-normalise}
use rr_net.Clients.Page.{
  Page, Event, changes_filters, changes_page, answers, run, on_mount, IsActive, run-IsActive,
}
use rr_net.Clients.Pagination.{page_buttons, shown_range}
use rr_net.Clients.Pricing.{
  Client, ServicePackage, per_device, percent, calculate_total, calculate_total-Within,
  deposit_amount, pos, Within, base_of,
}
use rr_net.Clients.Form.{
  ClientFormData, TempoState, template, lite, on_form_submit, CreateClientRequest, fits_category,
  FitsTempo,
}
use rr_net.Clients.Form.Laws.{on_form_submit_lem}

abbrev page : Page ℕ
page = record { store = initial_state; waiting = []; sent = [] }

abbrev business : ClientFilters
business = record no_filters { category = some "business"; status = some "isolir" }

abbrev events : List (Event ℕ)
events =
    answers (
      ok (record {
        items = some (1 ∷ []);
        total = some 1;
        page = some 1;
        page_size = some 10;
        total_pages = none;
      }))
    ∷ changes_filters business
    ∷ changes_page 2
    ∷ []

run-IsActive_example :
    All IsActive (run true (on_mount true page) events).sent
    × IsActive (run true (on_mount true page) events).store.filters
run-IsActive_example = run-IsActive page events refl refl

buttons : page_buttons 7 9 ≡ some (5 ∷ 6 ∷ 7 ∷ 8 ∷ 9 ∷ [])
unfolding page_buttons
buttons = refl

-- Forty-one clients, by twenty on a page.
abbrev raw : RawClients ℕ
raw = record { clients = some (7 ∷ []); total = some 41; page = some 1; page_size = some 20 }

abbrev listed : ClientState ℕ
listed = end_fetch_clients initial_state none (ok (normalise raw))

end_fetch_clients-normalise_example :
    (1 ≤ listed.total_pages)
    × ((shown_range listed.total_pages listed.page_size listed.total).0 ≤ listed.total)
    × ((shown_range listed.total_pages listed.page_size listed.total).1 ≡ listed.total)
unfolding end_fetch_clients normalise
end_fetch_clients-normalise_example =
    end_fetch_clients-normalise initial_state none raw 41 20 refl refl (ground arith) (ground arith)

shown : shown_range listed.total_pages listed.page_size listed.total ≡ (41, 41)
unfolding end_fetch_clients normalise shown_range
shown = refl

abbrev packages : List ServicePackage
packages =
    (record { id = "p"; pricing_model = per_device; price_monthly = 0; price_per_device = 50 }) ∷ []

abbrev shop : Client
shop = record {
  id = "c";
  service_package_id = some "p";
  device_count = some 3;
  discount_type = some percent;
  discount_value = some 10;
}

calculate_total-Within_example : Within (base_of packages shop) (calculate_total packages shop)
calculate_total-Within_example = calculate_total-Within packages shop refl

deposit : deposit_amount packages (shop ∷ []) ("c" ∷ []) (("d", 20) ∷ []) ≡ pos 15500
unfolding deposit_amount
deposit = refl

abbrev filled : ClientFormData
filled = record {
  name = "Shop";
  email = "a@b.c";
  phone = "0812345678";
  address = "Street 1";
  category = lite;
  group_id = none;
  discount_id = some "";
  isolir_mode = none;
  connection_type = none;
  service_package_id = "p";
  router_id = none;
  pppoe_username = some "left";
  pppoe_password = none;
  pppoe_local_address = none;
  pppoe_remote_address = none;
  pppoe_comment = none;
  voucher_package_id = none;
  device_count = some 2;
}

abbrev tempo : TempoState
tempo = record {
  tempo_option = template;
  selected_template_id = "t";
  manual_day = 1;
  templates = (record { id = "t"; name = "Tenth"; due_day = 10 }) ∷ [];
}

abbrev request : CreateClientRequest
request = record {
  name = "Shop";
  email = "a@b.c";
  phone = "0812345678";
  address = "Street 1";
  category = lite;
  service_package_id = "p";
  group_id = none;
  isolir_mode = "auto";
  connection_type = "pppoe";
  device_count = some 2;
  pppoe_username = none;
  pppoe_password = none;
  router_id = none;
  pppoe_local_address = none;
  pppoe_remote_address = none;
  pppoe_comment = none;
  voucher_package_id = none;
  discount_id = none;
  payment_tempo_option = template;
  payment_due_day = 10;
  payment_tempo_template_id = some "t";
}

on_form_submit_lem_example : (fits_category false request ≡ true) × FitsTempo 5 tempo request
on_form_submit_lem_example =
    on_form_submit_lem false 5 tempo filled request (unfold on_form_submit in refl)
