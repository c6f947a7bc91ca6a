-- ===== src/Collector.antt =====
-- fe/src/stores/collectorStore.ts: the state and its setters. The sets and the map of clients are
-- functions of the client id; a date is a number; the names of the current day and the local URL of
-- a file (`URL.createObjectURL`) are arguments.
pub mod Visits
pub mod Clients
pub mod Assignments
pub mod Deposits
use rr_net.Prelude.{ℕ, Bool, true, false, List, [], Option, none, some, String}
use rr_net.Types.{CollectorAssignment, CollectorWorkflowStatus, Payment}

pub record Deposit : Type 0 where
  pub id : String
  pub amount : ℕ
  pub client_count : ℕ
  pub deposited_at : String

pub record DepositDay : Type 0 where
  pub date : String
  pub amount : ℕ
  pub client_count : ℕ
  pub payments : List Payment

pub record PartialPaymentModal : Type 0 where
  pub is_open : Bool
  pub client_id : Option String

pub record CollectorState : Type 0 where
  pub assignments : List CollectorAssignment
  pub paid_full_clients : String → Bool
  pub not_home_clients : String → Bool
  pub partial_payments : String → Option ℕ
  pub today_collection : ℕ
  pub today_deposits : List Deposit
  pub loading : Bool
  pub error : Option String
  pub status_filter : Option CollectorWorkflowStatus
  pub client_name_filter : Option String
  pub selected_date : ℕ
  pub payments : List Payment
  pub deposit_history : List DepositDay
  pub selected_assignment : Option CollectorAssignment
  pub partial_payment_modal : PartialPaymentModal
  pub deposit_modal : Bool

unfoldable pub initial : ℕ → CollectorState
initial today = record {
  assignments = [];
  paid_full_clients = λ _. false;
  not_home_clients = λ _. false;
  partial_payments = λ _. none;
  today_collection = 0;
  today_deposits = [];
  loading = false;
  error = none;
  status_filter = none;
  client_name_filter = none;
  selected_date = today;
  payments = [];
  deposit_history = [];
  selected_assignment = none;
  partial_payment_modal = record { is_open = false; client_id = none };
  deposit_modal = false;
}

-- `set({ loading: true, error: null })`.
abbrev pub begin : CollectorState → CollectorState
begin s = record s { loading = true; error = none }

-- `set({ error, loading: false })`.
abbrev pub fail : String → CollectorState → CollectorState
fail message s = record s { error = some message; loading = false }

unfoldable pub set_status_filter : Option CollectorWorkflowStatus → CollectorState → CollectorState
set_status_filter status s = record s { status_filter = status }

unfoldable pub set_client_name_filter : Option String → CollectorState → CollectorState
set_client_name_filter name s = record s { client_name_filter = name }

unfoldable pub set_selected_date : ℕ → CollectorState → CollectorState
set_selected_date date s = record s { selected_date = date }

unfoldable pub set_selected_assignment :
    Option CollectorAssignment → CollectorState → CollectorState
set_selected_assignment a s = record s { selected_assignment = a }

unfoldable pub clear_error : CollectorState → CollectorState
clear_error s = record s { error = none }

unfoldable pub open_partial_payment_modal : String → CollectorState → CollectorState
open_partial_payment_modal id s = record s {
  partial_payment_modal = record { is_open = true; client_id = some id };
}

unfoldable pub close_partial_payment_modal : CollectorState → CollectorState
close_partial_payment_modal s = record s {
  partial_payment_modal = record { is_open = false; client_id = none };
}

unfoldable pub open_deposit_modal : CollectorState → CollectorState
open_deposit_modal s = record s { deposit_modal = true }

unfoldable pub close_deposit_modal : CollectorState → CollectorState
close_deposit_modal s = record s { deposit_modal = false }
