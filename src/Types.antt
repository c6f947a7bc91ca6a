-- ===== src/Types.antt =====
-- The records of fe/src/lib/api/types.ts that the stores keep. Money and counts are natural numbers
-- (the currency is the rupiah, which has no fractions in use); an optional or nullable field is an
-- `Option`; a `File` is a number that names it.
pub mod Field
pub mod Admin
use rr_net.Prelude.{ℕ, List, Option, none, some, String}
use rr_net.Errors.{Thrown}

-- How an API call ends.
pub data Answer {ℓ} (A : Type ℓ) : Type ℓ where
  ok : A → Answer A
  threw : Thrown → Answer A

pub data Role : Type 0 where
  super_admin owner admin hr finance technician collector client : Role

pub Role-discrete : Discrete Role
Role-discrete = hlevel

pub record User : Type 0 where
  pub id : String
  pub tenant_id : Option String
  pub email : String
  pub name : String
  pub phone : Option String
  pub avatar_url : Option String
  pub role : Role
  pub capabilities : Option (List String)

pub record Tenant : Type 0 where
  pub id : String
  pub name : String
  pub slug : String
  pub status : String
  pub billing_status : Option String

pub record LoginRequest : Type 0 where
  pub email : String
  pub password : String

pub record LoginResponse : Type 0 where
  pub access_token : String
  pub refresh_token : String
  pub expires_in : ℕ
  pub user : User
  pub tenant : Option Tenant

pub data InvoiceStatus : Type 0 where
  draft pending paid overdue cancelled : InvoiceStatus

pub data PaymentMethod : Type 0 where
  cash bank_transfer e_wallet qris virtual_account by_collector : PaymentMethod

pub data CollectorWorkflowStatus : Type 0 where
  assigned visit_success visit_failed deposited confirmed : CollectorWorkflowStatus

pub record InvoiceItem : Type 0 where
  pub id : String
  pub invoice_id : String
  pub description : String
  pub quantity : ℕ
  pub unit_price : ℕ
  pub amount : ℕ
  pub created_at : String

pub record Invoice : Type 0 where
  pub id : String
  pub tenant_id : String
  pub client_id : String
  pub client_name : Option String
  pub client_phone : Option String
  pub client_address : Option String
  pub client_group_name : Option String
  pub invoice_number : String
  pub period_start : String
  pub period_end : String
  pub due_date : String
  pub subtotal : ℕ
  pub tax_amount : ℕ
  pub discount_amount : ℕ
  pub total_amount : ℕ
  pub paid_amount : ℕ
  pub currency : String
  pub status : InvoiceStatus
  pub notes : Option String
  pub items : Option (List InvoiceItem)
  pub created_at : String
  pub updated_at : String
  pub paid_at : Option String

pub record Payment : Type 0 where
  pub id : String
  pub tenant_id : String
  pub invoice_id : String
  pub client_id : String
  pub client_name : Option String
  pub amount : ℕ
  pub currency : String
  pub method : PaymentMethod
  pub reference : Option String
  pub collector_id : Option String
  pub notes : Option String
  pub received_at : String
  pub created_at : String
  pub created_by_user_id : String

pub record BillingSummary : Type 0 where
  pub total_invoices : ℕ
  pub pending_invoices : ℕ
  pub overdue_invoices : ℕ
  pub paid_invoices : ℕ
  pub total_revenue : ℕ
  pub pending_amount : ℕ
  pub overdue_amount : ℕ
  pub collected_this_month : ℕ

-- A backend may leave out or null what the interface declares, as the stores' `||` expect.
pub record InvoiceListResponse : Type 0 where
  pub items : Option (List Invoice)
  pub total : Option ℕ
  pub page : ℕ

pub record PaymentListResponse : Type 0 where
  pub items : Option (List Payment)
  pub total : Option ℕ
  pub page : ℕ

pub record RecordPaymentRequest : Type 0 where
  pub invoice_id : String
  pub amount : ℕ
  pub method : PaymentMethod
  pub reference : Option String
  pub collector_id : Option String
  pub notes : Option String
  pub received_at : Option String

pub record LocalState : Type 0 where
  pub visit_notes : Option String
  pub visit_photo_file : Option ℕ
  pub deposit_proof_file : Option ℕ

pub record CollectorAssignment : Type 0 where
  pub invoice_id : String
  pub invoice : Invoice
  pub workflow_status : CollectorWorkflowStatus
  pub assigned_at : Option String
  pub visit_notes : Option String
  pub visit_photo_url : Option String
  pub deposit_proof_url : Option String
  pub deposit_submitted_at : Option String
  pub confirmed_at : Option String
  pub local_state : Option LocalState

-- `x || d` and `x ?? d`, for a value that is no empty text or zero.
abbrev pub or_else {ℓ} : {A : Type ℓ} → Option A → A → A
or_else none d = d
or_else (some a) d = a

abbrev pub or_first {ℓ} : {A : Type ℓ} → Option A → Option A → Option A
or_first none d = d
or_first (some a) d = some a
