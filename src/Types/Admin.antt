-- ===== src/Types/Admin.antt =====
-- The records of fe/src/lib/api/types.ts that the super-admin store keeps. An enumeration of the backend
-- and JSON that no store reads are texts.
use rr_net.Prelude.{ℕ, Bool, List, Option, String}
use rr_net.Keyed.{Keyed}

pub record SuperAdminTenant : Type 0 where
  pub id : String
  pub name : String
  pub slug : String
  pub domain : Option String
  pub status : String
  pub plan_id : Option String
  pub billing_status : String
  pub trial_ends_at : Option String
  pub settings : String
  pub created_at : String
  pub updated_at : String
  pub deleted_at : Option String

pub record Plan : Type 0 where
  pub id : String
  pub code : String
  pub name : String
  pub description : Option String
  pub price_monthly : ℕ
  pub price_yearly : Option ℕ
  pub currency : String
  pub limits : List (String × ℕ)
  pub features : List String
  pub is_active : Bool
  pub is_public : Bool
  pub sort_order : ℕ
  pub created_at : String
  pub updated_at : String

pub record Addon : Type 0 where
  pub id : String
  pub code : String
  pub name : String
  pub description : Option String
  pub price : ℕ
  pub billing_cycle : String
  pub currency : String
  pub addon_type : String
  pub value : String
  pub is_active : Bool
  pub available_for_plans : List String
  pub created_at : String
  pub updated_at : String

instance abbrev pub tenant_keyed : Keyed SuperAdminTenant
tenant_keyed = record { id_of = λ x. x.id }

instance abbrev pub plan_keyed : Keyed Plan
plan_keyed = record { id_of = λ x. x.id }

instance abbrev pub addon_keyed : Keyed Addon
addon_keyed = record { id_of = λ x. x.id }
