-- ===== src/Types/Field.antt =====
-- The records of fe/src/lib/api/types.ts that the maps and the technician stores keep. An enumeration of
-- the backend is its text.
use rr_net.Prelude.{ℕ, Bool, List, Option, String}
use rr_net.Keyed.{Keyed}

-- A signed decimal fraction of which no store reads anything.
pub record Degrees : Type 0 where
  pub is_negative : Bool
  pub millionths : ℕ

pub record Odc : Type 0 where
  pub id : String
  pub tenant_id : String
  pub name : String
  pub latitude : Degrees
  pub longitude : Degrees
  pub capacity_info : Option String
  pub notes : Option String
  pub status : String
  pub created_at : String
  pub updated_at : String

pub record Odp : Type 0 where
  pub id : String
  pub tenant_id : String
  pub odc_id : String
  pub name : String
  pub latitude : Degrees
  pub longitude : Degrees
  pub port_count : ℕ
  pub used_ports : ℕ
  pub notes : Option String
  pub status : String
  pub created_at : String
  pub updated_at : String

pub record ClientLocation : Type 0 where
  pub id : String
  pub tenant_id : String
  pub client_id : String
  pub odp_id : String
  pub latitude : Degrees
  pub longitude : Degrees
  pub connection_type : String
  pub signal_info : Option String
  pub notes : Option String
  pub status : String
  pub created_at : String
  pub updated_at : String

pub record OutageEvent : Type 0 where
  pub id : String
  pub tenant_id : String
  pub node_type : String
  pub node_id : String
  pub reason : String
  pub reported_by : String
  pub reported_at : String
  pub resolved_at : Option String
  pub resolved_by : Option String
  pub is_resolved : Bool
  pub affected_nodes : Option (List String)
  pub created_at : String
  pub updated_at : String

pub data TaskStatus : Type 0 where
  pending pending_approval in_progress completed cancelled : TaskStatus

pub record TechnicianTask : Type 0 where
  pub id : String
  pub tenant_id : String
  pub technician_id : String
  pub assigned_by : String
  pub task_type : String
  pub priority : String
  pub title : String
  pub description : String
  pub location_type : Option String
  pub location_id : Option String
  pub address : Option String
  pub latitude : Option Degrees
  pub longitude : Option Degrees
  pub status : TaskStatus
  pub scheduled_at : Option String
  pub started_at : Option String
  pub completed_at : Option String
  pub estimated_hours : Option ℕ
  pub actual_hours : Option ℕ
  pub notes : Option String
  pub created_at : String
  pub updated_at : String
  pub approval_status : Option String
  pub approval_feedback : Option String
  pub approved_by : Option String
  pub approved_at : Option String

pub record ActivityLog : Type 0 where
  pub id : String
  pub tenant_id : String
  pub technician_id : String
  pub task_id : Option String
  pub activity_type : String
  pub description : String
  pub location_type : Option String
  pub location_id : Option String
  pub latitude : Option Degrees
  pub longitude : Option Degrees
  pub photo_urls : Option (List String)
  pub metadata : Option String
  pub created_at : String

pub record TaskSummary : Type 0 where
  pub total_tasks : ℕ
  pub pending_tasks : ℕ
  pub in_progress_tasks : ℕ
  pub completed_tasks : ℕ
  pub overdue_tasks : ℕ

instance abbrev pub odc_keyed : Keyed Odc
odc_keyed = record { id_of = λ x. x.id }

instance abbrev pub odp_keyed : Keyed Odp
odp_keyed = record { id_of = λ x. x.id }

instance abbrev pub location_keyed : Keyed ClientLocation
location_keyed = record { id_of = λ x. x.id }

instance abbrev pub outage_keyed : Keyed OutageEvent
outage_keyed = record { id_of = λ x. x.id }

instance abbrev pub task_keyed : Keyed TechnicianTask
task_keyed = record { id_of = λ x. x.id }
