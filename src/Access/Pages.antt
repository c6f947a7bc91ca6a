-- ===== src/Access/Pages.antt =====
-- The roles that the pages under fe/src/app/(tenant)/ give to `RoleGuard`, by path.
use rr_net.Prelude.{
  Bool, true, ◌&&◌, List, [], ◌∷◌, Option, none, some, String, str_eq, if◌then◌else◌,
}
use rr_net.Types.{Role, owner, admin, hr, finance, technician, collector}
use rr_net.Roles.{Parse, Storage}
use rr_net.Access.{Features, has_access, stays}

abbrev billing_page : List Role
billing_page = owner ∷ admin ∷ finance ∷ collector ∷ []

abbrev settlement_page : List Role
settlement_page = owner ∷ admin ∷ finance ∷ collector ∷ []

abbrev network_page : List Role
network_page = owner ∷ admin ∷ technician ∷ []

abbrev maps_page : List Role
maps_page = owner ∷ admin ∷ technician ∷ []

abbrev hr_dashboard_page : List Role
hr_dashboard_page = owner ∷ admin ∷ hr ∷ []

abbrev hr_employees_page : List Role
hr_employees_page = owner ∷ admin ∷ hr ∷ []

abbrev hr_attendance_page : List Role
hr_attendance_page = owner ∷ admin ∷ hr ∷ []

abbrev hr_leave_requests_page : List Role
hr_leave_requests_page = owner ∷ admin ∷ hr ∷ []

abbrev hr_payroll_page : List Role
hr_payroll_page = owner ∷ admin ∷ hr ∷ []

abbrev hr_reports_page : List Role
hr_reports_page = owner ∷ admin ∷ hr ∷ []

abbrev finance_dashboard_page : List Role
finance_dashboard_page = owner ∷ admin ∷ finance ∷ []

abbrev finance_invoices_page : List Role
finance_invoices_page = owner ∷ admin ∷ finance ∷ []

abbrev finance_payments_page : List Role
finance_payments_page = owner ∷ admin ∷ finance ∷ []

abbrev finance_reports_page : List Role
finance_reports_page = owner ∷ admin ∷ finance ∷ []

abbrev finance_deposits_page : List Role
finance_deposits_page = owner ∷ admin ∷ finance ∷ []

abbrev employees_page : List Role
employees_page = owner ∷ admin ∷ hr ∷ []

abbrev technician_tasks_page : List Role
technician_tasks_page = owner ∷ admin ∷ technician ∷ []

abbrev collector_page : List Role
collector_page = technician ∷ []

abbrev settings_page : List Role
settings_page = owner ∷ []

-- The pages with a guard; the others of the menu have none.
abbrev guards : List (String × List Role)
guards =
    ("/billing", billing_page)
    ∷ ("/settlement", settlement_page)
    ∷ ("/network", network_page)
    ∷ ("/maps", maps_page)
    ∷ ("/hr/dashboard", hr_dashboard_page)
    ∷ ("/hr/employees", hr_employees_page)
    ∷ ("/hr/attendance", hr_attendance_page)
    ∷ ("/hr/leave-requests", hr_leave_requests_page)
    ∷ ("/hr/payroll", hr_payroll_page)
    ∷ ("/hr/reports", hr_reports_page)
    ∷ ("/finance/dashboard", finance_dashboard_page)
    ∷ ("/finance/invoices", finance_invoices_page)
    ∷ ("/finance/payments", finance_payments_page)
    ∷ ("/finance/reports", finance_reports_page)
    ∷ ("/finance/deposits", finance_deposits_page)
    ∷ ("/employees", employees_page)
    ∷ ("/technician/tasks", technician_tasks_page)
    ∷ ("/collector", collector_page)
    ∷ ("/settings", settings_page)
    ∷ []

abbrev guard_at : List (String × List Role) → String → Option (List Role)
guard_at [] path = none
guard_at ((p, roles) ∷ gs) path = if str_eq path p then some roles else guard_at gs path

unfoldable pub page_guard : String → Option (List Role)
page_guard path = guard_at guards path

abbrev pub lets_in : Parse → Storage → String → Option Role → Option (List Role) → Bool
lets_in parse st path user none = true
lets_in parse st path user (some allowed) = has_access parse st allowed path user

-- The page opens: the layout's gate leaves the user there, and so does the page's guard.
unfoldable pub opens : Parse → Storage → Option Features → Option Role → String → Bool
opens parse st dashboard user path =
    stays dashboard path && lets_in parse st path user (page_guard path)
