-- ===== src/Clients/Form.antt =====
-- `onFormSubmit` of fe/src/components/clients/ClientForm.tsx, on data that the form's schema has accepted.
pub mod Laws
use rr_net.Prelude.{
  ℕ, ◌≤◌, ◌≡◌, ◌==◌, ◌⊎◌, inl, inr, refl, Bool, true, false, not, ◌&&◌, List, [], ◌∷◌, Option, none,
  some, String, str_eq, truthy, find?, any, arith, if◌then◌else◌, Bool-cases, Option-cases,
}
use rr_net.Types.{or_else}

pub data ClientCategory : Type 0 where
  regular business enterprise lite : ClientCategory

-- A field that is missing is `none`; both it and the empty text are falsy.
pub record ClientFormData : Type 0 where
  pub name : String
  pub email : String
  pub phone : String
  pub address : String
  pub category : ClientCategory
  pub group_id : Option String
  pub discount_id : Option String
  pub isolir_mode : Option String
  pub connection_type : Option String
  pub service_package_id : String
  pub router_id : Option String
  pub pppoe_username : Option String
  pub pppoe_password : Option String
  pub pppoe_local_address : Option String
  pub pppoe_remote_address : Option String
  pub pppoe_comment : Option String
  pub voucher_package_id : Option String
  pub device_count : Option ℕ

pub data TempoOption : Type 0 where
  standard template manual : TempoOption

pub record TempoTemplate : Type 0 where
  pub id : String
  pub name : String
  pub due_day : ℕ

-- The form's state beside its fields; `standard` is the option "default".
pub record TempoState : Type 0 where
  pub tempo_option : TempoOption
  pub selected_template_id : String
  pub manual_day : ℕ
  pub templates : List TempoTemplate

pub record CreateClientRequest : Type 0 where
  pub name : String
  pub email : String
  pub phone : String
  pub address : String
  pub category : ClientCategory
  pub service_package_id : String
  pub group_id : Option String
  pub isolir_mode : String
  pub connection_type : String
  pub device_count : Option ℕ
  pub pppoe_username : Option String
  pub pppoe_password : Option String
  pub router_id : Option String
  pub pppoe_local_address : Option String
  pub pppoe_remote_address : Option String
  pub pppoe_comment : Option String
  pub voucher_package_id : Option String
  pub discount_id : Option String
  pub payment_tempo_option : TempoOption
  pub payment_due_day : ℕ
  pub payment_tempo_template_id : Option String

pub data Field : Type 0 where
  device_count pppoe_username pppoe_password : Field

pub data TempoError : Type 0 where
  misses_template unknown_template : TempoError

-- What a submission does.
pub data Outcome : Type 0 where
  refuses : Field → Outcome
  fails_tempo : TempoError → Outcome
  submits : CreateClientRequest → Outcome

abbrev pub is_lite : ClientCategory → Bool
is_lite lite = true
is_lite _ = false

-- `x ? x : undefined`.
abbrev pub nonempty : Option String → Option String
nonempty none = none
nonempty (some t) = if truthy t then some t else none

abbrev pub is_filled : Option String → Bool
is_filled none = false
is_filled (some t) = truthy t

abbrev pub has_devices : Option ℕ → Bool
has_devices none = false
has_devices (some n) = not (n == 0)

-- The checks by category, and the fields that they clear.
unfoldable pub validate : (is_edit : Bool) → ClientFormData → Field ⊎ ClientFormData
validate is_edit d =
    if is_lite d.category
    then (if has_devices d.device_count
        then inr (record d { pppoe_username = some ""; pppoe_password = some "" })
        else inl device_count)
    else if not (is_filled d.pppoe_username)
    then inl pppoe_username
    else if not is_edit && not (is_filled d.pppoe_password)
    then inl pppoe_password
    else inr d

-- The option, the day, and the id of the template.
abbrev pub Tempo : Type 0
Tempo = ℕ × Option String

unfoldable pub find_template : TempoState → TempoError ⊎ Tempo
find_template t =
    if not (truthy t.selected_template_id)
    then inl misses_template
    else elim (find? (λ x. str_eq x.id t.selected_template_id) t.templates) [
      | none ↦ inl unknown_template
      | some x ↦ inr (x.due_day, some x.id)
    ]

unfoldable pub tempo_of : (today : ℕ) → TempoState → TempoError ⊎ Tempo
unfolding find_template
tempo_of today t = elim t.tempo_option [
  | standard ↦ inr (today, none)
  | manual ↦ inr (t.manual_day, none)
  | template ↦ find_template t
]

unfoldable pub payload : ClientFormData → TempoOption → Tempo → CreateClientRequest
payload d option (day, template_id) = record {
  name = d.name;
  email = d.email;
  phone = d.phone;
  address = d.address;
  category = d.category;
  service_package_id = d.service_package_id;
  group_id = nonempty d.group_id;
  isolir_mode = or_else (nonempty d.isolir_mode) "auto";
  connection_type = or_else (nonempty d.connection_type) "pppoe";
  device_count = if is_lite d.category then d.device_count else none;
  pppoe_username = if is_lite d.category then none else d.pppoe_username;
  pppoe_password = if is_lite d.category then none else nonempty d.pppoe_password;
  router_id = nonempty d.router_id;
  pppoe_local_address = nonempty d.pppoe_local_address;
  pppoe_remote_address = nonempty d.pppoe_remote_address;
  pppoe_comment = nonempty d.pppoe_comment;
  voucher_package_id = nonempty d.voucher_package_id;
  discount_id = nonempty d.discount_id;
  payment_tempo_option = option;
  payment_due_day = day;
  payment_tempo_template_id = template_id;
}

abbrev pub with_tempo : ClientFormData → TempoOption → TempoError ⊎ Tempo → Outcome
with_tempo d option (inl e) = fails_tempo e
with_tempo d option (inr t) = submits (payload d option t)

abbrev pub after_check : (today : ℕ) → TempoState → Field ⊎ ClientFormData → Outcome
after_check today t (inl f) = refuses f
after_check today t (inr d) = with_tempo d t.tempo_option (tempo_of today t)

unfoldable pub on_form_submit : (is_edit : Bool) (today : ℕ) → TempoState → ClientFormData → Outcome
unfolding validate tempo_of payload
on_form_submit is_edit today t d = after_check today t (validate is_edit d)

-- A lite client has devices and no account; any other client has the name of an account and no devices,
-- and a new one a password.
abbrev pub fits_category : (is_edit : Bool) → CreateClientRequest → Bool
fits_category is_edit p =
    if is_lite p.category
    then has_devices p.device_count
      && not (is_filled p.pppoe_username)
      && not (is_filled p.pppoe_password)
    else not (has_devices p.device_count)
      && is_filled p.pppoe_username
      && (if is_edit then true else is_filled p.pppoe_password)

abbrev pub is_template : Option String → ℕ → TempoTemplate → Bool
is_template none day x = false
is_template (some id) day x = str_eq x.id id && x.due_day == day

-- The due day is that of a template that is offered, the chosen one, or today.
abbrev pub FitsTempo : (today : ℕ) → TempoState → CreateClientRequest → Type 0
FitsTempo today t p = elim p.payment_tempo_option [
  | standard ↦ (p.payment_due_day ≡ today) × (p.payment_tempo_template_id ≡ none)
  | manual ↦ (p.payment_due_day ≡ t.manual_day) × (p.payment_tempo_template_id ≡ none)
  | template ↦ any (is_template p.payment_tempo_template_id p.payment_due_day) t.templates ≡ true
]
