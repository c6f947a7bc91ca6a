-- ===== src/Shell.antt =====
-- The stores of the page around the tenant's pages: fe/src/stores/notificationStore.ts (toasts) and
-- fe/src/stores/globalStore.ts. A record by keys is a function.
use rr_net.Prelude.{
  ℕ, ◌≡◌, refl, Bool, true, false, not, List, [], ◌∷◌, ◌++◌, Option, none, some, String, str_eq,
  eq_iff, filter, all, update, arith,
}
use rr_net.Types.{or_else}

pub data ToastVariant : Type 0 where
  success error warning info : ToastVariant

pub record Toast : Type 0 where
  pub id : String
  pub title : String
  pub description : Option String
  pub variant : Option ToastVariant
  pub duration_ms : Option ℕ

-- What a caller shows; `id` is `none` when the caller leaves it out.
pub record NewToast : Type 0 where
  pub id : Option String
  pub title : String
  pub description : Option String
  pub variant : Option ToastVariant
  pub duration_ms : Option ℕ

-- `uuid` is the new identifier, if one is needed.
unfoldable pub show_toast : (uuid : String) → List Toast → NewToast → List Toast
show_toast uuid toasts t =
    toasts
    ++ record {
      id = or_else t.id uuid;
      title = t.title;
      description = t.description;
      variant = t.variant;
      duration_ms = t.duration_ms;
    }
      ∷ []

unfoldable pub hide_toast : List Toast → (id : String) → List Toast
hide_toast toasts id = filter (λ t. not (str_eq t.id id)) toasts

unfoldable pub clear_all : List Toast → List Toast
clear_all toasts = []

-- No toast has the identifier.
abbrev pub is_new : (id : String) → List Toast → Bool
is_new id toasts = all (λ t. not (str_eq t.id id)) toasts

hide_toast-append :
    (id : String) (toasts : List Toast) (t : Toast)
    → t.id ≡ id
    → is_new id toasts ≡ true
    → hide_toast (toasts ++ t ∷ []) id ≡ toasts
unfolding hide_toast
hide_toast-append id [] t e h = ground (arith, eq_iff t.id id)
hide_toast-append id (x ∷ toasts) t e h = ground (arith, hide_toast-append id toasts t e)

-- Hiding the toast just shown brings back the toasts that there were, if its identifier is new.
pub hide_toast-show_toast :
    (uuid : String) (toasts : List Toast) (t : NewToast)
    → is_new (or_else t.id uuid) toasts ≡ true
    → hide_toast (show_toast uuid toasts t) (or_else t.id uuid) ≡ toasts
unfolding show_toast
hide_toast-show_toast uuid toasts t h = hide_toast-append (or_else t.id uuid) toasts _ refl h

pub data Theme : Type 0 where
  light dark : Theme

pub record GlobalState : Type 0 where
  pub theme : Theme
  pub sidebar_open : Bool
  pub loading : String → Option Bool
  pub errors : String → Option String

unfoldable pub initial : GlobalState
initial = record {
  theme = light;
  sidebar_open = false;
  loading = λ key. none;
  errors = λ key. none;
}

unfoldable pub set_theme : GlobalState → Theme → GlobalState
set_theme s theme = record s { theme = theme }

unfoldable pub toggle_sidebar : GlobalState → GlobalState
toggle_sidebar s = record s { sidebar_open = not s.sidebar_open }

unfoldable pub set_loading : GlobalState → (key : String) → Bool → GlobalState
set_loading s key value = record s { loading = update s.loading key (some value) }

unfoldable pub set_error : GlobalState → (key message : String) → GlobalState
set_error s key message = record s { errors = update s.errors key (some message) }

unfoldable pub clear_error : GlobalState → (key : String) → GlobalState
clear_error s key = record s { errors = update s.errors key none }
