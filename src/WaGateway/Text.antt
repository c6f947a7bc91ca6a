-- ===== src/WaGateway/Text.antt =====
-- wa-gateway/src/utils.ts and wa-gateway/src/config.ts. Texts are lists of UTF-16 code units.
-- `Math.random()` is a fraction `num / den` below 1; `path.join` and `Number` are parameters.
pub mod Laws
use rr_net.Prelude.{
  ℕ, suc, ◌+◌, ◌*◌, ◌/◌, Bool, true, false, not, ◌&&◌, ◌||◌, List, [], ◌∷◌, ◌++◌, map, Option, none,
  some, ltb, leb, ◌==◌, if◌then◌else◌, length, filter, Text, codes,
}
use mathlib.Core.List.{reverse}

abbrev pub is_digit : ℕ → Bool
is_digit c = leb b'0' c && leb c b'9'

-- The class `[a-zA-Z0-9_-]`.
abbrev pub is_safe : ℕ → Bool
is_safe c =
    (leb b'a' c && leb c b'z') || (leb b'A' c && leb c b'Z') || is_digit c || c == b'_' || c == b'-'

-- `replace(/[^a-zA-Z0-9_-]/g, "_")` of one code unit.
abbrev pub safe_unit : ℕ → ℕ
safe_unit c = if is_safe c then c else b'_'

pub safe_id : Text → Text
safe_id tenant_id = map safe_unit tenant_id

pub tenant_dir : (Text → Text → Text) → Text → Text → Text
unfolding safe_id
tenant_dir join base_dir tenant_id = join base_dir (safe_id tenant_id)

-- `none` is the thrown "Invalid phone number"; a missing number is the empty text.
unfoldable pub normalize_msisdn : Text → Option Text
normalize_msisdn to =
    let digits = filter is_digit to in if ltb (length digits) 7 then none else some digits

abbrev pub jid_suffix : Text
jid_suffix = codes "@s.whatsapp.net"

unfoldable pub to_jid : Text → Text
to_jid msisdn_digits = msisdn_digits ++ jid_suffix

-- `Math.floor(Math.random() * (jitterMs + 1))` on top of the base.
pub jitter : ℕ → ℕ → (num den : ℕ) → ℕ
jitter base_ms jitter_ms num den = base_ms + num * (jitter_ms + 1) / den

-- The white space that `trim` removes, within Latin-1.
abbrev is_space : ℕ → Bool
is_space c = (leb 9 c && leb c 13) || c == 32 || c == 160

trim_start : Text → Text
trim_start [] = []
trim_start (c ∷ cs) = if is_space c then trim_start cs else c ∷ cs

pub trim : Text → Text
unfolding trim_start
trim s = reverse (trim_start (reverse (trim_start s)))

pub record Config : Type 0 where
  pub port : ℕ
  pub data_dir : Text
  pub admin_token : Text
  pub send_delay_ms : ℕ
  pub send_jitter_ms : ℕ

abbrev or_empty : Option Text → Text
or_empty none = []
or_empty (some s) = s

abbrev or_default {ℓ} : {A : Type ℓ} → Option A → A → A
or_default none d = d
or_default (some a) d = a

abbrev non_empty : Text → Text → Text
non_empty [] d = d
non_empty (c ∷ cs) d = c ∷ cs

abbrev unless_empty : Text → ℕ → ℕ → ℕ
unless_empty [] d v = d
unless_empty (c ∷ cs) d v = v

-- `number` is JavaScript's `Number`, with `none` where the result is not finite.
module _ (number : Text → Option ℕ) (env : Text → Option Text) where
  pub env_int : Text → ℕ → ℕ
  unfolding trim
  env_int key def =
      let raw = trim (or_empty (env key)) in unless_empty raw def (or_default (number raw) def)

  pub load_config : Config
  unfolding env_int trim
  load_config = record {
    port = env_int (codes "WA_PORT") 3001;
    data_dir =
        non_empty (trim (or_default (env (codes "WA_DATA_DIR")) (codes "./data"))) (codes "./data");
    admin_token = trim (or_empty (env (codes "WA_ADMIN_TOKEN")));
    send_delay_ms = env_int (codes "WA_SEND_DELAY_MS") 350;
    send_jitter_ms = env_int (codes "WA_SEND_JITTER_MS") 250;
  }
