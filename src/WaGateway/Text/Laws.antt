-- ===== src/WaGateway/Text/Laws.antt =====
-- What the text helpers of the gateway guarantee of directories, numbers and addresses.
use rr_net.Prelude.{
  ℕ, suc, ◌+◌, ◌*◌, ◌/◌, ◌≤◌, ◌<◌, ◌≡◌, refl, ap, ◌↔◌, true, [], ◌∷◌, some, arith, length, filter,
  all, all-filter, filter-of-all, Text,
}
use mathlib.Core.List.{append_cancel_right}
use rr_net.WaGateway.Text.{
  is_digit, is_safe, safe_unit, safe_id, normalize_msisdn, jid_suffix, to_jid, jitter,
}

safe_unit-is_safe : (c : ℕ) → is_safe (safe_unit c) ≡ true
safe_unit-is_safe c = ground arith

-- Whatever the tenant id holds, the directory name has as many code units and all of them are
-- letters, digits, `_` or `-`.
pub safe_id_lem : (t : Text) → (length (safe_id t) ≡ length t) × (all is_safe (safe_id t) ≡ true)
unfolding safe_id
safe_id_lem [] = (refl, refl)
safe_id_lem (c ∷ cs) =
    let (n, a) = safe_id_lem cs in (ap suc n, ground (arith, safe_unit-is_safe c, a))

-- A tenant id keeps its own name exactly when it holds nothing but safe code units.
pub safe_id-eq_iff : (t : Text) → (safe_id t ≡ t) ↔ (all is_safe t ≡ true)
unfolding safe_id
safe_id-eq_iff [] = (λ _. refl, λ _. refl)
safe_id-eq_iff (c ∷ cs) = (
  λ h. ground (arith, (safe_id-eq_iff cs).0, safe_unit-is_safe c),
  λ h. ground (arith, (safe_id-eq_iff cs).1),
)

-- A normalised number is at least seven digits, and normalising it again changes nothing.
pub normalize_msisdn-normal :
    (to digits : Text)
    → normalize_msisdn to ≡ some digits
    → (all is_digit digits ≡ true) × (7 ≤ length digits) × (normalize_msisdn digits ≡ some digits)
unfolding normalize_msisdn
normalize_msisdn-normal to digits h =
    let e : filter is_digit to ≡ digits = ground arith in
    let a : all is_digit digits ≡ true = rw e at (all-filter is_digit to) in
    (a, ground arith, ground (arith, filter-of-all is_digit digits a))

-- Two numbers get one address only if they are the same digits.
pub to_jid_inj : (a b : Text) → to_jid a ≡ to_jid b → a ≡ b
unfolding to_jid
to_jid_inj a b h = append_cancel_right a b jid_suffix h

mul_div_bound : (num k den : ℕ) → num < den → num * (k + 1) / den ≤ k
mul_div_bound num k den h = grind arith

-- The wait between two messages is at least the base and at most the base plus the jitter.
pub jitter_bounds :
    (base_ms jitter_ms num den : ℕ)
    → num < den
    → (base_ms ≤ jitter base_ms jitter_ms num den)
      × (jitter base_ms jitter_ms num den ≤ base_ms + jitter_ms)
unfolding jitter
jitter_bounds base_ms jitter_ms num den h = ground (arith, mul_div_bound num jitter_ms den h)
