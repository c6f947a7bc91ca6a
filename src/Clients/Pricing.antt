-- ===== src/Clients/Pricing.antt =====
-- What a client owes for a month: `calculateTotal` of fe/src/components/collector/DepositModal.tsx, which
-- fe/src/components/clients/CollectorActions.tsx and ClientTable.tsx and the collector page repeat, and
-- the amount to deposit. Amounts are in hundredths of a rupiah, so that a percentage is exact; prices,
-- counts and discounts are whole numbers.
use rr_net.Prelude.{
  ℕ, ◌+◌, ◌-◌, ◌*◌, ◌≤◌, ◌<◌, ◌≡◌, ◌==◌, leb, leb→le, Bool, true, List, [], ◌∷◌, Option, none, some,
  String, str_eq, truthy, find?, arith, if◌then◌else◌, Bool-cases, inl, inr,
}
use native.Mathlib.Nat.{mul-le-mul_left}
use rr_net.Types.{or_else}

-- A whole number: `negsuc n` is `- (n + 1)`.
pub data ℤ : Type 0 where
  pos negsuc : ℕ → ℤ

-- The difference of two natural numbers.
abbrev pub minus : ℕ → ℕ → ℤ
minus a b = if leb b a then pos (a - b) else negsuc (b - a - 1)

infixl 60 ◌+ℤ◌
abbrev pub ◌+ℤ◌ : ℤ → ℤ → ℤ
pos a +ℤ pos b = pos (a + b)
pos a +ℤ negsuc b = minus a (b + 1)
negsuc a +ℤ pos b = minus b (a + 1)
negsuc a +ℤ negsuc b = negsuc (a + b + 1)

pub data PricingModel : Type 0 where
  flat_monthly per_device : PricingModel

pub record ServicePackage : Type 0 where
  pub id : String
  pub pricing_model : PricingModel
  pub price_monthly : ℕ
  pub price_per_device : ℕ

pub data DiscountType : Type 0 where
  percent fixed : DiscountType

-- What is read of a client.
pub record Client : Type 0 where
  pub id : String
  pub service_package_id : Option String
  pub device_count : Option ℕ
  pub discount_type : Option DiscountType
  pub discount_value : Option ℕ

abbrev devices : Option ℕ → ℕ
devices none = 1
devices (some n) = if n == 0 then 1 else n

unfoldable pub base_price : ServicePackage → Client → ℕ
base_price p c = elim p.pricing_model [
  | flat_monthly ↦ p.price_monthly
  | per_device ↦ p.price_per_device * devices c.device_count
]

-- A missing type or value, or the value 0, is no discount.
unfoldable pub discounted : ℕ → Option DiscountType → Option ℕ → ℤ
discounted base none v = pos (base * 100)
discounted base (some t) none = pos (base * 100)
discounted base (some t) (some v) =
    if v == 0
    then pos (base * 100)
    else elim t [ percent ↦ minus (base * 100) (base * v) | fixed ↦ pos ((base - v) * 100) ]

abbrev package_total : Option ServicePackage → Client → ℤ
package_total none c = pos 0
package_total (some p) c = discounted (base_price p c) c.discount_type c.discount_value

unfoldable pub calculate_total : List ServicePackage → Client → ℤ
unfolding base_price discounted
calculate_total packages c = elim c.service_package_id [
  | none ↦ pos 0
  | some id ↦ if truthy id then package_total (find? (λ p. str_eq p.id id) packages) c else pos 0
]

abbrev client_total : List ServicePackage → Option Client → ℤ
client_total packages none = pos 0
client_total packages (some c) = calculate_total packages c

-- The clients paid in full, in the order of the set, and the partial payments of the map.
unfoldable pub deposit_amount :
    List ServicePackage → List Client → List String → List (String × ℕ) → ℤ
unfolding calculate_total
deposit_amount packages clients (id ∷ ids) partial =
    client_total packages (find? (λ c. str_eq c.id id) clients)
    +ℤ deposit_amount packages clients ids partial
deposit_amount packages clients [] ((id, amount) ∷ rest) =
    pos (amount * 100) +ℤ deposit_amount packages clients [] rest
deposit_amount packages clients [] [] = pos 0

-- A discount of at most 100 per cent, or a fixed one, or none.
abbrev pub is_sane : Client → Bool
is_sane c = elim c.discount_type [
  | none ↦ true
  | some t ↦ elim t [ percent ↦ leb (or_else c.discount_value 0) 100 | fixed ↦ true ]
]

-- The price before the discount.
abbrev pub base_of : List ServicePackage → Client → ℕ
base_of packages c = elim c.service_package_id [
  | none ↦ 0
  | some id ↦ elim (find? (λ p. str_eq p.id id) packages) [ none ↦ 0 | some p ↦ base_price p c ]
]

abbrev pub Within : ℕ → ℤ → Type 0
Within base (pos n) = n ≤ base * 100
Within base (negsuc n) = ⊥

minus-Within : (base v : ℕ) → leb v 100 ≡ true → Within base (minus (base * 100) (base * v))
minus-Within base v h =
    let b : base * v ≤ base * 100 = mul-le-mul_left base (leb→le v 100 h) in
    elim (Bool-cases (leb (base * v) (base * 100))) [
      | inl y ↦ rw y (omega arith)
      | inr n ↦ ground (arith, b)
    ]

discounted-Within :
    (base : ℕ) (t : Option DiscountType) (v : Option ℕ)
    → elim t [ none ↦ true | some t ↦ elim t [ percent ↦ leb (or_else v 0) 100 | fixed ↦ true ] ]
      ≡ true
    → Within base (discounted base t v)
unfolding discounted
discounted-Within base none v h = ground arith
discounted-Within base (some t) none h = ground arith
discounted-Within base (some percent) (some v) h = elim (Bool-cases (v == 0)) [
  | inl z ↦ rw z (ground arith)
  | inr z ↦ rw z (minus-Within base v h)
]
discounted-Within base (some fixed) (some v) h = elim (Bool-cases (v == 0)) [
  | inl z ↦ rw z (omega arith)
  | inr z ↦ rw z (omega arith)
]

package_total-Within :
    (p : Option ServicePackage) (c : Client)
    → is_sane c ≡ true
    → Within (elim p [ none ↦ 0 | some p ↦ base_price p c ]) (package_total p c)
package_total-Within none c h = omega arith
package_total-Within (some p) c h =
    discounted-Within (base_price p c) c.discount_type c.discount_value h

total-Within :
    (packages : List ServicePackage) (c : Client) (service_package_id : Option String)
    → is_sane c ≡ true
    → Within
        (elim service_package_id [
          | none ↦ 0
          | some id ↦ elim (find? (λ p. str_eq p.id id) packages) [
            | none ↦ 0
            | some p ↦ base_price p c
          ]
        ])
        (elim service_package_id [
          | none ↦ pos 0
          | some id ↦
              if truthy id then package_total (find? (λ p. str_eq p.id id) packages) c else pos 0
        ])
total-Within packages c none h = omega arith
total-Within packages c (some id) h = elim (Bool-cases (truthy id)) [
  | inl y ↦ rw y (package_total-Within (find? (λ p. str_eq p.id id) packages) c h)
  | inr n ↦ rw n (omega arith)
]

-- A client whose discount is fixed or at most 100 per cent owes at least nothing and at most the price
-- of their package, devices counted; a client without a package that is known owes nothing.
pub calculate_total-Within :
    (packages : List ServicePackage) (c : Client)
    → is_sane c ≡ true
    → Within (base_of packages c) (calculate_total packages c)
unfolding calculate_total
calculate_total-Within packages c h = total-Within packages c c.service_package_id h

-- With a discount above 100 per cent a client owes less than nothing.
pub discounted-negative :
    (base v : ℕ)
    → 0 < base
    → 100 < v
    → discounted base (some percent) (some v) ≡ negsuc (base * v - base * 100 - 1)
unfolding discounted
discounted-negative base v b h =
    let m : base * 101 ≤ base * v = mul-le-mul_left base (omega arith) in ground (arith, m)
