-- ===== src/Billing/Matrix.antt =====
-- The state of fe/src/components/billing/PaymentsMatrixView.tsx: each change of the filters runs the
-- effect again, which gives up the request before (`alive`). `E` is the type of the matrix's entries;
-- the list of groups to choose from is left out.
use rr_net.Prelude.{
  ℕ, suc, ◌==◌, ◌≡◌, Bool, true, false, ◌&&◌, List, [], ◌∷◌, Option, none, some, String, str_eq,
  truthy, if◌then◌else◌,
}
use rr_net.Types.{Answer, ok, threw, or_else}
use rr_net.Errors.{message_of}

pub record Query : Type 0 where
  pub year : ℕ
  pub q : String
  pub group_id : String
  pub status : String

pub record PaymentMatrixResponse (E : Type 0) : Type 0 where
  pub items : Option (List E)
  pub available_years : Option (List ℕ)
  pub year : Option ℕ

-- `alive` is the number of the run of the effect that is not given up. `asked` is the query that each run
-- closed over and sent, and `shown` the one whose answer is shown.
pub record Matrix (E : Type 0) : Type 0 where
  pub loading : Bool
  pub error : Option String
  pub entries : List E
  pub available_years : List ℕ
  pub query : Query
  pub alive : ℕ
  pub asked : ℕ → Query
  pub shown : Option Query

pub data Event (E : Type 0) : Type 0 where
  changes : Query → Event E
  answers : (run : ℕ) → Answer (PaymentMatrixResponse E) → Event E

abbrev same_query : Query → Query → Bool
same_query a b =
    a.year == b.year && str_eq a.q b.q && str_eq a.group_id b.group_id && str_eq a.status b.status

abbrev message_or : Option String → String
message_or none = "Failed to load payment matrix"
message_or (some e) = if truthy e then e else "Failed to load payment matrix"

-- One more run asks.
abbrev asked_also : (ℕ → Query) → (run : ℕ) → Query → ℕ → Query
asked_also asked run q k = if k == run then q else asked k

module _ {E : Type 0} where
  -- The effect runs.
  unfoldable pub start : Matrix E → Matrix E
  start m = record m {
    loading = true;
    error = none;
    alive = suc m.alive;
    asked = asked_also m.asked (suc m.alive) m.query;
  }

  -- The effect depends on the query alone.
  unfoldable pub set_query : Matrix E → Query → Matrix E
  unfolding start
  set_query m q = if same_query q m.query then m else start (record m { query = q })

  -- What the answer to a run sets, before the year. The year that is missing is that of its query.
  abbrev show : Matrix E → (run : ℕ) → Answer (PaymentMatrixResponse E) → Matrix E
  show m run (ok r) = record m {
    entries = or_else r.items [];
    available_years = or_else r.available_years (or_else r.year (m.asked run).year ∷ []);
    loading = false;
    shown = some (m.asked run);
  }
  show m run (threw t) = record m {
    error = some (message_or (message_of t));
    entries = [];
    loading = false;
    shown = some (m.asked run);
  }

  -- The year of the answer, unless it is missing or 0.
  abbrev year_of : Answer (PaymentMatrixResponse E) → ℕ → ℕ
  year_of (ok r) y = elim r.year [ none ↦ y | some n ↦ if n == 0 then y else n ]
  year_of (threw t) y = y

  -- A run that was given up changes nothing.
  unfoldable pub settle : Matrix E → (run : ℕ) → Answer (PaymentMatrixResponse E) → Matrix E
  unfolding set_query
  settle m run a =
      if run == m.alive && m.loading
      then (let m' = show m run a in
          set_query m' (record m'.query { year = year_of a m'.query.year }))
      else m

  unfoldable pub perform : Matrix E → Event E → Matrix E
  perform m (changes q) = set_query m q
  perform m (answers run a) = settle m run a

  unfoldable pub run : Matrix E → List (Event E) → Matrix E
  run m [] = m
  run m (e ∷ es) = run (perform m e) es

  -- The view when it is opened, and its effect has run.
  unfoldable pub opened : Query → Matrix E
  unfolding start
  opened q = start (record {
    loading = false;
    error = none;
    entries = [];
    available_years = [];
    query = q;
    alive = 0;
    asked = λ k. q;
    shown = none;
  })

  -- The run that is alive asks for the query in force, and what is shown when nothing is loading is the
  -- answer to it.
  abbrev IsCurrent : Matrix E → Type 0
  IsCurrent m =
      (m.asked m.alive ≡ m.query) × ((if m.loading then some m.query else m.shown) ≡ some m.query)
