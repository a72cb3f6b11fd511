-- ===== src/Cost.antt =====
-- cost/aggregator.py and health/cost_cap.py: the recorded spend, and the check of its cap.
pub mod Totals
use forge_os.Base.{
  ℕ, suc, ◌+◌, String, Bool, true, false, not, ◌&&◌, Option, none, some, List, [], ◌∷◌,
  if◌then◌else◌,
}
use forge_os.Events.Model.{Value, null, text, flag, num, texts}
use forge_os.Host.{Host}

pub record CostTotals (Num : Type 0) : Type 0 where
  pub total_cost_usd : Option Num
  pub priced_spawns : ℕ
  pub total_spawns : ℕ
  pub readable : Bool

-- A decoded payload of a completed spawn: no JSON object, or one with the value that stands under
-- `metadata.total_cost_usd`, `null` where it or an object `metadata` is missing.
pub data SpawnPayload (Num : Type 0) : Type 0 where
  undecodable : SpawnPayload Num
  spawn : Value Num → SpawnPayload Num

-- `.forge/events.db`: not there, not readable, or the payloads of its completed spawns in order.
pub data CostSource (Num : Type 0) : Type 0 where
  no_db : CostSource Num
  unreadable_db : CostSource Num
  completed : List (SpawnPayload Num) → CostSource Num

-- Which of its messages the health checker gives; the figures in them are not modelled.
pub data CapMessage : Type 0 where
  no_cap cannot_read over approaching within : CapMessage

pub record HealthResult (Num : Type 0) : Type 0 where
  pub healthy : Bool
  pub message : CapMessage
  pub spent_usd : Num
  pub ratio : Option Num

module _ (host : Host) where
  abbrev pub Totals : Type 0
  Totals = CostTotals host.Num

  abbrev pub zero_usd : host.Num
  zero_usd = host.literal "0.0"

  -- the end of `_as_cost`, for the float
  abbrev as_finite : host.Num → Option host.Num
  as_finite n = if host.is_finite n && not (host.num_ltb n zero_usd) then some n else none

  -- `_as_cost`, for an integer or a float that `float` takes
  unfoldable pub as_cost : Value host.Num → Option host.Num
  as_cost (num n) = as_finite (host.as_double n)
  as_cost _ = none

  abbrev pub or_zero : Option host.Num → host.Num
  or_zero none = zero_usd
  or_zero (some n) = n

  -- the three variables of the loop of `totals`
  pub record Tally : Type 0 where
    pub total : Option host.Num
    pub priced : ℕ
    pub spawns : ℕ

  unfoldable pub add_cost : Option host.Num → Tally → Tally
  add_cost none t = t
  add_cost (some c) t = record t {
    total = some (host.num_add (or_zero t.total) c);
    priced = suc t.priced;
  }

  unfoldable pub tally : Tally → List (SpawnPayload host.Num) → Tally
  unfolding add_cost
  tally t [] = t
  tally t (undecodable ∷ ps) = tally t ps
  tally t (spawn v ∷ ps) = tally (add_cost (as_cost v) (record t { spawns = suc t.spawns })) ps

  abbrev pub nothing : Tally
  nothing = record { total = none; priced = 0; spawns = 0 }

  rounded : Option host.Num → Option host.Num
  rounded none = none
  rounded (some n) = some (host.round n 6)

  unfoldable pub totals : CostSource host.Num → Totals
  unfolding tally rounded
  totals no_db = record {
    total_cost_usd = none;
    priced_spawns = 0;
    total_spawns = 0;
    readable = true;
  }
  totals unreadable_db = record {
    total_cost_usd = none;
    priced_spawns = 0;
    total_spawns = 0;
    readable = false;
  }
  totals (completed ps) =
      let t = tally nothing ps in
      record {
        total_cost_usd = rounded t.total;
        priced_spawns = t.priced;
        total_spawns = t.spawns;
        readable = true;
      }

  -- `cap is None or cap <= 0`: the cap, if there is one to enforce
  unfoldable pub enforced_cap : Option host.Num → Option host.Num
  enforced_cap none = none
  enforced_cap (some cap) = if host.num_leb cap zero_usd then none else some cap

  unfoldable pub warn_ratio : host.Num
  warn_ratio = host.literal "0.80"

  verdict : host.Num → host.Num → HealthResult host.Num
  unfolding warn_ratio
  verdict spent ratio =
      if host.num_leb (host.literal "1.0") ratio
      then record {
        healthy = false;
        message = over;
        spent_usd = host.round spent 6;
        ratio = some (host.round ratio 3);
      }
      else if host.num_leb warn_ratio ratio
      then record {
        healthy = false;
        message = approaching;
        spent_usd = host.round spent 6;
        ratio = some (host.round ratio 3);
      }
      else record {
        healthy = true;
        message = within;
        spent_usd = host.round spent 6;
        ratio = some (host.round ratio 3);
      }

  unfoldable pub check_cap : Option host.Num → Totals → HealthResult host.Num
  unfolding verdict
  check_cap none t = record {
    healthy = true;
    message = no_cap;
    spent_usd = host.round (or_zero t.total_cost_usd) 6;
    ratio = none;
  }
  check_cap (some cap) t =
      let spent = or_zero t.total_cost_usd in
      if not t.readable
      then record {
        healthy = false;
        message = cannot_read;
        spent_usd = host.round spent 6;
        ratio = none;
      }
      else verdict spent (host.num_div spent cap)

  -- `CostCapHealthChecker.check`, for the cap that is injected or configured
  unfoldable pub check : Option host.Num → CostSource host.Num → HealthResult host.Num
  unfolding enforced_cap check_cap totals
  check cap source = check_cap (enforced_cap cap) (totals source)
