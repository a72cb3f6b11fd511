-- ===== src/Daemon/Throttle.antt =====
-- daemon/throttle.py: the daemon's self-throttle at the cost cap.
pub mod Control
use forge_os.Base.{
  ℕ, String, Bool, true, false, not, Option, none, some, List, [], ◌∷◌, if◌then◌else◌,
}
use forge_os.Base.Dict.{Dict}
use forge_os.Base.Outcome.{Action, Outcome, done, raised, after}
use forge_os.Host.{Host}
use forge_os.Cost.{CostTotals, CostSource, totals, or_zero, enforced_cap, warn_ratio}
use forge_os.Daemon.State.{DaemonFile, DaemonAlert, DaemonState, warning, add_alert}

pub data Reason : Type 0 where
  over_cap store_unreadable : Reason

pub record ThrottleDecision (Num : Type 0) : Type 0 where
  pub throttled : Bool
  pub spent_usd : Num
  pub cost_cap_usd : Option Num
  pub ratio : Option Num
  pub reason : Option Reason

abbrev pub reason_text : Reason → String
reason_text over_cap = "over_cap"
reason_text store_unreadable = "store_unreadable"

-- `_ALERT_MESSAGES.get(decision.reason, _ALERT_MESSAGES[REASON_OVER_CAP])`
unfoldable pub alert_message : Option Reason → String
alert_message (some store_unreadable) =
    "Recorded spend is unreadable (corrupt events.db); throttling daemon maintenance as a precaution until spend can be metered."
alert_message _ = "Always-on cost cap reached; throttling daemon maintenance."

-- What a gated task returns: the inner task's result, or the summary of the throttle.
pub data GatedResult (A Num : Type 0) : Type 0 where
  ran : A → GatedResult A Num
  skipped : String → ThrottleDecision Num → GatedResult A Num

module _ (host : Host) where
  abbrev pub Decision : Type 0
  Decision = ThrottleDecision host.Num

  measured : host.Num → Option host.Num → host.Num → Decision
  measured spent cap ratio =
      let throttled = host.num_leb (warn_ratio host) ratio in
      record {
        throttled = throttled;
        spent_usd = spent;
        cost_cap_usd = cap;
        ratio = some ratio;
        reason = if throttled then some over_cap else none;
      }

  decide : Option host.Num → Option host.Num → CostTotals host.Num → Decision
  unfolding measured
  decide cap none t = record {
    throttled = false;
    spent_usd = or_zero host t.total_cost_usd;
    cost_cap_usd = cap;
    ratio = none;
    reason = none;
  }
  decide cap (some enforced) t =
      let spent = or_zero host t.total_cost_usd in
      if not t.readable
      then record {
        throttled = true;
        spent_usd = spent;
        cost_cap_usd = cap;
        ratio = none;
        reason = some store_unreadable;
      }
      else measured spent cap (host.num_div spent enforced)

  -- `CostThrottle.evaluate`, for the cap that is injected or configured
  unfoldable pub evaluate : Option host.Num → CostSource host.Num → Decision
  unfolding decide
  evaluate cap source = decide cap (enforced_cap host cap) (totals host source)

  unfoldable pub throttle_alert : String → String → String → Decision → DaemonAlert
  unfolding alert_message
  throttle_alert uuid now task_name d = record {
    alert_id = uuid;
    created_at = now;
    source = "cost-throttle";
    severity = warning;
    message = alert_message d.reason;
    metadata =
        ("task", task_name)
        ∷ ("reason", elim d.reason [ none ↦ "None" | some r ↦ reason_text r ])
        ∷ ("spent_usd", host.show_num (host.round d.spent_usd 6))
        ∷ ("cost_cap_usd", elim d.cost_cap_usd [ none ↦ "None" | some c ↦ host.show_num c ])
        ∷ ("ratio", elim d.ratio [ none ↦ "None" | some r ↦ host.show_num (host.round r 3) ])
        ∷ [];
  }

  -- `_record_throttle_alert`: an error of the state file is logged and dropped
  unfoldable pub record_throttle_alert :
      String → String → String → Decision → DaemonFile → DaemonFile × Bool
  unfolding throttle_alert
  record_throttle_alert uuid now task_name d file =
      elim (add_alert (throttle_alert uuid now task_name d) file) [
        | done s f ↦ (f, true)
        | raised e f ↦ (f, false)
      ]

  -- `throttle_gate`: the gated task, over the state that the inner task works on
  unfoldable pub gated :
      {S A : Type 0}
      → (S → S × A)
      → Option host.Num
      → CostSource host.Num
      → String
      → String
      → String
      → S
      → DaemonFile
      → S × DaemonFile × GatedResult A host.Num
  gated run cap source uuid now task_name s file =
      let d = evaluate cap source in
      if not d.throttled
      then (let (s', a) = run s in (s', file, ran a))
      else (s, (record_throttle_alert uuid now task_name d file).0, skipped task_name d)
