-- ===== src/Daemon/Throttle/Control.antt =====
-- The throttle as a control: when it trips, and that it agrees with the health check.
use forge_os.Base.{
  String, Bool, true, false, not, Option, none, some, [], ◌∷◌, ◌≡◌, refl, ap, arith,
}
use forge_os.Host.{Host}
use forge_os.Cost.{
  CostSource, CostTotals, unreadable_db, totals, or_zero, enforced_cap, warn_ratio, check,
  check_cap, zero_usd,
}
use forge_os.Base.Outcome.{Outcome, done, raised, after}
use forge_os.Daemon.State.{DaemonFile, DaemonAlert, DaemonState, warning, add_alert}
use forge_os.Daemon.Throttle.{
  ThrottleDecision, skipped, store_unreadable, decide, evaluate, gated, record_throttle_alert,
  throttle_alert, alert_message,
}

-- What the floating-point order is used for: the warning ratio lies below one.
pub record IsOrdered (host : Host) : Type 0 where
  pub trans :
      (a b c : host.Num)
      → host.num_leb a b ≡ true
      → host.num_leb b c ≡ true
      → host.num_leb a c ≡ true
  pub ratio_below_one : host.num_leb (host.literal "0.80") (host.literal "1.0") ≡ true

module _ (host : Host) where
  agree :
      (ord : IsOrdered host) (limit enforced : Option host.Num) (t : CostTotals host.Num)
      → (decide host limit enforced t).throttled ≡ not (check_cap host enforced t).healthy
  unfolding decide check_cap warn_ratio
  agree ord limit none t = refl
  agree ord limit (some c) t =
      let below =
        ord.trans (host.literal "0.80") (host.literal "1.0")
          (host.num_div (or_zero host t.total_cost_usd) c) ord.ratio_below_one in
      ground (arith, below)

  -- Where the order of the numbers is transitive and puts 0.80 below 1.0, whatever the cap and the
  -- recorded spend, also an unreadable one, the daemon's maintenance is throttled exactly when the
  -- health check reports the cost cap as unhealthy.
  pub throttled-eq-unhealthy :
      (ord : IsOrdered host) (limit : Option host.Num) (source : CostSource host.Num)
      → (evaluate host limit source).throttled ≡ not (check host limit source).healthy
  unfolding evaluate check
  throttled-eq-unhealthy ord limit source =
      agree ord limit (enforced_cap host limit) (totals host source)

  capped :
      (limit : Option host.Num) (c : host.Num)
      → enforced_cap host limit ≡ some c
      → evaluate host limit unreadable_db ≡ record {
        throttled = true;
        spent_usd = zero_usd host;
        cost_cap_usd = limit;
        ratio = none;
        reason = some store_unreadable;
      }
  unfolding evaluate decide totals
  capped limit c h = rw h refl

  -- With a positive cap and an event store that cannot be read, a gated task is not run: its state
  -- is as it was, the result carries the decision, which is throttled for the unreadable store, and
  -- the state file is as `add_alert` leaves it for a warning that says so and names the task.
  pub gated_fails_closed :
      {S A : Type 0} (run : S → S × A) (limit : Option host.Num) (c : host.Num)
      (uuid now task_name : String) (s : S) (file : DaemonFile)
      → enforced_cap host limit ≡ some c
      → gated host run limit unreadable_db uuid now task_name s file ≡ (
        s,
        after (
            add_alert
              (record {
                alert_id = uuid;
                created_at = now;
                source = "cost-throttle";
                severity = warning;
                message =
                    "Recorded spend is unreadable (corrupt events.db); throttling daemon maintenance as a precaution until spend can be metered.";
                metadata =
                    ("task", task_name)
                    ∷ ("reason", "store_unreadable")
                    ∷ ("spent_usd", host.show_num (host.round (host.literal "0.0") 6))
                    ∷ ("cost_cap_usd", elim limit [ none ↦ "None" | some n ↦ host.show_num n ])
                    ∷ ("ratio", "None")
                    ∷ [];
              })
              file),
        skipped task_name (record {
          throttled = true;
          spent_usd = host.literal "0.0";
          cost_cap_usd = limit;
          ratio = none;
          reason = some store_unreadable;
        }),
      )
  unfolding gated record_throttle_alert throttle_alert alert_message
  gated_fails_closed run limit c uuid now task_name s file h =
      rw (capped limit c h) (ap (λ f. (s, f, skipped task_name closed)) (go (add_alert alert file)))
    where
      closed : ThrottleDecision host.Num
      closed = record {
        throttled = true;
        spent_usd = zero_usd host;
        cost_cap_usd = limit;
        ratio = none;
        reason = some store_unreadable;
      }

      alert : DaemonAlert
      alert = throttle_alert host uuid now task_name closed

      go :
          (o : Outcome DaemonFile DaemonState)
          → (elim o as (λ _. DaemonFile × Bool) [
            | done t f ↦ (f, true)
            | raised e f ↦ (f, false)
          ]).0
            ≡ after o
      go (done t f) = refl
      go (raised e f) = refl
