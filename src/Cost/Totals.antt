-- ===== src/Cost/Totals.antt =====
-- What the recorded spend is made of.
use mathlib.Core.Path.{subst}
use forge_os.Base.{
  ℕ, suc, ◌+◌, ◌≤◌, Bool, true, false, not, ◌&&◌, Option, none, some, List, [], ◌∷◌, ◌≡◌, refl, sym,
  ap, arith, length, if◌then◌else◌,
}
use forge_os.Events.Model.{Value, null, text, flag, num, texts}
use forge_os.Host.{Host}
use forge_os.Cost.{
  add_cost, SpawnPayload, undecodable, spawn, Tally, as_cost, tally, nothing, or_zero, totals,
  completed,
}

module _ (host : Host) where
  -- the costs that count: finite numbers that are not negative
  cons_cost : Option host.Num → List host.Num → List host.Num
  cons_cost none cs = cs
  cons_cost (some c) cs = c ∷ cs

  -- a number joins the costs if it is finite and not below zero
  abbrev cons_number : host.Num → List host.Num → List host.Num
  cons_number n cs =
      if host.is_finite n then (if host.num_ltb n (host.literal "0.0") then cs else n ∷ cs) else cs

  unfoldable pub costs : List (SpawnPayload host.Num) → List host.Num
  costs [] = []
  costs (undecodable ∷ ps) = costs ps
  costs (spawn null ∷ ps) = costs ps
  costs (spawn (text s) ∷ ps) = costs ps
  costs (spawn (flag b) ∷ ps) = costs ps
  costs (spawn (texts ss) ∷ ps) = costs ps
  costs (spawn (num n) ∷ ps) = cons_number (host.as_double n) (costs ps)

  costs-spawn :
      (v : Value host.Num) (ps : List (SpawnPayload host.Num))
      → costs (spawn v ∷ ps) ≡ cons_cost (as_cost host v) (costs ps)
  unfolding costs cons_cost as_cost
  costs-spawn null ps = refl
  costs-spawn (text s) ps = refl
  costs-spawn (flag b) ps = refl
  costs-spawn (texts ss) ps = refl
  costs-spawn (num n) ps =
      go (host.is_finite (host.as_double n)) (host.num_ltb (host.as_double n) (host.literal "0.0"))
    where
      go :
          (f l : Bool)
          → (if f then (if l then costs ps else host.as_double n ∷ costs ps) else costs ps)
            ≡ cons_cost (if f && not l then some (host.as_double n) else none) (costs ps)
      go true true = refl
      go true false = refl
      go false l = refl

  pub decodable : List (SpawnPayload host.Num) → ℕ
  decodable [] = 0
  decodable (undecodable ∷ ps) = decodable ps
  decodable (spawn v ∷ ps) = suc (decodable ps)

  -- the sum from the left, if there is anything to sum
  pub sum_from : Option host.Num → List host.Num → Option host.Num
  sum_from o [] = o
  sum_from o (c ∷ cs) = sum_from (some (host.num_add (or_zero host o) c)) cs

  -- `u` is `t` after the costs `cs` of `n` spawns
  abbrev Counts : Tally host → Tally host → List host.Num → ℕ → Type 0
  Counts t u cs n =
      (u.total ≡ sum_from t.total cs)
      × (u.priced ≡ t.priced + length cs)
      × (u.spawns ≡ t.spawns + n)

  tally_add :
      (o : Option host.Num) (t : Tally host) (ps : List (SpawnPayload host.Num))
      → ((u : Tally host) → Counts u (tally host u ps) (costs ps) (decodable ps))
      → Counts t
          (tally host (add_cost host o (record t { spawns = suc t.spawns })) ps)
          (cons_cost o (costs ps))
          (suc (decodable ps))
  unfolding cons_cost sum_from add_cost
  tally_add none t ps ih =
      let (a, b, c) = ih (record t { spawns = suc t.spawns }) in (a, b, omega (arith, c))
  tally_add (some x) t ps ih =
      let u : Tally host = record {
        total = some (host.num_add (or_zero host t.total) x);
        priced = suc t.priced;
        spawns = suc t.spawns;
      } in
      let (a, b, c) = ih u in (a, omega (arith, b), omega (arith, c))

  tally_lem :
      (t : Tally host) (ps : List (SpawnPayload host.Num))
      → Counts t (tally host t ps) (costs ps) (decodable ps)
  unfolding tally costs decodable sum_from
  tally_lem t [] = (refl, omega arith, omega arith)
  tally_lem t (undecodable ∷ ps) = tally_lem t ps
  tally_lem t (spawn v ∷ ps) =
      subst (λ cs. Counts t (tally host t (spawn v ∷ ps)) cs (decodable (spawn v ∷ ps)))
        (sym (costs-spawn v ps)) (tally_add (as_cost host v) t ps (λ u. tally_lem u ps))

  cons_cost-le :
      (o : Option host.Num) (cs : List host.Num) → length (cons_cost o cs) ≤ suc (length cs)
  unfolding cons_cost
  cons_cost-le none cs = omega arith
  cons_cost-le (some c) cs = omega arith

  costs-le : (ps : List (SpawnPayload host.Num)) → length (costs ps) ≤ decodable ps
  unfolding costs decodable
  costs-le [] = omega arith
  costs-le (undecodable ∷ ps) = costs-le ps
  costs-le (spawn v ∷ ps) =
      omega
        (arith, cons_cost-le (as_cost host v) (costs ps), costs-le ps, ap length (costs-spawn v ps))

  pub rounded_sum : Option host.Num → Option host.Num
  rounded_sum none = none
  rounded_sum (some n) = some (host.round n 6)

  -- The totals of a readable event store count every decodable spawn, and sum from the left, and
  -- round once, exactly the costs that are finite numbers and not negative: a missing, negative,
  -- infinite or non-numeric cost, or a payload that is no JSON object, changes neither the sum nor
  -- the number of priced spawns, which is at most the number of spawns.
  pub totals_exact :
      (ps : List (SpawnPayload host.Num))
      → ((totals host (completed ps)).total_cost_usd ≡ rounded_sum (sum_from none (costs ps)))
        × ((totals host (completed ps)).priced_spawns ≡ length (costs ps))
        × ((totals host (completed ps)).total_spawns ≡ decodable ps)
        × (length (costs ps) ≤ decodable ps)
  unfolding totals rounded_sum
  totals_exact ps =
      let (a, b, c) = tally_lem (nothing host) ps in
      (ground (arith, a), omega (arith, b), omega (arith, c), costs-le ps)
