-- ===== src/Artifacts/Selection/Spread/Distance.antt =====
-- Walks along the dependencies, and what the recorded priorities say of them.
use forge_os.Base.{
  ℕ, suc, ◌≤◌, ◌<◌, String, true, false, Option, none, some, List, ◌≡◌, refl, ◌∙◌, inl, inr, arith,
  ◌==◌, eq_iff, Has, Bool-cases,
}
use forge_os.Base.Dict.{Dict, lookup, insert, lookup-insert}
use forge_os.Artifacts.{Artifact}
use forge_os.Artifacts.Selection.Spread.{is_settled}

-- A path is `n` dependencies away from a source.
pub data Walk (artifacts : Dict Artifact) (sources : List String) : String → ℕ → Type 0 where
  at_source : (path : String) → Has path sources → Walk artifacts sources path 0
  along :
      (path : String) (n : ℕ) (artifact : Artifact) (dependency : String)
      → Walk artifacts sources path n
      → lookup path artifacts ≡ some artifact
      → Has dependency artifact.dependencies
      → Walk artifacts sources dependency (suc n)

-- the path has a priority, and it is at most `n`
abbrev pub Reached : Dict ℕ → String → ℕ → Type 0
Reached priorities path n = (m : ℕ) × (lookup path priorities ≡ some m) × (m ≤ n)

-- The priority of a path is the length of a shortest walk to it; a path with none has no walk.
abbrev pub IsDistance : Dict Artifact → List String → Dict ℕ → Type 0
IsDistance artifacts sources priorities =
    (path : String) (n : ℕ)
    → (lookup path priorities ≡ some n → Walk artifacts sources path n)
      × (Walk artifacts sources path n → Reached priorities path n)

-- From `before` to `after` priorities only fall, and those up to `n` stay.
pub record IsLowered (n : ℕ) (before after : Dict ℕ) : Type 0 where
  pub lower : (path : String) (m : ℕ) → Reached before path m → Reached after path m
  pub kept :
      (path : String) (m : ℕ) → lookup path before ≡ some m → m ≤ n → lookup path after ≡ some m

pub IsLowered-refl : (n : ℕ) (d : Dict ℕ) → IsLowered n d d
IsLowered-refl n d = record { lower = λ p m r. r; kept = λ p m e h. e }

pub IsLowered-trans : (n : ℕ) (d e f : Dict ℕ) → IsLowered n d e → IsLowered n e f → IsLowered n d f
IsLowered-trans n d e f a b = record {
  lower = λ p m r. b.lower p m (a.lower p m r);
  kept = λ p m h le. b.kept p m (a.kept p m h le) le;
}

pub IsLowered-mono : (m n : ℕ) (d e : Dict ℕ) → m ≤ n → IsLowered n d e → IsLowered m d e
IsLowered-mono m n d e le a = record {
  lower = a.lower;
  kept = λ p k h small. a.kept p k h (omega (arith, le, small));
}

-- a test that fails, against a priority that is there
unsettled : (o : Option ℕ) (n m : ℕ) → is_settled o n ≡ false → o ≡ some m → n < m
unsettled o n m h e = ground (arith, h, e)

pub settled-Reached :
    (d : Dict ℕ) (path : String) (n : ℕ) → is_settled (lookup path d) n ≡ true → Reached d path n
settled-Reached d path n h = go (lookup path d) refl h
  where
    go : (o : Option ℕ) → lookup path d ≡ o → is_settled o n ≡ true → Reached d path n
    go none e t = absurd (ground (arith, t))
    go (some m) e t = (m, e, ground (arith, t))

pub unsettled-Reached :
    (d : Dict ℕ) (path : String) (n m : ℕ)
    → is_settled (lookup path d) n ≡ false
    → Reached d path m
    → n < m
unsettled-Reached d path n m h (k, e, le) = omega (arith, unsettled (lookup path d) n k h e, le)

pub lookup-insert_self :
    (d : Dict ℕ) (path : String) (n : ℕ) → lookup path (insert path n d) ≡ some n
lookup-insert_self d path n = ground (arith, lookup-insert path path n d, eq_iff path path)

pub lookup-insert_other :
    (d : Dict ℕ) (path p : String) (n : ℕ)
    → (path == p) ≡ false
    → lookup p (insert path n d) ≡ lookup p d
lookup-insert_other d path p n h = ground (arith, lookup-insert path p n d, h)

module _ (d : Dict ℕ) (path : String) (n : ℕ) (new : is_settled (lookup path d) n ≡ false) where
  -- `priorities[path] = priority`, where that is new or lower
  pub IsLowered-insert : IsLowered n d (insert path n d)
  IsLowered-insert = record {
    lower = λ p m r. elim (Bool-cases (path == p)) [
      | inl e ↦ (n, same p e, smaller p m e r)
      | inr e ↦ (r.0, lookup-insert_other d path p n e ∙ r.1, r.2)
    ];
    kept = λ p m h le. elim (Bool-cases (path == p)) [
      | inl e ↦ absurd (below p m e h le)
      | inr e ↦ lookup-insert_other d path p n e ∙ h
    ];
  }
    where
      same : (p : String) → (path == p) ≡ true → lookup p (insert path n d) ≡ some n
      same p e = ground (arith, lookup-insert path p n d, e)

      smaller : (p : String) (m : ℕ) → (path == p) ≡ true → Reached d p m → n ≤ m
      smaller p m e (k, h, le) =
          omega (arith, le, unsettled (lookup path d) n k new (ground (arith, eq_iff path p, e, h)))

      below : (p : String) (m : ℕ) → (path == p) ≡ true → lookup p d ≡ some m → m ≤ n → ⊥
      below p m e h le =
          omega (arith, le, unsettled (lookup path d) n m new (ground (arith, eq_iff path p, e, h)))
