-- ===== src/Artifacts/Registry/Refresh/Rounds.antt =====
-- The loop in `refresh` and the document that it saves.
use mathlib.Core.Path.{subst}
use forge_os.Base.{
  ℕ, String, true, false, Option, none, some, List, [], ◌∷◌, ◌≡◌, refl, ap, sym, ◌∙◌, ◌⊎◌, inl, inr,
  arith, ◌==◌, eq_iff, get_elem?, nat_beq, All, Has, Bool-cases,
}
use forge_os.Base.Dict.{Dict}
use forge_os.Host.{Host}
use forge_os.Artifacts.{Artifact, ArtifactDocument}
use forge_os.Artifacts.Registry.Refresh.{
  Ref, Refreshing, mark_downstream_stale, is_changed, refresh_one, refresh_all,
}
use forge_os.Artifacts.Registry.Refresh.Depends.{StaleAt, DependsAt, IsOver}
use forge_os.Artifacts.Registry.Refresh.Turns.{At, mark_downstream_stale-Ends}
use forge_os.Artifacts.Registry.Refresh.Outdated.{
  is_missing, IsOutdated, IsFresh, IsUnmarked, IsTurned, renewed, renewed-IsOver,
  renewed-IsOutdated, renewed-IsUnmarked, renewed-stays-IsFresh, renewed-becomes-IsFresh,
}

module _ (host : Host) (hashes : Dict (Option String)) (refs : List Ref) where
  -- no artifact of the list is changed and has a dependent at the place
  abbrev pub IsUntouched : List Ref → ℕ → Type 0
  IsUntouched rest j =
      All (λ r. is_changed host hashes r.1.path ≡ true → DependsAt refs r.1.path j → ⊥) rest

  another :
      (a c : Artifact)
      → is_changed host hashes a.path ≡ false
      → is_changed host hashes c.path ≡ true
      → (a.path == c.path) ≡ false
  another a c p q = elim (Bool-cases (a.path == c.path)) [
    | inl e ↦ absurd (clash (ground (arith, eq_iff a.path c.path, e)))
    | inr e ↦ e
  ]
    where
      clash : a.path ≡ c.path → ⊥
      clash e = ground (arith, sym p ∙ ap (is_changed host hashes) e ∙ q)

  unless_changed :
      (i : ℕ) (c : Artifact) (s : Refreshing)
      → is_changed host hashes c.path ≡ false
      → refresh_one host hashes refs (i, c) s ≡ some (renewed host hashes refs i c s)
  unfolding refresh_one renewed
  unless_changed i c s e = rw e refl

  if_changed :
      (i : ℕ) (c : Artifact) (s : Refreshing)
      → is_changed host hashes c.path ≡ true
      → refresh_one host hashes refs (i, c) s
        ≡ mark_downstream_stale host refs c.path (renewed host hashes refs i c s)
  unfolding refresh_one renewed
  if_changed i c s e = rw e refl

  moved :
      (P : Artifact → Type 0) (d e : ArtifactDocument) (j : ℕ)
      → get_elem? e j ≡ get_elem? d j
      → At d j P
      → At e j P
  moved P d e j same (b, q, p) = (b, same ∙ q, p)

  IsTurned-marked :
      (i : ℕ) (c : Artifact) (s t : Refreshing) (mi : Has (i, c) refs)
      (over : IsOver refs c.path s.document) (changed : is_changed host hashes c.path ≡ true)
      (j : ℕ) (a : Artifact) (mj : Has (j, a) refs)
      → (DependsAt refs c.path j → StaleAt t.document j)
      → ((get_elem? t.document j ≡ get_elem? (renewed host hashes refs i c s).document j)
          ⊎ (StaleAt t.document j × DependsAt refs c.path j))
      → IsTurned host hashes refs (i, c) s t j a
  IsTurned-marked i c s t mi over changed j a mj marks only = record {
    outdated = λ p. spread only (renewed-IsOutdated host hashes refs i c s mi over j a mj p);
    marked = λ _ d. outdated (marks d);
    unmarked = λ free present p.
        moved (λ b. IsUnmarked host b) mid t.document j (same free only)
          (renewed-IsUnmarked host hashes refs i c s mi over j a mj present p);
    stays_fresh = λ free present p.
        moved (λ b. IsFresh host b) mid t.document j (same free only)
          (renewed-stays-IsFresh host hashes refs i c s mi over j a mj present p);
    becomes_fresh = λ free present here p.
        moved (λ b. IsFresh host b) mid t.document j (same free only)
          (renewed-becomes-IsFresh host hashes refs i c s mi over j a mj present here p);
  }
    where
      mid : ArtifactDocument
      mid = (renewed host hashes refs i c s).document

      outdated : StaleAt t.document j → At t.document j (IsOutdated host a.path)
      outdated (b, q, st) = (b, q, inl st)

      spread :
          ((get_elem? t.document j ≡ get_elem? mid j)
            ⊎ (StaleAt t.document j × DependsAt refs c.path j))
          → At mid j (IsOutdated host a.path)
          → At t.document j (IsOutdated host a.path)
      spread (inl e) p = moved (IsOutdated host a.path) mid t.document j e p
      spread (inr (k, _)) p = outdated k

      same :
          (is_changed host hashes c.path ≡ true → DependsAt refs c.path j → ⊥)
          → ((get_elem? t.document j ≡ get_elem? mid j)
              ⊎ (StaleAt t.document j × DependsAt refs c.path j))
          → get_elem? t.document j ≡ get_elem? mid j
      same free (inl e) = e
      same free (inr (_, d)) = absurd (free changed d)

  IsTurned-renewed :
      (i : ℕ) (c : Artifact) (s : Refreshing) (mi : Has (i, c) refs)
      (over : IsOver refs c.path s.document) (kept : is_changed host hashes c.path ≡ false) (j : ℕ)
      (a : Artifact) (mj : Has (j, a) refs)
      → IsTurned host hashes refs (i, c) s (renewed host hashes refs i c s) j a
  IsTurned-renewed i c s mi over kept j a mj = record {
    outdated = renewed-IsOutdated host hashes refs i c s mi over j a mj;
    marked = λ e _. absurd (ground (arith, e, kept));
    unmarked = λ _ present. renewed-IsUnmarked host hashes refs i c s mi over j a mj present;
    stays_fresh = λ _ present. renewed-stays-IsFresh host hashes refs i c s mi over j a mj present;
    becomes_fresh =
        λ _ present. renewed-becomes-IsFresh host hashes refs i c s mi over j a mj present;
  }

  -- a turn that ends, for all places of unchanged artifacts
  abbrev Turns : Ref → Refreshing → Option Refreshing → Type 0
  Turns r s result =
      (t : Refreshing) × (result ≡ some t)
      × IsOver refs r.1.path t.document
      × ((j : ℕ) (a : Artifact)
          → Has (j, a) refs
          → is_changed host hashes a.path ≡ false
          → IsTurned host hashes refs r s t j a)

  refresh_one-Turns :
      (i : ℕ) (c : Artifact) (s : Refreshing)
      → Has (i, c) refs
      → IsOver refs c.path s.document
      → Turns (i, c) s (refresh_one host hashes refs (i, c) s)
  refresh_one-Turns i c s mi over = elim (Bool-cases (is_changed host hashes c.path)) [
    | inl e ↦
        let over' = renewed-IsOver host hashes refs i c s mi over in
        let (t, q, over'', f) =
          mark_downstream_stale-Ends host refs c.path (renewed host hashes refs i c s) over' in
        (
          t,
          if_changed i c s e ∙ q,
          over'',
          λ j a mj u.
              let (marks, only) = f j a mj (another a c u e) in
              IsTurned-marked i c s t mi over e j a mj marks only,
        )
    | inr e ↦ (
      renewed host hashes refs i c s,
      unless_changed i c s e,
      renewed-IsOver host hashes refs i c s mi over,
      λ j a mj _. IsTurned-renewed i c s mi over e j a mj,
    )
  ]

  -- the loop ends, whatever artifacts are left
  abbrev pub Rounds : List Ref → Refreshing → Option Refreshing → Type 0
  Rounds rest s result =
      (t : Refreshing) × (result ≡ some t)
      × ((j : ℕ) (a : Artifact)
          → Has (j, a) refs
          → is_changed host hashes a.path ≡ false
          → (At s.document j (IsOutdated host a.path) → At t.document j (IsOutdated host a.path))
            × ((i : ℕ) (c : Artifact)
                → Has (i, c) rest
                → is_changed host hashes c.path ≡ true
                → DependsAt refs c.path j
                → At t.document j (IsOutdated host a.path))
            × (IsUntouched rest j
                → is_missing host a.path ≡ false
                → (At s.document j (λ b. IsFresh host b) → At t.document j (λ b. IsFresh host b))
                  × (Has (j, a) rest
                      → At s.document j (λ b. IsUnmarked host b)
                      → At t.document j (λ b. IsFresh host b))))

  pub refresh_all-Rounds :
      (rest : List Ref) (s : Refreshing)
      → All (λ r. Has r refs) rest
      → IsOver refs "" s.document
      → Rounds rest s (refresh_all host hashes refs rest s)
  unfolding refresh_all
  refresh_all-Rounds [] s m over =
      (s, refl, λ j a mj u. (λ p. p, λ i c k. absurd k, λ _ _. (λ p. p, λ k. absurd k)))
  refresh_all-Rounds ((i, c) ∷ rest) s m over =
      let (t, q, over', f) = refresh_one-Turns i c s m.0 over in
      let (u, q', g) = refresh_all-Rounds rest t m.1 over' in
      (
        u,
        ap
              (λ (o : Option Refreshing). elim o [
                | none ↦ none
                | some w ↦ refresh_all host hashes refs rest w
              ])
              q
            ∙ q',
        λ j a mj un.
            let turn = f j a mj un in
            let (stays, comes, clean) = g j a mj un in
            (
              λ p. stays (turn.outdated p),
              λ k d mk changed dep. elim mk [
                | inl e ↦ stays (turn.marked (ap_changed e changed) (ap_depends e j dep))
                | inr later ↦ comes k d later changed dep
              ],
              λ free present. (
                λ p. (clean free.1 present).0 (turn.stays_fresh free.0 present p),
                λ mk p. elim mk [
                  | inl e ↦
                      (clean free.1 present).0 (turn.becomes_fresh free.0 present (ap_place e) p)
                  | inr later ↦ (clean free.1 present).1 later (turn.unmarked free.0 present p)
                ],
              ),
            ),
      )
    where
      ap_changed :
          {k : ℕ} {d : Artifact}
          → ◌≡◌ {A = Ref} (i, c) (k, d)
          → is_changed host hashes d.path ≡ true
          → is_changed host hashes c.path ≡ true
      ap_changed e h = ap (λ (r : Ref). is_changed host hashes r.1.path) e ∙ h

      ap_depends :
          {k : ℕ} {d : Artifact}
          → ◌≡◌ {A = Ref} (i, c) (k, d)
          → (j : ℕ) → DependsAt refs d.path j
          → DependsAt refs c.path j
      ap_depends e j = subst (λ (r : Ref). DependsAt refs r.1.path j) (sym e)

      ap_place : {k : ℕ} {d : Artifact} → ◌≡◌ {A = Ref} (i, c) (k, d) → nat_beq i k ≡ true
      ap_place {k} e = let p : i ≡ k = ap (λ (r : Ref). r.0) e in ground (arith, p)
