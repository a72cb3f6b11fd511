-- ===== src/Artifacts/Registry/Refresh/Outdated.antt =====
-- What a whole refresh leaves: what depends on a changed artifact is not fresh, and the rest is.
use mathlib.Core.Path.{subst}
use forge_os.Base.{
  ℕ, ◌+◌, String, Bool, true, false, Option, some, List, ◌≡◌, refl, ap, sym, ◌∙◌, ◌⊎◌, inl, inr,
  arith, get_elem?, nat_beq, Has, Bool-cases,
}
use forge_os.Base.Dict.{Dict}
use forge_os.Host.{Host}
use forge_os.Artifacts.{Artifact, ArtifactStatus, fresh, stale, missing, status_eq}
use forge_os.Artifacts.Registry.{snapshot}
use forge_os.Artifacts.Registry.Refresh.{
  Ref, Refreshing, update_at, renew, renewed_status, is_changed,
}
use forge_os.Artifacts.Registry.Refresh.Depends.{
  DependsAt, IsOver, get_elem?-update_self, get_elem?-update_other, same_place,
}
use forge_os.Artifacts.Registry.Refresh.Turns.{At}

module _ (host : Host) where
  abbrev pub is_missing : String → Bool
  is_missing path = status_eq (snapshot host path).status missing

  -- stale, or missing with no file at the path
  abbrev pub IsOutdated : String → Artifact → Type 0
  IsOutdated path b = (b.status ≡ stale) ⊎ ((b.status ≡ missing) × (is_missing path ≡ true))

  abbrev pub IsFresh : Artifact → Type 0
  IsFresh b = b.status ≡ fresh

  abbrev pub IsUnmarked : Artifact → Type 0
  IsUnmarked b = status_eq b.status stale ≡ false

  renewed_status-IsOutdated :
      (old found : ArtifactStatus)
      → (old ≡ stale) ⊎ ((old ≡ missing) × (status_eq found missing ≡ true))
      → (renewed_status found old ≡ stale)
        ⊎ ((renewed_status found old ≡ missing) × (status_eq found missing ≡ true))
  unfolding renewed_status
  renewed_status-IsOutdated old found (inl e) = elim (Bool-cases (status_eq found missing)) [
    | inl m ↦ inr (rw m refl, m)
    | inr m ↦ inl (rw (m, e) refl)
  ]
  renewed_status-IsOutdated old found (inr (e, m)) = inr (rw m refl, m)

  renewed_status-fresh :
      (old found : ArtifactStatus)
      → status_eq old stale ≡ false
      → status_eq found missing ≡ false
      → renewed_status found old ≡ fresh
  unfolding renewed_status
  renewed_status-fresh old found o f = rw (f, o) refl

  module _ (hashes : Dict (Option String)) (refs : List Ref) where
    -- a change at another place, or of an artifact with another path
    abbrev pub IsUnchanged : Ref → Type 0
    IsUnchanged r = is_changed host hashes r.1.path ≡ false

    unfoldable pub renewed : ℕ → Artifact → Refreshing → Refreshing
    unfolding update_at snapshot renew
    renewed i c s = record s {
      document = update_at i (renew host (snapshot host c.path) s.tick) s.document;
      tick = s.tick + 1;
    }

    -- what a property of the artifact at `j` is after the first half of a turn
    renewed-At :
        (P Q : Artifact → Type 0) (j : ℕ) (a : Artifact) (i : ℕ) (c : Artifact) (s : Refreshing)
        → IsOver refs c.path s.document
        → Has (j, a) refs
        → Has (i, c) refs
        → ((b : Artifact) (tick : ℕ) → P b → Q (renew host (snapshot host a.path) tick b))
        → (nat_beq i j ≡ false → (b : Artifact) → P b → Q b)
        → At s.document j P
        → At (renewed i c s).document j Q
    unfolding renewed
    renewed-At P Q j a i c s over mj mi keep other (b, e, p) = elim (Bool-cases (nat_beq i j)) [
      | inl q ↦
          let (b', e', p') = over i c mi in
          let (b'', e'', p'') = over j a mj in
          let same : c.path ≡ a.path =
            path_of b' b'' c a (ap (λ k. get_elem? s.document k) (same_place i j q)) e' e'' p'
              p'' in
          (
            renew host (snapshot host c.path) s.tick b,
            ap
                  (λ k.
                    get_elem? (update_at k (renew host (snapshot host c.path) s.tick) s.document) j)
                  (same_place i j q)
                ∙ get_elem?-update_self j (renew host (snapshot host c.path) s.tick) s.document b e,
            subst (λ z. Q (renew host (snapshot host z) s.tick b)) (sym same) (keep b s.tick p),
          )
      | inr q ↦ (
        b,
        get_elem?-update_other i (renew host (snapshot host c.path) s.tick) s.document j q ∙ e,
        other q b p,
      )
    ]
      where
        path_of :
            (x y c a : Artifact)
            → get_elem? s.document i ≡ get_elem? s.document j
            → get_elem? s.document i ≡ some x
            → get_elem? s.document j ≡ some y
            → x.path ≡ c.path
            → y.path ≡ a.path
            → c.path ≡ a.path
        path_of x y c a h ex ey px py = ground (arith, h, ex, ey, px, py)

    pub renewed-IsOver :
        (i : ℕ) (c : Artifact) (s : Refreshing)
        → Has (i, c) refs
        → IsOver refs c.path s.document
        → IsOver refs c.path (renewed i c s).document
    unfolding renew
    renewed-IsOver i c s mi over j a mj =
        renewed-At (λ b. b.path ≡ a.path) (λ b. b.path ≡ a.path) j a i c s over mj mi
          (λ b tick p. p) (λ _ b p. p) (over j a mj)

    -- what a turn for `(i, c)` keeps and makes of the artifact at `j`
    pub record IsTurned (r : Ref) (s t : Refreshing) (j : ℕ) (a : Artifact) : Type 0 where
      pub outdated : At s.document j (IsOutdated a.path) → At t.document j (IsOutdated a.path)
      pub marked :
          is_changed host hashes r.1.path ≡ true
          → DependsAt refs r.1.path j
          → At t.document j (IsOutdated a.path)
      pub unmarked :
          (is_changed host hashes r.1.path ≡ true → DependsAt refs r.1.path j → ⊥)
          → is_missing a.path ≡ false
          → At s.document j IsUnmarked
          → At t.document j IsUnmarked
      pub stays_fresh :
          (is_changed host hashes r.1.path ≡ true → DependsAt refs r.1.path j → ⊥)
          → is_missing a.path ≡ false
          → At s.document j IsFresh
          → At t.document j IsFresh
      pub becomes_fresh :
          (is_changed host hashes r.1.path ≡ true → DependsAt refs r.1.path j → ⊥)
          → is_missing a.path ≡ false
          → nat_beq r.0 j ≡ true
          → At s.document j IsUnmarked
          → At t.document j IsFresh

    module _ (i : ℕ) (c : Artifact) (s : Refreshing) (mi : Has (i, c) refs)
        (over : IsOver refs c.path s.document) (j : ℕ) (a : Artifact) (mj : Has (j, a) refs) where
      still :
          (old found : ArtifactStatus)
          → old ≡ fresh
          → status_eq found missing ≡ false
          → renewed_status found old ≡ fresh
      still old found o f = renewed_status-fresh old found (ap (λ z. status_eq z stale) o) f

      not_stale : (x : ArtifactStatus) → x ≡ fresh → status_eq x stale ≡ false
      not_stale x e = ap (λ z. status_eq z stale) e

      pub renewed-IsOutdated :
          At s.document j (IsOutdated a.path) → At (renewed i c s).document j (IsOutdated a.path)
      unfolding renew
      renewed-IsOutdated =
          renewed-At (IsOutdated a.path) (IsOutdated a.path) j a i c s over mj mi
            (λ b tick p. renewed_status-IsOutdated b.status (snapshot host a.path).status p)
            (λ _ b p. p)

      module _ (present : is_missing a.path ≡ false) where
        pub renewed-IsUnmarked :
            At s.document j IsUnmarked → At (renewed i c s).document j IsUnmarked
        unfolding renew
        renewed-IsUnmarked =
            renewed-At IsUnmarked IsUnmarked j a i c s over mj mi
              (λ b tick p.
                not_stale _ (renewed_status-fresh b.status (snapshot host a.path).status p present))
              (λ _ b p. p)

        pub renewed-stays-IsFresh : At s.document j IsFresh → At (renewed i c s).document j IsFresh
        unfolding renew
        renewed-stays-IsFresh =
            renewed-At IsFresh IsFresh j a i c s over mj mi
              (λ b tick p. still b.status (snapshot host a.path).status p present) (λ _ b p. p)

        pub renewed-becomes-IsFresh :
            nat_beq i j ≡ true → At s.document j IsUnmarked → At (renewed i c s).document j IsFresh
        unfolding renew
        renewed-becomes-IsFresh here =
            renewed-At IsUnmarked IsFresh j a i c s over mj mi
              (λ b tick p. renewed_status-fresh b.status (snapshot host a.path).status p present)
              (λ q b p. absurd (ground (arith, here, q)))
