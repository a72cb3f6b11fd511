-- ===== src/Artifacts/Registry/Refresh/Depends.antt =====
-- What depends on an artifact, and what the marks of `_mark_downstream_stale` do to a document.
use mathlib.Core.Path.{subst}
use forge_os.Base.{
  ℕ, zero, suc, String, true, false, Option, none, some, List, [], ◌∷◌, ◌≡◌, refl, ap, ◌∙◌, ◌⊎◌,
  inl, inr, arith, nat_beq, if◌then◌else◌, get_elem?, Has, Bool-cases,
}
use forge_os.Host.{Host}
use forge_os.Artifacts.{Artifact, ArtifactDocument, stale}
use forge_os.Artifacts.Registry.Refresh.{Ref, Refreshing, update_at, touch}

-- A path is the source, or an artifact that names one such among its dependencies.
pub data Depends (refs : List Ref) (source : String) : String → Type 0 where
  itself : Depends refs source source
  through :
      (path : String) (i : ℕ) (a : Artifact)
      → Depends refs source path
      → Has (i, a) refs
      → Has path a.dependencies
      → Depends refs source a.path

-- the artifact at the place is stale
abbrev pub StaleAt : ArtifactDocument → ℕ → Type 0
StaleAt document i = (b : Artifact) × (get_elem? document i ≡ some b) × (b.status ≡ stale)

abbrev pub map_option : {A B : Type 0} → (A → B) → Option A → Option B
map_option f none = none
map_option f (some a) = some (f a)

pub get_elem?-update_at :
    (i : ℕ) (f : Artifact → Artifact) (document : ArtifactDocument) (j : ℕ)
    → get_elem? (update_at i f document) j
      ≡ (if nat_beq i j then map_option f (get_elem? document j) else get_elem? document j)
unfolding update_at
get_elem?-update_at zero f [] zero = refl
get_elem?-update_at zero f [] (suc j) = ground arith
get_elem?-update_at (suc i) f [] zero = ground arith
get_elem?-update_at (suc i) f [] (suc j) = ground arith
get_elem?-update_at zero f (a ∷ rest) zero = refl
get_elem?-update_at zero f (a ∷ rest) (suc j) = ground arith
get_elem?-update_at (suc i) f (a ∷ rest) zero = ground arith
get_elem?-update_at (suc i) f (a ∷ rest) (suc j) = ground (arith, get_elem?-update_at i f rest j)

pub get_elem?-update_self :
    (i : ℕ) (f : Artifact → Artifact) (document : ArtifactDocument) (a : Artifact)
    → get_elem? document i ≡ some a
    → get_elem? (update_at i f document) i ≡ some (f a)
get_elem?-update_self i f document a h = ground (arith, get_elem?-update_at i f document i, h)

pub get_elem?-update_other :
    (i : ℕ) (f : Artifact → Artifact) (document : ArtifactDocument) (j : ℕ)
    → nat_beq i j ≡ false
    → get_elem? (update_at i f document) j ≡ get_elem? document j
get_elem?-update_other i f document j h = ground (arith, get_elem?-update_at i f document j, h)

pub same_place : (i j : ℕ) → nat_beq i j ≡ true → i ≡ j
same_place i j h = ground (arith, h)

module _ (refs : List Ref) (source : String) where
  -- an artifact of the place depends on the source, but is not the source by that alone
  abbrev pub DependsAt : ℕ → Type 0
  DependsAt i =
      (a : Artifact) × (path : String) × Has (i, a) refs
      × Has path a.dependencies
      × Depends refs source path

  -- the places hold artifacts with the paths that were there
  abbrev pub IsOver : ArtifactDocument → Type 0
  IsOver document =
      (i : ℕ) (a : Artifact)
      → Has (i, a) refs
      → (b : Artifact) × (get_elem? document i ≡ some b) × (b.path ≡ a.path)

  -- Between `s` and `t` there were only marks, of artifacts that depend on the source.
  pub record IsLater (s t : Refreshing) : Type 0 where
    pub visited : (x : String) → Has x s.visited → Has x t.visited
    pub stale_stays : (j : ℕ) → StaleAt s.document j → StaleAt t.document j
    pub over : IsOver s.document → IsOver t.document
    pub only :
        (j : ℕ)
        → (get_elem? t.document j ≡ get_elem? s.document j) ⊎ (StaleAt t.document j × DependsAt j)

  pub IsLater-refl : (s : Refreshing) → IsLater s s
  IsLater-refl s = record {
    visited = λ x m. m;
    stale_stays = λ j h. h;
    over = λ h. h;
    only = λ j. inl refl;
  }

  pub IsLater-trans : (s t u : Refreshing) → IsLater s t → IsLater t u → IsLater s u
  IsLater-trans s t u a b = record {
    visited = λ x m. b.visited x (a.visited x m);
    stale_stays = λ j h. b.stale_stays j (a.stale_stays j h);
    over = λ h. b.over (a.over h);
    only = λ j. elim (b.only j) [
      | inl same ↦ elim (a.only j) [
        | inl same' ↦ inl (same ∙ same')
        | inr (k, d) ↦ inr (b.stale_stays j k, d)
      ]
      | inr marked ↦ inr marked
    ];
  }

  module _ (host : Host) (i : ℕ) (s : Refreshing) where
    marked : Artifact → Artifact
    marked a = record a { status = stale; updated_at = host.utc_now s.tick }

    touch-StaleAt :
        IsOver s.document → (a : Artifact) → Has (i, a) refs → StaleAt (touch host i s).document i
    unfolding touch
    touch-StaleAt over a m =
        let (b, e, _) = over i a m in
        (
          record b { status = stale; updated_at = host.utc_now s.tick },
          get_elem?-update_self i _ s.document b e,
          refl,
        )

    pub IsLater-touch :
        IsOver s.document
        → (a : Artifact) (path : String) → Has (i, a) refs
        → Has path a.dependencies
        → Depends refs source path
        → IsLater s (touch host i s) × StaleAt (touch host i s).document i
    unfolding touch
    IsLater-touch over a path m has dep = (
      record {
        visited = λ x k. k;
        stale_stays = λ j h. elim (Bool-cases (nat_beq i j)) [
          | inl e ↦ subst (StaleAt next) (same_place i j e) (touch-StaleAt over a m)
          | inr e ↦ (h.0, get_elem?-update_other i _ s.document j e ∙ h.1, h.2)
        ];
        over = λ _ j c k. elim (Bool-cases (nat_beq i j)) [
          | inl e ↦ at_place j c e (over j c k)
          | inr e ↦
              let (b, q, p) = over j c k in (b, get_elem?-update_other i _ s.document j e ∙ q, p)
        ];
        only = λ j. elim (Bool-cases (nat_beq i j)) [
          | inl e ↦ inr (
            subst (StaleAt next) (same_place i j e) (touch-StaleAt over a m),
            subst DependsAt (same_place i j e) (a, path, m, has, dep),
          )
          | inr e ↦ inl (get_elem?-update_other i _ s.document j e)
        ];
      },
      touch-StaleAt over a m,
    )
      where
        next : ArtifactDocument
        next = (touch host i s).document

        at_place :
            (j : ℕ) (c : Artifact)
            → nat_beq i j ≡ true
            → (b : Artifact) × (get_elem? s.document j ≡ some b) × (b.path ≡ c.path)
            → (b : Artifact) × (get_elem? next j ≡ some b) × (b.path ≡ c.path)
        at_place j c e (b, q, p) =
            let f : Artifact → Artifact =
              λ x. record x { status = stale; updated_at = host.utc_now s.tick } in
            (
              f b,
              ap (λ k. get_elem? (update_at k f s.document) j) (same_place i j e)
                  ∙ get_elem?-update_self j f s.document b q,
              p,
            )
