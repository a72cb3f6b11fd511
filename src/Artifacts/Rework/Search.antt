-- ===== src/Artifacts/Rework/Search.antt =====
-- The loop that follows the edges, and what every round keeps.
use mathlib.Core.Path.{subst}
use forge_os.Base.{
  String, none, some, List, [], ◌∷◌, ◌++◌, ◌≡◌, sym, ◌⊎◌, inl, inr, arith, ◌==◌, All, Has,
  Has-append, All-append, All-mono, All-of_Has, find?-some,
}
use forge_os.Artifacts.{Artifact, ArtifactDocument, find}
use forge_os.Artifacts.Rework.Marking.{new_ones-All, new_ones-only}
use forge_os.Artifacts.Rework.{new_ones, seeds, all_dependents}

-- A path is reached: the target stage owns it, or an artifact that is reached names it as a
-- dependent. Of two artifacts with one path the first is the one that counts.
pub data Reaches (document : ArtifactDocument) (target : String) : String → Type 0 where
  own : (path : String) → Has path (seeds document target) → Reaches document target path
  dependent :
      (path : String) (artifact : Artifact) (next : String)
      → Reaches document target path
      → find document path ≡ some artifact
      → Has next artifact.dependents
      → Reaches document target next

-- the dependents of a path are in the set
unfoldable pub IsClosed : ArtifactDocument → List String → String → Type 0
IsClosed document affected path =
    (artifact : Artifact)
    → find document path ≡ some artifact
    → All (λ d. Has d affected) artifact.dependents

-- what the loop keeps
pub record IsSearch (document : ArtifactDocument) (target : String) (affected queue : List String)
    : Type 0 where
  pub reached : All (Reaches document target) affected
  pub queued : All (Reaches document target) queue
  pub owned : All (λ p. Has p affected) (seeds document target)
  pub closed : All (λ p. Has p queue ⊎ IsClosed document affected p) affected

pub all_dependents-find :
    (document : ArtifactDocument) (path : String) (artifact : Artifact)
    → find document path ≡ some artifact
    → All (λ d. Has d (all_dependents document)) artifact.dependents
unfolding find
all_dependents-find document path artifact h =
    within document (find?-some (λ a. a.path == path) document artifact h).0
  where
    within :
        (l : List Artifact)
        → Has artifact l
        → All (λ d. Has d (all_dependents l)) artifact.dependents
    within [] m = absurd m
    within (a ∷ l) (inl e) =
        All-of_Has (λ d. Has d (a.dependents ++ all_dependents l)) artifact.dependents
          (λ d m.
            Has-append d a.dependents (all_dependents l)
              (inl (subst (λ x. Has d x.dependents) (sym e) m)))
    within (a ∷ l) (inr m) =
        All-mono (λ d. Has d (all_dependents l)) (λ d. Has d (a.dependents ++ all_dependents l))
          (λ d k. Has-append d a.dependents (all_dependents l) (inr k)) artifact.dependents
          (within l m)

module _ (document : ArtifactDocument) (target : String) where
  -- a round that finds an artifact
  pub IsSearch-step :
      (current : String) (affected queue : List String) (artifact : Artifact)
      → find document current ≡ some artifact
      → IsSearch document target affected (current ∷ queue)
      → (let new = new_ones artifact.dependents affected in
          IsSearch document target (affected ++ new) (queue ++ new))
  unfolding IsClosed
  IsSearch-step current affected queue artifact e s = record {
    reached = All-append (Reaches document target) affected new s.reached fresh;
    queued = All-append (Reaches document target) queue new s.queued.1 fresh;
    owned =
        All-mono (λ p. Has p affected) (λ p. Has p (affected ++ new))
          (λ p m. Has-append p affected new (inl m)) (seeds document target) s.owned;
    closed =
        All-append (λ p. Has p (queue ++ new) ⊎ IsClosed document (affected ++ new) p) affected new
          (All-mono (λ p. Has p (current ∷ queue) ⊎ IsClosed document affected p)
            (λ p. Has p (queue ++ new) ⊎ IsClosed document (affected ++ new) p) kept affected
            s.closed)
          (All-of_Has (λ p. Has p (queue ++ new) ⊎ IsClosed document (affected ++ new) p) new
            (λ p m. inl (Has-append p queue new (inr m))));
  }
    where
      new : List String
      new = new_ones artifact.dependents affected

      fresh : All (Reaches document target) new
      fresh = new_ones-only (Reaches document target) artifact.dependents affected (
          All-of_Has (Reaches document target) artifact.dependents
            (λ d m. dependent current artifact d s.queued.0 e m))

      grown : (p : String) → IsClosed document affected p → IsClosed document (affected ++ new) p
      grown p c a h =
          All-mono (λ d. Has d affected) (λ d. Has d (affected ++ new))
            (λ d m. Has-append d affected new (inl m)) a.dependents (c a h)

      same : (a : Artifact) → find document current ≡ some a → artifact ≡ a
      same a h = ground (arith, e, h)

      kept :
          (p : String)
          → Has p (current ∷ queue) ⊎ IsClosed document affected p
          → Has p (queue ++ new) ⊎ IsClosed document (affected ++ new) p
      kept p (inr c) = inr (grown p c)
      kept p (inl (inr m)) = inl (Has-append p queue new (inl m))
      kept p (inl (inl h)) = inr (
          subst (IsClosed document (affected ++ new)) h (λ a found.
            subst (λ x. All (λ d. Has d (affected ++ new)) x.dependents) (same a found)
              (new_ones-All artifact.dependents affected)))

  -- a round that finds none
  pub IsSearch-skip :
      (current : String) (affected queue : List String)
      → find document current ≡ none
      → IsSearch document target affected (current ∷ queue)
      → IsSearch document target affected queue
  unfolding IsClosed
  IsSearch-skip current affected queue e s = record {
    reached = s.reached;
    queued = s.queued.1;
    owned = s.owned;
    closed =
        All-mono (λ p. Has p (current ∷ queue) ⊎ IsClosed document affected p)
          (λ p. Has p queue ⊎ IsClosed document affected p) kept affected s.closed;
  }
    where
      kept :
          (p : String)
          → Has p (current ∷ queue) ⊎ IsClosed document affected p
          → Has p queue ⊎ IsClosed document affected p
      kept p (inr c) = inr c
      kept p (inl (inr m)) = inl m
      kept p (inl (inl h)) =
          inr (subst (IsClosed document affected) h (λ a found. absurd (ground (arith, e, found))))
