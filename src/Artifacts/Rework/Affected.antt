-- ===== src/Artifacts/Rework/Affected.antt =====
-- The affected artifacts are those that the edges reach from the target stage's own.
use forge_os.Base.{
  ℕ, zero, suc, ◌+◌, ◌≤◌, ◌<◌, String, Option, none, some, List, [], ◌∷◌, ◌++◌, ◌≡◌, refl, ap, ◌⊎◌,
  inl, inr, arith, length, All, Has, All-has, All-of_Has, length-append,
}
use forge_os.Base.Sort.{sorted, All-sorted, Has-sorted}
use forge_os.Base.Text.{str_leb}
use forge_os.Artifacts.{Artifact, ArtifactDocument, find}
use forge_os.Artifacts.Rework.Marking.{unseen, new_ones-unseen, new_ones-All, new_ones-only}
use forge_os.Artifacts.Rework.Search.{
  Reaches, own, dependent, IsClosed, IsSearch, IsSearch-step, IsSearch-skip, all_dependents-find,
}
use forge_os.Artifacts.Rework.{
  new_ones, traverse, seeds, all_dependents, rounds, stage_ids, get_affected_artifacts,
}

module _ (document : ArtifactDocument) (target : String) where
  -- the set holds the paths that are reached, and no other
  abbrev pub IsReached : List String → Type 0
  IsReached paths =
      (path : String)
      → (Has path paths → Reaches document target path)
        × (Reaches document target path → Has path paths)

  search-done : (affected : List String) → IsSearch document target affected [] → IsReached affected
  unfolding IsClosed
  search-done affected s path =
      (All-has (Reaches document target) path affected s.reached, complete path)
    where
      complete : (p : String) → Reaches document target p → Has p affected
      complete p (own _ m) = All-has (λ q. Has q affected) p (seeds document target) s.owned m
      complete next (dependent p a _ r e m) =
          elim (All-has (λ q. Has q [] ⊎ IsClosed document affected q) p affected s.closed
            (complete p r)) [
              | inl n ↦ absurd n
              | inr c ↦ All-has (λ d. Has d affected) next a.dependents (c a e) m
            ]

  -- with more rounds than there is in the queue and unseen, the loop ends
  traverse-done :
      (n : ℕ) (affected queue : List String)
      → length queue + unseen (all_dependents document) affected < n
      → IsSearch document target affected queue
      → (paths : List String) × ((traverse n document affected queue ≡ some paths)
          × IsReached paths)
  unfolding traverse
  traverse-done zero affected queue h s = absurd (omega (arith, h))
  traverse-done (suc n) affected [] h s = (affected, (refl, search-done affected s))
  traverse-done (suc n) affected (current ∷ queue) h s =
      go (find document current) refl (λ a q. traverse-done n a q)
    where
      go :
          (o : Option Artifact)
          → find document current ≡ o
          → ((seen rest : List String)
              → length rest + unseen (all_dependents document) seen < n
              → IsSearch document target seen rest
              → (paths : List String) × ((traverse n document seen rest ≡ some paths)
                  × IsReached paths))
          → (paths : List String) × ((elim o [
            | none ↦ traverse n document affected queue
            | some artifact ↦
                traverse n document
                  (affected ++ new_ones artifact.dependents affected)
                  (queue ++ new_ones artifact.dependents affected)
          ]
                ≡ some paths)
              × IsReached paths)
      go none e again =
          again affected queue (omega (arith, h))
            (IsSearch-skip document target current affected queue e s)
      go (some a) e again =
          again (affected ++ new_ones a.dependents affected)
            (queue ++ new_ones a.dependents affected)
            (omega (
              arith,
              h,
              new_ones-unseen (all_dependents document) a.dependents affected
                  (all_dependents-find document current a e),
              length-append queue (new_ones a.dependents affected),
            ))
            (IsSearch-step document target current affected queue a e s)

  -- the set and the queue before the loop
  IsSearch-start :
      IsSearch document target (new_ones (seeds document target) []) (seeds document target)
  IsSearch-start = record {
    reached = new_ones-only (Reaches document target) (seeds document target) [] owns;
    queued = owns;
    owned = new_ones-All (seeds document target) [];
    closed =
        new_ones-only
          (λ p.
            Has p (seeds document target)
            ⊎ IsClosed document (new_ones (seeds document target) []) p)
          (seeds document target) []
          (All-of_Has
            (λ p.
              Has p (seeds document target)
              ⊎ IsClosed document (new_ones (seeds document target) []) p)
            (seeds document target) (λ p m. inl m));
  }
    where
      owns : All (Reaches document target) (seeds document target)
      owns = All-of_Has (Reaches document target) (seeds document target) (λ p m. own p m)

pub unseen-bound : (us seen : List String) → unseen us seen ≤ length us
unseen-bound [] seen = omega arith
unseen-bound (u ∷ us) seen = ground (arith, unseen-bound us seen)

enough :
    (document : ArtifactDocument) (target : String)
    → length (seeds document target)
        + unseen (all_dependents document) (new_ones (seeds document target) [])
      < rounds document target
unfolding rounds
enough document target =
    omega (arith, unseen-bound (all_dependents document) (new_ones (seeds document target) []))

-- The walk over the artifact graph ends, cycles or not, and its affected artifacts are those that the
-- target stage owns or that the dependents' edges reach from them, and no other.
pub get_affected_artifacts-IsReached :
    (document : ArtifactDocument) (target : String)
    → (plan : List String × List String) × ((get_affected_artifacts document target ≡ some plan)
        × IsReached document target plan.0)
unfolding get_affected_artifacts
get_affected_artifacts-IsReached document target =
    let (found, (e, r)) =
      traverse-done document target (rounds document target) (new_ones (seeds document target) [])
        (seeds document target) (enough document target) (IsSearch-start document target) in
    (
      (sorted str_leb found, sorted str_leb (new_ones (stage_ids document found target) [])),
      (
        ap (λ o. planned o) e,
        λ path. (
          λ m.
              All-has (Reaches document target) path (sorted str_leb found)
                (All-sorted (Reaches document target) str_leb found
                  (All-of_Has (Reaches document target) found (λ p k. (r p).0 k)))
                m,
          λ k. Has-sorted str_leb path found ((r path).1 k),
        ),
      ),
    )
  where
    planned : Option (List String) → Option (List String × List String)
    planned o = elim o [
      | none ↦ none
      | some affected ↦ some (
        sorted str_leb affected,
        sorted str_leb (new_ones (stage_ids document affected target) []),
      )
    ]
