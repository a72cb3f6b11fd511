-- ===== src/Artifacts/Registry/Paths.antt =====
-- The registry's operations keep the paths of the document.
use forge_os.Base.{
  ℕ, zero, suc, String, Bool, true, false, Option, none, some, List, [], ◌∷◌, ◌++◌, ◌≡◌, refl, ap,
  ◌∙◌, inl, inr, arith, contains, if◌then◌else◌, ◌==◌, eq_iff, AllDifferent, Bool-cases, nat_beq,
}
use Prim.Native.Char.{code}
use forge_os.Base.Dict.{Dict}
use forge_os.Host.{Host}
use forge_os.Artifacts.{Artifact, ArtifactDocument, find}
use forge_os.Artifacts.Registry.{with_slashes, on_last, on_first}
use forge_os.Artifacts.Registry.Dual.{paths}
use forge_os.Artifacts.Registry.Refresh.{
  Ref, Refreshing, update_at, renew, touch, mark_one, mark_dependents, mark, mark_downstream_stale,
  freshened, refresh_one, refresh_all, mark_depth,
}

update_at-paths :
    (f : Artifact → Artifact)
    → ((b : Artifact) → (f b).path ≡ b.path)
    → (i : ℕ) (d : ArtifactDocument) → paths (update_at i f d) ≡ paths d
unfolding update_at
update_at-paths f same i [] = refl
update_at-paths f same zero (a ∷ rest) = λ j. same a j ∷ paths rest
update_at-paths f same (suc i) (a ∷ rest) = ap (◌∷◌ a.path) (update_at-paths f same i rest)

on_last-paths :
    (path : String) (f : Artifact → Artifact)
    → ((b : Artifact) → (f b).path ≡ b.path)
    → (d : ArtifactDocument) → paths (on_last path f d) ≡ paths d
unfolding on_last
on_last-paths path f same [] = refl
on_last-paths path f same (a ∷ rest) = ground (arith, on_last-paths path f same rest, same a)

pub on_first-paths :
    (host : Host) (path : String) (f : Artifact → Artifact)
    → ((b : Artifact) → (f b).path ≡ b.path)
    → (d : ArtifactDocument) → paths (on_first host path f d) ≡ paths d
unfolding on_first
on_first-paths host path f same [] = refl
on_first-paths host path f same (a ∷ rest) =
    ground (arith, on_first-paths host path f same rest, same a)

-- the paths of a document that is there
abbrev pub HasPaths : List String → Option Refreshing → Type 0
HasPaths ps none = Unit
HasPaths ps (some t) = paths t.document ≡ ps

module _ (host : Host) (ps : List String) where
  abbrev pub KeepsPaths : (Refreshing → Option Refreshing) → Type 0
  KeepsPaths f = (s : Refreshing) → paths s.document ≡ ps → HasPaths ps (f s)

  -- one step after the other
  then-paths :
      (f g : Refreshing → Option Refreshing)
      → KeepsPaths f
      → KeepsPaths g
      → KeepsPaths (λ s. elim (f s) [ none ↦ none | some t ↦ g t ])
  then-paths f g kf kg s e = go (f s) (kf s e)
    where
      go :
          (o : Option Refreshing)
          → HasPaths ps o
          → HasPaths ps (elim o [ none ↦ none | some t ↦ g t ])
      go none h = tt
      go (some t) h = kg t h

  if-paths :
      (b : Bool) (f g : Refreshing → Option Refreshing)
      → KeepsPaths f
      → KeepsPaths g
      → KeepsPaths (λ s. if b then f s else g s)
  if-paths true f g kf kg = kf
  if-paths false f g kf kg = kg

  mark_dependents-paths :
      (f : String → Refreshing → Option Refreshing) (current : String)
      → ((path : String) → KeepsPaths (f path))
      → (rest : List Ref) → KeepsPaths (mark_dependents host f current rest)
  unfolding mark_dependents mark_one touch
  mark_dependents-paths f current keep [] s e = e
  mark_dependents-paths f current keep ((i, a) ∷ rest) start e' =
      then-paths (mark_one host f current (i, a)) (mark_dependents host f current rest)
        (if-paths (contains a.dependencies current) (λ s. f a.path (touch host i s)) (λ s. some s)
          (λ s e. keep a.path (touch host i s) (update_at-paths _ (λ b. refl) i s.document ∙ e))
          (λ s e. e))
        (mark_dependents-paths f current keep rest) start e'

  mark-paths : (fuel : ℕ) (refs : List Ref) (path : String) → KeepsPaths (mark host fuel refs path)
  unfolding mark
  mark-paths zero refs path s e = tt
  mark-paths (suc fuel) refs path s e =
      if-paths (contains s.visited path) (λ t. some t)
        (λ t.
          mark_dependents host (mark host fuel refs) path refs
            (record t { visited = s.visited ++ path ∷ [] }))
        (λ t q. q)
        (λ t q.
          mark_dependents-paths (mark host fuel refs) path (mark-paths fuel refs) refs
            (record t { visited = s.visited ++ path ∷ [] }) q)
        s e

  mark_downstream_stale-paths :
      (refs : List Ref) (path : String) → KeepsPaths (mark_downstream_stale host refs path)
  unfolding mark_downstream_stale
  mark_downstream_stale-paths refs path s e =
      then-paths (λ t. mark host (mark_depth refs) refs path (record t { visited = [] }))
        (λ t. some (record t { document = on_last path freshened t.document }))
        (λ t q. mark-paths (mark_depth refs) refs path (record t { visited = [] }) q)
        (λ t q. on_last-paths path freshened (λ b. ground arith) t.document ∙ q) s e

  pub refresh_all-paths :
      (hashes : Dict (Option String)) (refs rest : List Ref)
      → KeepsPaths (refresh_all host hashes refs rest)
  unfolding refresh_all refresh_one renew
  refresh_all-paths hashes refs [] s e = e
  refresh_all-paths hashes refs ((i, a) ∷ rest) start e' =
      then-paths (refresh_one host hashes refs (i, a)) (refresh_all host hashes refs rest)
        (λ s e.
          if-paths _ (λ t. mark_downstream_stale host refs a.path t) (λ t. some t)
            (λ t q. mark_downstream_stale-paths refs a.path t q) (λ t q. q) _
            (update_at-paths _ (λ b. refl) i s.document ∙ e))
        (refresh_all-paths hashes refs rest) start e'

pub AllDifferent-snoc :
    (xs : List String) (x : String)
    → AllDifferent xs
    → contains xs x ≡ false
    → AllDifferent (xs ++ x ∷ [])
AllDifferent-snoc [] x u n = (refl, tt)
AllDifferent-snoc (y ∷ xs) x u n = (
  apart xs (u.0) (ground (arith, n, eq_iff x y, eq_iff y x)),
  AllDifferent-snoc xs x u.1 (ground (arith, n)),
)
  where
    apart :
        (l : List String)
        → contains l y ≡ false
        → (x == y) ≡ false
        → contains (l ++ x ∷ []) y ≡ false
    apart [] h k = ground (arith, k)
    apart (z ∷ l) h k = ground (arith, h, apart l, k)

pub find-none :
    (d : ArtifactDocument) (path : String) → find d path ≡ none → contains (paths d) path ≡ false
unfolding find
find-none [] path h = refl
find-none (a ∷ d) path h = ground (arith, h, find-none d path)

pub paths-append :
    (d : ArtifactDocument) (a : Artifact) → paths (d ++ a ∷ []) ≡ paths d ++ a.path ∷ []
paths-append [] a = refl
paths-append (x ∷ d) a = ap (◌∷◌ x.path) (paths-append d a)

pub with_slashes-twice : (s : String) → with_slashes (with_slashes s) ≡ with_slashes s
unfolding with_slashes
with_slashes-twice String.[] = refl
with_slashes-twice (String.◌∷◌ c s) = elim (Bool-cases (nat_beq (code c) 92)) [
  | inl e ↦ rw e (ap (String.◌∷◌ "/") (with_slashes-twice s))
  | inr e ↦ rw (e, e) (ap (String.◌∷◌ c) (with_slashes-twice s))
]
