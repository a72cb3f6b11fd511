-- ===== src/Artifacts/Registry/Refresh/Turns.antt =====
-- One turn of the loop in `refresh`: what it does to the artifact at another place.
use mathlib.Core.Path.{subst}
use forge_os.Base.{
  ℕ, zero, suc, String, false, Option, none, some, List, [], ◌∷◌, ◌≡◌, refl, ap, sym, ◌∙◌, ◌⊎◌, inl,
  inr, arith, contains, ◌==◌, get_elem?, length, length-map, map, Has, Bool-cases,
}
use forge_os.Host.{Host}
use forge_os.Artifacts.{Artifact, ArtifactDocument}
use forge_os.Artifacts.Registry.{on_last}
use forge_os.Artifacts.Registry.Refresh.{
  Ref, Refreshing, mark_depth, freshened, mark_downstream_stale,
}
use forge_os.Artifacts.Rework.Affected.{unseen-bound}
use forge_os.Artifacts.Registry.Refresh.Depends.{
  Depends, itself, through, StaleAt, DependsAt, IsOver,
}
use forge_os.Artifacts.Registry.Refresh.Marks.{IsMarkedAfter, IsMarking, mark-Marks}

-- an artifact at the place, with the property
abbrev pub At : ArtifactDocument → ℕ → (Artifact → Type 0) → Type 0
At document i P = (b : Artifact) × (get_elem? document i ≡ some b) × P b

pub get_elem?-on_last :
    (path : String) (f : Artifact → Artifact) (document : ArtifactDocument) (j : ℕ) (b : Artifact)
    → get_elem? document j ≡ some b
    → (b.path == path) ≡ false
    → get_elem? (on_last path f document) j ≡ some b
unfolding on_last
get_elem?-on_last path f [] j b h n = h
get_elem?-on_last path f (a ∷ rest) zero b h n = ground (arith, h, n)
get_elem?-on_last path f (a ∷ rest) (suc j) b h n =
    ground (arith, h, get_elem?-on_last path f rest j b h n)

-- a change of the last artifact with a path keeps what the change keeps
pub on_last-At :
    (P : Artifact → Type 0) (path : String) (f : Artifact → Artifact)
    → ((b : Artifact) → P b → P (f b))
    → (document : ArtifactDocument) (j : ℕ) → At document j P
    → At (on_last path f document) j P
unfolding on_last
on_last-At P path f keep [] j (b, h, p) = absurd (ground (arith, h))
on_last-At P path f keep (a ∷ rest) j (b, h, p) =
    elim (Bool-cases (contains (map (λ c. c.path) rest) path)) [
      | inl e ↦ rw e (deeper (λ i k. on_last-At P path f keep rest i k) j b h p)
      | inr e ↦ rw e (elim (Bool-cases (a.path == path)) [
        | inl q ↦ rw q (first j b h p)
        | inr q ↦ rw q (b, h, p)
      ])
    ]
  where
    first : (j : ℕ) (b : Artifact) → get_elem? (a ∷ rest) j ≡ some b → P b → At (f a ∷ rest) j P
    first zero b h p = (f a, refl, keep a (subst P (unwrap b h) p))
      where
        unwrap : (c : Artifact) → get_elem? (a ∷ rest) zero ≡ some c → c ≡ a
        unwrap c k = ground (arith, k)
    first (suc j) b h p = (b, h, p)

    deeper :
        ((i : ℕ) → At rest i P → At (on_last path f rest) i P)
        → (j : ℕ) (b : Artifact) → get_elem? (a ∷ rest) j ≡ some b
        → P b
        → At (a ∷ on_last path f rest) j P
    deeper again zero b h p = (b, h, p)
    deeper again (suc j) b h p = again j (b, h, p)

module _ (host : Host) (refs : List Ref) where
  abbrev universe : String → List String
  universe source = source ∷ map (λ (r : Ref). r.1.path) refs

  listed : (source : String) (i : ℕ) (a : Artifact) → Has (i, a) refs → Has a.path (universe source)
  listed source i a m = inr (go refs m)
    where
      go : (l : List Ref) → Has (i, a) l → Has a.path (map (λ (r : Ref). r.1.path) l)
      go [] k = absurd k
      go (r ∷ l) (inl e) = inl (ap (λ (x : Ref). x.1.path) e)
      go (r ∷ l) (inr k) = inr (go l k)

  -- what depends on the source is stale after the marks
  Depends-stale :
      (source : String) (t : Refreshing)
      → IsMarking refs source [] t
      → Has source t.visited
      → (j : ℕ) → DependsAt refs source j
      → StaleAt t.document j
  Depends-stale source t v here j (a, path, m, has, dep) =
      (after path (reached path dep) j a m has).1
    where
      after : (x : String) → Has x t.visited → IsMarkedAfter refs source t x
      after x k = elim (v.closed x k) [ inl none_stacked ↦ absurd none_stacked | inr h ↦ h ]

      reached : (x : String) → Depends refs source x → Has x t.visited
      reached _ itself = here
      reached _ (through x i b d k q) = (after x (reached x d) i b k q).0

  -- `_mark_downstream_stale` ends; at a place whose path is another, it marks what depends on the
  -- path and leaves the rest as it was
  pub mark_downstream_stale-Ends :
      (source : String) (s : Refreshing)
      → IsOver refs source s.document
      → (t : Refreshing) × (mark_downstream_stale host refs source s ≡ some t)
        × IsOver refs source t.document
        × ((j : ℕ) (a : Artifact)
            → Has (j, a) refs
            → (a.path == source) ≡ false
            → (DependsAt refs source j → StaleAt t.document j)
              × ((get_elem? t.document j ≡ get_elem? s.document j)
                  ⊎ (StaleAt t.document j × DependsAt refs source j)))
  unfolding mark_downstream_stale mark_depth
  mark_downstream_stale-Ends source s over =
      let (t, q, l, v, here) =
        mark-Marks refs source host (universe source) (listed source) (suc (suc (length refs))) []
          source (record s { visited = [] })
          (omega
            (arith, unseen-bound (universe source) [], length-map (λ (r : Ref). r.1.path) refs))
          (inl refl) itself
          (record { sound = tt; stacked = tt; closed = λ x m. absurd m; over = over }) in
      (
        record t { document = on_last source freshened t.document },
        ap
            (λ (o : Option Refreshing). elim o [
              | none ↦ none
              | some u ↦ some (record u { document = on_last source freshened u.document })
            ])
            q,
        λ i a m.
            on_last-At (λ b. b.path ≡ a.path) source freshened (freshened-path a.path) t.document i
              (v.over i a m),
        λ j a m other. (
          λ d. untouched t j a m other v.over (Depends-stale source t v here j d),
          elim (l.only j) [
            | inl same ↦
                let (b, e, p) = over j a m in
                inl (
                  get_elem?-on_last source freshened t.document j b (same ∙ e) (another b a p other)
                  ∙ sym e)
            | inr (k, d) ↦ inr (untouched t j a m other v.over k, d)
          ],
        ),
      )
    where
      freshened-path : (path : String) (b : Artifact) → b.path ≡ path → (freshened b).path ≡ path
      freshened-path path b h = ground (arith, h)

      another :
          (b a : Artifact)
          → b.path ≡ a.path
          → (a.path == source) ≡ false
          → (b.path == source) ≡ false
      another b a p n = ground (arith, p, n)

      untouched :
          (t : Refreshing) (j : ℕ) (a : Artifact)
          → Has (j, a) refs
          → (a.path == source) ≡ false
          → IsOver refs source t.document
          → StaleAt t.document j
          → StaleAt (on_last source freshened t.document) j
      untouched t j a m other o (b, e, st) =
          let (c, e', p) = o j a m in
          (
            b,
            get_elem?-on_last source freshened t.document j b e
                (another b a (same b c a e e' p) other),
            st,
          )
        where
          same :
              (b c a : Artifact)
              → get_elem? t.document j ≡ some b
              → get_elem? t.document j ≡ some c
              → c.path ≡ a.path
              → b.path ≡ a.path
          same b c a e e' p = ground (arith, e, e', p)
