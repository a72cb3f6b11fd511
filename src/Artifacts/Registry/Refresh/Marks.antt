-- ===== src/Artifacts/Registry/Refresh/Marks.antt =====
-- `mark` ends, and leaves everything stale that depends on its path, and nothing else changed.
use mathlib.Core.Path.{subst}
use forge_os.Base.{
  ℕ, zero, suc, ◌<◌, String, Bool, false, Option, none, some, List, [], ◌∷◌, ◌++◌, ◌≡◌, refl, ap,
  ◌∙◌, ◌⊎◌, inl, inr, arith, contains, if◌then◌else◌, All, Has, All-append, All-mono, All-has,
  All-of_Has, Has-append, Has-snoc, contains-of_Has, Bool-cases,
}
use forge_os.Host.{Host}
use forge_os.Artifacts.{Artifact}
use forge_os.Artifacts.Rework.Marking.{unseen, unseen-lt, contains-Has}
use forge_os.Artifacts.Registry.Refresh.{Ref, Refreshing, touch, mark_one, mark_dependents, mark}
use forge_os.Artifacts.Registry.Refresh.Depends.{
  Depends, through, StaleAt, IsOver, IsLater, IsLater-refl, IsLater-trans, IsLater-touch,
}

module _ (refs : List Ref) (source : String) where
  -- the artifacts that name the path are visited and stale
  abbrev pub IsMarkedAfter : Refreshing → String → Type 0
  IsMarkedAfter s x =
      (i : ℕ) (a : Artifact)
      → Has (i, a) refs
      → Has x a.dependencies
      → Has a.path s.visited × StaleAt s.document i

  -- what holds while the paths of the stack are being marked
  pub record IsMarking (stack : List String) (s : Refreshing) : Type 0 where
    pub sound : All (Depends refs source) s.visited
    pub stacked : All (λ x. Has x s.visited) stack
    pub closed : (x : String) → Has x s.visited → Has x stack ⊎ IsMarkedAfter s x
    pub over : IsOver refs source s.document

  -- a mark of the path that ends
  abbrev pub Marks : List String → Refreshing → String → Option Refreshing → Type 0
  Marks stack s path result =
      (t : Refreshing) × (result ≡ some t)
      × IsLater refs source s t
      × IsMarking stack t
      × Has path t.visited

  IsMarkedAfter-later :
      (s t : Refreshing) (x : String)
      → IsLater refs source s t
      → IsMarkedAfter s x
      → IsMarkedAfter t x
  IsMarkedAfter-later s t x l h i a m has =
      let (v, k) = h i a m has in (l.visited a.path v, l.stale_stays i k)

  module _ (host : Host) (f : String → Refreshing → Option Refreshing) (stack : List String)
      (current : String) where
    -- what the loop leaves for one artifact
    abbrev IsDoneFor : Refreshing → Ref → Type 0
    IsDoneFor t r = Has current r.1.dependencies → Has r.1.path t.visited × StaleAt t.document r.0

    abbrev Works : Ref → Type 0
    Works r =
        Has r refs
        × ((s : Refreshing)
            → Has current r.1.dependencies
            → IsMarking stack s
            → Marks stack s r.1.path (f r.1.path s))

    IsMarking-touch :
        (i : ℕ) (s : Refreshing)
        → IsLater refs source s (touch host i s)
        → IsMarking stack s
        → IsMarking stack (touch host i s)
    unfolding touch
    IsMarking-touch i s l v = record {
      sound = v.sound;
      stacked = v.stacked;
      closed = λ x m. elim (v.closed x m) [
        | inl k ↦ inl k
        | inr h ↦ inr (IsMarkedAfter-later s (touch host i s) x l h)
      ];
      over = l.over v.over;
    }

    mark_one-Marks :
        (r : Ref) (s : Refreshing)
        → Works r
        → Depends refs source current
        → IsMarking stack s
        → (t : Refreshing) × (mark_one host f current r s ≡ some t)
          × IsLater refs source s t
          × IsMarking stack t
          × IsDoneFor t r
    unfolding mark_one
    mark_one-Marks (i, a) s (m, works) dep v = elim (Bool-cases (contains a.dependencies current)) [
      | inl e ↦
          let has = contains-Has a.dependencies current e in
          let (l, stale) = IsLater-touch refs source host i s v.over a current m has dep in
          let (t, q, l', v', k) = works (touch host i s) has (IsMarking-touch i s l v) in
          (
            t,
            ap (λ (b : Bool). if b then f a.path (touch host i s) else some s) e ∙ q,
            IsLater-trans refs source s (touch host i s) t l l',
            v',
            λ _. (k, l'.stale_stays i stale),
          )
      | inr e ↦ (
        s,
        ap (λ (b : Bool). if b then f a.path (touch host i s) else some s) e,
        IsLater-refl refs source s,
        v,
        λ has. absurd (ground (arith, contains-of_Has a.dependencies current has, e)),
      )
    ]

    pub mark_dependents-Marks :
        (rest : List Ref) (s : Refreshing)
        → All Works rest
        → Depends refs source current
        → IsMarking stack s
        → (t : Refreshing) × (mark_dependents host f current rest s ≡ some t)
          × IsLater refs source s t
          × IsMarking stack t
          × All (IsDoneFor t) rest
    unfolding mark_dependents
    mark_dependents-Marks [] s works dep v = (s, refl, IsLater-refl refs source s, v, tt)
    mark_dependents-Marks (r ∷ rest) s works dep v =
        let (t, q, l, v', done) = mark_one-Marks r s works.0 dep v in
        let (u, q', l', v'', dones) = mark_dependents-Marks rest t works.1 dep v' in
        (
          u,
          ap
                (λ (o : Option Refreshing). elim o [
                  | none ↦ none
                  | some w ↦ mark_dependents host f current rest w
                ])
                q
              ∙ q',
          IsLater-trans refs source s t u l l',
          v'',
          (
            λ has. let (k, stale) = done has in (l'.visited r.1.path k, l'.stale_stays r.0 stale),
            dones,
          ),
        )

  IsMarking-enter :
      (stack : List String) (path : String) (s : Refreshing)
      → Depends refs source path
      → IsMarking stack s
      → IsMarking (stack ++ path ∷ []) (record s { visited = s.visited ++ path ∷ [] })
  IsMarking-enter stack path s dep v = record {
    sound = All-append (Depends refs source) s.visited (path ∷ []) v.sound (dep, tt);
    stacked =
        All-append (λ x. Has x (s.visited ++ path ∷ [])) stack (path ∷ [])
          (All-mono (λ x. Has x s.visited) (λ x. Has x (s.visited ++ path ∷ []))
            (λ x m. Has-append x s.visited (path ∷ []) (inl m)) stack v.stacked)
          (Has-append path s.visited (path ∷ []) (inr (inl refl)), tt);
    closed = λ x m. elim (Has-snoc x path s.visited m) [
      | inl k ↦ kept x (v.closed x k)
      | inr e ↦ inl (Has-append x stack (path ∷ []) (inr (inl e)))
    ];
    over = v.over;
  }
    where
      kept :
          (x : String)
          → Has x stack ⊎ IsMarkedAfter s x
          → Has x (stack ++ path ∷ [])
            ⊎ IsMarkedAfter (record s { visited = s.visited ++ path ∷ [] }) x
      kept x (inl k) = inl (Has-append x stack (path ∷ []) (inl k))
      kept x (inr h) = inr (λ i a m has.
          let (q, stale) = h i a m has in (Has-append a.path s.visited (path ∷ []) (inl q), stale))

  IsMarking-leave :
      (stack : List String) (path : String) (t : Refreshing)
      → IsMarkedAfter t path
      → IsMarking (stack ++ path ∷ []) t
      → IsMarking stack t
  IsMarking-leave stack path t own v = record {
    sound = v.sound;
    stacked =
        All-of_Has (λ x. Has x t.visited) stack
          (λ x m.
            All-has (λ z. Has z t.visited) x (stack ++ path ∷ []) v.stacked
              (Has-append x stack (path ∷ []) (inl m)));
    closed = λ x m. elim (v.closed x m) [
      | inl k ↦ elim (Has-snoc x path stack k) [
        | inl old ↦ inl old
        | inr e ↦ inr (subst (IsMarkedAfter t) e own)
      ]
      | inr h ↦ inr h
    ];
    over = v.over;
  }

  not_stacked :
      (stack : List String) (path : String) (s : Refreshing)
      → contains s.visited path ≡ false
      → IsMarking stack s
      → contains stack path ≡ false
  not_stacked stack path s e v = elim (Bool-cases (contains stack path)) [
    | inl k ↦ absurd (
        ground (
          arith,
          e,
          contains-of_Has s.visited path
              (All-has (λ x. Has x s.visited) path stack v.stacked (contains-Has stack path k)),
        ))
    | inr k ↦ k
  ]

  module _ (host : Host) (universe : List String)
      (listed : (i : ℕ) (a : Artifact) → Has (i, a) refs → Has a.path universe) where
    -- With more fuel than there are paths off the stack, `mark` ends.
    pub mark-Marks :
        (fuel : ℕ) (stack : List String) (path : String) (s : Refreshing)
        → unseen universe stack < fuel
        → Has path universe
        → Depends refs source path
        → IsMarking stack s
        → Marks stack s path (mark host fuel refs path s)
    unfolding mark
    mark-Marks zero stack path s h m dep v = absurd (omega (arith, h))
    mark-Marks (suc fuel) stack path s h m dep v = elim (Bool-cases (contains s.visited path)) [
      | inl e ↦ (s, rw e refl, IsLater-refl refs source s, v, contains-Has s.visited path e)
      | inr e ↦
          let (t, q, l, v', dones) =
            mark_dependents-Marks host (mark host fuel refs) (stack ++ path ∷ []) path refs entered
              (All-of_Has _ refs (λ r k. (
                k,
                λ u has w.
                    mark-Marks fuel (stack ++ path ∷ []) r.1.path u (smaller e) (listed r.0 r.1 k)
                      (through path r.0 r.1 dep k has) w,
              )))
              dep (IsMarking-enter stack path s dep v) in
          (
            t,
            rw e q,
            IsLater-trans refs source s entered t growing l,
            IsMarking-leave stack path t (λ i a k has. All-has _ (i, a) refs dones k has) v',
            l.visited path (Has-append path s.visited (path ∷ []) (inr (inl refl))),
          )
    ]
      where
        entered : Refreshing
        entered = record s { visited = s.visited ++ path ∷ [] }

        growing : IsLater refs source s entered
        growing = record {
          visited = λ x k. Has-append x s.visited (path ∷ []) (inl k);
          stale_stays = λ j k. k;
          over = λ k. k;
          only = λ j. inl refl;
        }

        smaller : contains s.visited path ≡ false → unseen universe (stack ++ path ∷ []) < fuel
        smaller e = omega (arith, h, unseen-lt universe stack path m (not_stacked stack path s e v))
