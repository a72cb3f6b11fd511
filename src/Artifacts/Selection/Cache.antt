-- ===== src/Artifacts/Selection/Cache.antt =====
-- context/pruner.py, `_read_artifact` and `clear_cache`: contents are kept while the times of
-- modification stay.
use forge_os.Base.{
  ℕ, String, Option, none, some, List, [], ◌∷◌, ◌≡◌, refl, ap, sym, ◌∙◌, inl, inr, arith, nat_beq,
  if◌then◌else◌, ◌==◌, eq_iff, All, All-of_Has, Has, Bool-cases,
}
use forge_os.Base.Dict.{Dict, lookup, insert, lookup-insert}
use forge_os.Host.{Attempt, value, error}

-- one state of the files: `st_mtime` and the text, or why there is none
pub record Disk : Type 0 where
  pub mtime : String → Attempt ℕ
  pub content : String → Attempt String

pub record Caches : Type 0 where
  pub mtimes : Dict ℕ
  pub contents : Dict String

abbrev pub no_caches : Caches
no_caches = record { mtimes = []; contents = [] }

-- `clear_cache`
unfoldable pub clear_cache : Caches → Caches
clear_cache caches = no_caches

-- the cached content, if the time that was cached is the current one
unfoldable pub cached : Option ℕ → Option String → ℕ → Option String
cached none content current = none
cached (some mtime) content current = if nat_beq mtime current then content else none

read_text : Attempt String → String → ℕ → Caches → Attempt String × Caches
read_text (error message) path mtime caches = (error message, caches)
read_text (value content) path mtime caches = (
  value content,
  record {
    mtimes = insert path mtime caches.mtimes;
    contents = insert path content caches.contents;
  },
)

read_stated : Disk → String → Attempt ℕ → Caches → Attempt String × Caches
unfolding cached read_text
read_stated disk path (error message) caches = (error message, caches)
read_stated disk path (value mtime) caches =
    elim (cached (lookup path caches.mtimes) (lookup path caches.contents) mtime) [
      | some content ↦ (value content, caches)
      | none ↦ read_text (disk.content path) path mtime caches
    ]

unfoldable pub read_artifact : Disk → String → Caches → Attempt String × Caches
unfolding read_stated
read_artifact disk path caches = read_stated disk path (disk.mtime path) caches

-- what happens between calls of `clear_cache`: reads, each at a state of the files
pub data CacheCall : Type 0 where
  read_call : Disk → String → CacheCall
  clear_call : CacheCall

-- the contents that a sequence of calls returns
unfoldable pub run_reads : List CacheCall → Caches → List (Attempt String)
unfolding read_artifact clear_cache
run_reads [] caches = []
run_reads (read_call disk path ∷ rest) caches =
    (read_artifact disk path caches).0 ∷ run_reads rest (read_artifact disk path caches).1
run_reads (clear_call ∷ rest) caches = run_reads rest (clear_cache caches)

-- a read with no cache
abbrev pub stated : Attempt ℕ → Attempt String → Attempt String
stated (error message) content = error message
stated (value mtime) content = content

abbrev pub plain_reads : List CacheCall → List (Attempt String)
plain_reads [] = []
plain_reads (read_call disk path ∷ rest) =
    stated (disk.mtime path) (disk.content path) ∷ plain_reads rest
plain_reads (clear_call ∷ rest) = plain_reads rest

abbrev pub disks : List CacheCall → List Disk
disks [] = []
disks (read_call disk path ∷ rest) = disk ∷ disks rest
disks (clear_call ∷ rest) = disks rest

-- In any two of these states of the files, a file with the same time of modification has the same
-- text.
abbrev pub IsStamped : List Disk → Type 0
IsStamped versions =
    (d e : Disk) (path : String) (mtime : ℕ)
    → Has d versions
    → Has e versions
    → d.mtime path ≡ value mtime
    → e.mtime path ≡ value mtime
    → d.content path ≡ e.content path

module _ (versions : List Disk) (stamped : IsStamped versions) where
  -- what is cached was in the files at one of the states
  abbrev IsCoherent : Caches → Type 0
  IsCoherent caches =
      (path : String) (mtime : ℕ) (content : String)
      → lookup path caches.mtimes ≡ some mtime
      → lookup path caches.contents ≡ some content
      → (d : Disk) × Has d versions
        × (d.mtime path ≡ value mtime)
        × (d.content path ≡ value content)

  IsCoherent-insert :
      (d : Disk) (path : String) (mtime : ℕ) (content : String) (caches : Caches)
      → Has d versions
      → d.mtime path ≡ value mtime
      → d.content path ≡ value content
      → IsCoherent caches
      → IsCoherent (record {
        mtimes = insert path mtime caches.mtimes;
        contents = insert path content caches.contents;
      })
  IsCoherent-insert d path mtime content caches m e q c p n x h k = elim (Bool-cases (path == p)) [
    | inl t ↦
        let same : path ≡ p = ground (arith, eq_iff path p, t) in
        (
          d,
          m,
          ap d.mtime (sym same)
              ∙ e
              ∙ ground (arith, lookup-insert path p mtime caches.mtimes, h, t),
          ap d.content (sym same)
              ∙ q
              ∙ ground (arith, lookup-insert path p content caches.contents, k, t),
        )
    | inr t ↦
        c p n x (ground (arith, lookup-insert path p mtime caches.mtimes, h, t))
          (ground (arith, lookup-insert path p content caches.contents, k, t))
  ]

  -- what a read returns and leaves
  abbrev Reads : Disk → String → Attempt String × Caches → Type 0
  Reads d path result = (result.0 ≡ stated (d.mtime path) (d.content path)) × IsCoherent result.1

  read_artifact-Reads :
      (d : Disk) (path : String) (caches : Caches)
      → Has d versions
      → IsCoherent caches
      → Reads d path (read_artifact d path caches)
  unfolding read_artifact read_stated read_text cached
  read_artifact-Reads d path caches m c = at_time (d.mtime path) refl
    where
      fetch :
          (mtime : ℕ)
          → d.mtime path ≡ value mtime
          → (r : Attempt String) → d.content path ≡ r
          → ((read_text r path mtime caches).0 ≡ r) × IsCoherent (read_text r path mtime caches).1
      fetch mtime e (error message) q = (refl, c)
      fetch mtime e (value content) q =
          (refl, IsCoherent-insert d path mtime content caches m e q c)

      or_fetch : ℕ → Option String → Attempt String × Caches
      or_fetch mtime o = elim o [
        | some content ↦ (value content, caches)
        | none ↦ read_text (d.content path) path mtime caches
      ]

      look :
          (mtime : ℕ)
          → d.mtime path ≡ value mtime
          → (o : Option ℕ) → lookup path caches.mtimes ≡ o
          → (x : Option String) → lookup path caches.contents ≡ x
          → ((or_fetch mtime (cached o x mtime)).0 ≡ d.content path)
            × IsCoherent (or_fetch mtime (cached o x mtime)).1
      look mtime e none h x k = fetch mtime e (d.content path) refl
      look mtime e (some n) h none k = elim (Bool-cases (nat_beq n mtime)) [
        | inl t ↦ rw t (fetch mtime e (d.content path) refl)
        | inr t ↦ rw t (fetch mtime e (d.content path) refl)
      ]
      look mtime e (some n) h (some content) k = elim (Bool-cases (nat_beq n mtime)) [
        | inl t ↦
            let (d', m', e', q') = c path n content h k in
            let same : n ≡ mtime = ground (arith, t) in
            rw t (sym (stamped d d' path mtime m m' e (e' ∙ ap (λ z. value z) same) ∙ q'), c)
        | inr t ↦ rw t (fetch mtime e (d.content path) refl)
      ]

      at_time :
          (r : Attempt ℕ)
          → d.mtime path ≡ r
          → ((read_stated d path r caches).0 ≡ stated r (d.content path))
            × IsCoherent (read_stated d path r caches).1
      at_time (error message) e = (refl, c)
      at_time (value mtime) e =
          look mtime e (lookup path caches.mtimes) refl (lookup path caches.contents) refl

  pub run_reads-eq-plain :
      (calls : List CacheCall) (caches : Caches)
      → All (λ d. Has d versions) (disks calls)
      → IsCoherent caches
      → run_reads calls caches ≡ plain_reads calls
  unfolding run_reads clear_cache lookup
  run_reads-eq-plain [] caches m c = refl
  run_reads-eq-plain (read_call d path ∷ rest) caches m c =
      let (e, c') = read_artifact-Reads d path caches m.0 c in
      let ih = run_reads-eq-plain rest (read_artifact d path caches).1 m.1 c' in λ i. e i ∷ ih i
  run_reads-eq-plain (clear_call ∷ rest) caches m c =
      run_reads-eq-plain rest no_caches m (λ path mtime content h k. absurd (ground (arith, h)))

-- With empty caches, a sequence of reads and of clearings of the caches, while the files change
-- between them, returns what reads without a cache would, errors included; that a file with the
-- same time of modification has the same text is assumed.
pub run_reads_lem :
    (calls : List CacheCall)
    → IsStamped (disks calls)
    → run_reads calls no_caches ≡ plain_reads calls
unfolding lookup
run_reads_lem calls stamped =
    run_reads-eq-plain (disks calls) stamped calls no_caches
      (All-of_Has (λ d. Has d (disks calls)) (disks calls) (λ d m. m))
      (λ path mtime content h k. absurd (ground (arith, h)))
