-- ===== src/Base/Dict.antt =====
-- Python's `dict` with text keys, in insertion order.
use forge_os.Base.Tests.{if◌then◌else◌}
use Prim.Native.String.{String}
use mathlib.Core.Path.{◌≡◌, refl}
use mathlib.Core.List.{List, [], ◌∷◌}
use mathlib.Core.Option.{Option, none, some}
use native.Mathlib.Omega.{arith}
use text.Mathlib.Text.{◌==◌}
use text.Mathlib.TextEquality.{eq_iff}

abbrev pub Dict : Type 0 → Type 0
Dict V = List (String × V)

module _ {V : Type 0} where
  -- `d.get(k)`
  unfoldable pub lookup : String → Dict V → Option V
  lookup k [] = none
  lookup k ((j, v) ∷ d) = if j == k then some v else lookup k d

  -- `d[k] = v`
  unfoldable pub insert : String → V → Dict V → Dict V
  insert k v [] = (k, v) ∷ []
  insert k v ((j, w) ∷ d) = if j == k then (j, v) ∷ d else (j, w) ∷ insert k v d

  -- `d.update(e)`
  unfoldable pub update : Dict V → Dict V → Dict V
  unfolding insert
  update d [] = d
  update d ((k, v) ∷ e) = update (insert k v d) e

  -- no key twice, as in every `dict`
  abbrev pub IsDict : Dict V → Type 0
  IsDict [] = Unit
  IsDict ((k, _) ∷ d) = (lookup k d ≡ none) × IsDict d

  abbrev pub or_else : Option V → Option V → Option V
  or_else none b = b
  or_else (some a) b = some a

  pub lookup-insert :
      (k j : String) (v : V) (d : Dict V)
      → lookup j (insert k v d) ≡ (if k == j then some v else lookup j d)
  unfolding lookup insert
  lookup-insert k j v [] = refl
  lookup-insert k j v ((i, w) ∷ d) =
      ground (arith, eq_iff k j, eq_iff i k, eq_iff i j, lookup-insert k j v d)

  -- After an update the keys of `e` have their values in `e`, and the others keep theirs.
  pub lookup-update :
      (k : String) (d e : Dict V)
      → IsDict e
      → lookup k (update d e) ≡ or_else (lookup k e) (lookup k d)
  unfolding update lookup
  lookup-update k d [] h = refl
  lookup-update k d ((j, v) ∷ e) h =
      ground (arith, lookup-update k (insert j v d) e h.1, lookup-insert j k v d, eq_iff j k)
