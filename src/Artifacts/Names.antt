-- ===== src/Artifacts/Names.antt =====
-- context/models.py, how the paths of an artifact and of its edges are normalised.
use Prim.Native.Char.{code}
use forge_os.Base.{
  String, Bool, false, not, ◌&&◌, ◌||◌, List, [], ◌∷◌, ◌++◌, contains, nat_beq, if◌then◌else◌, ◌==◌,
}
use forge_os.Host.{Host}

-- `.replace("\\", "/")`
unfoldable pub with_slashes : String → String
with_slashes String.[] = String.[]
with_slashes (String.◌∷◌ c s) =
    let rest = with_slashes s in
    if nat_beq (code c) 92 then String.◌∷◌ "/" rest else String.◌∷◌ c rest

onto_first : Prim.Native.Char.Char → List String → List String
onto_first c [] = String.◌∷◌ c String.[] ∷ []
onto_first c (s ∷ rest) = String.◌∷◌ c s ∷ rest

-- `.split("/")`
unfoldable pub segments : String → List String
unfolding onto_first
segments String.[] = "" ∷ []
segments (String.◌∷◌ c s) =
    let rest = segments s in if nat_beq (code c) 47 then "" ∷ rest else onto_first c rest

starts_with_slash : String → Bool
starts_with_slash String.[] = false
starts_with_slash (String.◌∷◌ c s) = nat_beq (code c) 47

-- `normalized.startswith("/") or ".." in normalized.split("/") or not normalized`
unfoldable pub is_refused : String → Bool
unfolding segments starts_with_slash
is_refused path = starts_with_slash path || contains (segments path) ".." || path == ""

module _ (host : Host) where
  -- `Artifact.normalize_edges`
  unfoldable pub normalize_edges : List String → List String → List String
  unfolding with_slashes
  normalize_edges [] normalized = normalized
  normalize_edges (item ∷ rest) normalized =
      let candidate = with_slashes (host.strip item) in
      normalize_edges rest (
        if not (candidate == "") && not (contains normalized candidate)
        then normalized ++ candidate ∷ []
        else normalized)
