-- ===== src/Artifacts/Tickets.antt =====
-- project/rework_planner.py, project/backtrack_registry.py, schemas/backtrack.py: the tickets for
-- rework, from their opening to their end.
pub mod Keeping
pub mod Approval
use forge_os.Base.{
  ℕ, ◌+◌, String, Bool, true, false, not, ◌&&◌, Option, none, some, List, [], ◌∷◌, ◌++◌, ◌<>◌, map,
  any, find?, contains, if◌then◌else◌, ◌==◌,
}
use forge_os.Base.Outcome.{Action, Outcome, done, raised, raise, pure, ◌>>=◌, ◌>>◌, os_error}
use forge_os.Base.Text.{first_chars}
use forge_os.Host.{Host}
use forge_os.Artifacts.{
  Artifact, ArtifactStatus, fresh, stale, missing, ArtifactDocument, ArtifactFiles, find, load,
  save, status_eq,
}
use forge_os.Artifacts.Rework.{get_affected_artifacts}

pub data BacktrackStatus : Type 0 where
  open_ticket approved in_progress resolved rejected : BacktrackStatus

pub record BacktrackTicket : Type 0 where
  pub ticket_id : String
  pub status : BacktrackStatus
  pub reason : String
  pub source_stage_id : String
  pub target_stage_id : String
  pub affected_artifacts : List String
  pub requires_approval : Bool
  pub created_at : String
  pub resolved_at : Option String

-- `.forge/backtrack.json`. A file that is not there or not readable is an empty store.
pub data StoredTickets : Type 0 where
  absent corrupt : StoredTickets
  stored : List BacktrackTicket → StoredTickets

pub record ReworkFiles : Type 0 where
  pub artifacts : ArtifactFiles
  pub tickets : StoredTickets
  pub tickets_writable : Bool
  pub tick : ℕ

abbrev pub Planner : Type 0 → Type 0
Planner A = Action ReworkFiles A

abbrev pub load_tickets : StoredTickets → List BacktrackTicket
load_tickets absent = []
load_tickets corrupt = []
load_tickets (stored tickets) = tickets

unfoldable pub save_tickets : List BacktrackTicket → Planner (Unit {0})
save_tickets tickets files =
    if files.tickets_writable
    then done tt (record files { tickets = stored tickets })
    else raised (os_error "backtrack.json") files

unfoldable pub create_ticket : BacktrackTicket → Planner (Unit {0})
unfolding save_tickets
create_ticket ticket files = save_tickets (load_tickets files.tickets ++ ticket ∷ []) files

unfoldable pub find_ticket : List BacktrackTicket → String → Option BacktrackTicket
find_ticket tickets ticket_id = find? (λ t. t.ticket_id == ticket_id) tickets

unfoldable pub get_ticket : String → Planner (Option BacktrackTicket)
unfolding find_ticket
get_ticket ticket_id files = done (find_ticket (load_tickets files.tickets) ticket_id) files

-- the first ticket with the id, with its new status
unfoldable pub with_status : String → BacktrackStatus → List BacktrackTicket → List BacktrackTicket
with_status ticket_id status [] = []
with_status ticket_id status (t ∷ rest) =
    let later = with_status ticket_id status rest in
    if t.ticket_id == ticket_id then record t { status = status } ∷ rest else t ∷ later

-- `update_ticket(ticket_id, status=...)`: whether there was such a ticket
unfoldable pub update_ticket : String → BacktrackStatus → Planner Bool
update_ticket ticket_id status files =
    let tickets = load_tickets files.tickets in
    elim (find_ticket tickets ticket_id) [
      | none ↦ done false files
      | some t ↦ (save_tickets (with_status ticket_id status tickets) >> pure true) files
    ]

-- a call on the artifact registry's files
on_artifacts : {A : Type 0} → Action ArtifactFiles A → Planner A
on_artifacts m files = elim (m files.artifacts) [
  | done a v ↦ done a (record files { artifacts = v })
  | raised e v ↦ raised e (record files { artifacts = v })
]

-- the first artifact with the path becomes stale
unfoldable pub mark_stale : String → ArtifactDocument → ArtifactDocument
mark_stale path [] = []
mark_stale path (a ∷ rest) =
    let later = mark_stale path rest in
    if a.path == path then record a { status = stale } ∷ rest else a ∷ later

unfoldable pub mark_all_stale : List String → ArtifactDocument → ArtifactDocument
unfolding mark_stale
mark_all_stale [] document = document
mark_all_stale (p ∷ ps) document = mark_all_stale ps (mark_stale p document)

-- whether `resolve_ticket` clears the artifact's flag
unfoldable pub is_cleared : List String → Artifact → Bool
is_cleared paths a = contains paths a.path && status_eq a.status stale

unfoldable pub clear_stale : List String → String → ArtifactDocument → ArtifactDocument
unfolding is_cleared
clear_stale paths now document =
    map (λ a. if is_cleared paths a then record a { status = fresh; updated_at = now } else a)
      document

abbrev pub is_approved : BacktrackStatus → Bool
is_approved approved = true
is_approved _ = false

unfoldable pub approve_ticket : String → Planner Bool
unfolding update_ticket
approve_ticket ticket_id = update_ticket ticket_id approved

module _ (host : Host) where
  -- the writes of `run_rework`, for an approved ticket
  unfoldable pub rework : BacktrackTicket → String → Planner Bool
  unfolding on_artifacts update_ticket mark_all_stale
  rework ticket ticket_id = do
    document ← on_artifacts (load host)
    on_artifacts (save (mark_all_stale ticket.affected_artifacts document))
    update_ticket ticket_id in_progress
    pure true

  unfoldable pub run_rework : String → Planner Bool
  unfolding rework
  run_rework ticket_id files = elim (find_ticket (load_tickets files.tickets) ticket_id) [
    | none ↦ done false files
    | some ticket ↦
        if is_approved ticket.status then rework ticket ticket_id files else done false files
  ]

  refresh : BacktrackTicket → Planner (Unit {0})
  unfolding on_artifacts clear_stale is_cleared
  refresh ticket = do
    document ← on_artifacts (load host)
    λ files.
        if any (is_cleared ticket.affected_artifacts) document
        then on_artifacts
            (save (clear_stale ticket.affected_artifacts (host.utc_now files.tick) document)) files
        else done tt files

  refresh_affected : BacktrackTicket → List String → Planner (Unit {0})
  refresh_affected ticket [] = pure tt
  refresh_affected ticket (p ∷ ps) = refresh ticket

  unfoldable pub resolve_ticket : String → Planner Bool
  unfolding refresh_affected refresh update_ticket
  resolve_ticket ticket_id files = elim (find_ticket (load_tickets files.tickets) ticket_id) [
    | none ↦ done false files
    | some ticket ↦
        (do refresh_affected ticket ticket.affected_artifacts; update_ticket ticket_id resolved)
          files
  ]

  opened : String → String → String → String → ℕ → List String → BacktrackTicket
  opened ticket_id reason source target tick affected = record {
    ticket_id = ticket_id;
    status = open_ticket;
    reason = reason;
    source_stage_id = source;
    target_stage_id = target;
    affected_artifacts = affected;
    requires_approval = true;
    created_at = host.utc_now tick;
    resolved_at = none;
  }

  -- the paths of a document's plan, whose walk always ends
  planned : Option (List String × List String) → List String
  planned none = []
  planned (some plan) = plan.0

  -- a text of `uuid4` has no dash in its first six characters
  unfoldable pub create_backtrack_ticket : String → String → String → Planner String
  unfolding on_artifacts opened planned create_ticket
  create_backtrack_ticket reason source target files =
      let ticket_id = "BT-" <> host.upper (first_chars 6 (host.uuid files.tick)) in
      (do
        document ← on_artifacts (load host)
        create_ticket (
            opened ticket_id reason source target files.tick
              (planned (get_affected_artifacts document target)))
        pure ticket_id)
        files
