-- ===== src/Tests/ArtifactTests.antt =====
-- The artifacts' theorems at a small graph.
use forge_os.Base.{String, true, false, none, some, List, [], ◌∷◌, ◌≡◌, refl}
use forge_os.Base.Outcome.{done, after}
use forge_os.Host.{Host}
use forge_os.Tests.Sample.{sample_host}
use forge_os.Artifacts.Names.{with_slashes, segments, is_refused, normalize_edges}
use forge_os.Artifacts.{
  load, load_stored, load_validated, validated, validated_artifact, save, Artifact,
  ArtifactDocument, fresh, stored,
}
use forge_os.Artifacts.Rework.{get_affected_artifacts}
use forge_os.Artifacts.Rework.Affected.{IsReached, get_affected_artifacts-IsReached}
use forge_os.Artifacts.Tickets.{
  BacktrackTicket, approved, ReworkFiles, StoredTickets, find_ticket, rework, update_ticket,
  with_status, save_tickets, mark_all_stale, run_rework,
}
use forge_os.Artifacts.Tickets.Approval.{IsReworked, rework_needs_approval}

abbrev pub sample_artifact : String → String → List String → List String → Artifact
sample_artifact path stage dependencies dependents = record {
  id = path;
  path = path;
  stage_id = some stage;
  kind = "file";
  content_hash = none;
  modified_at = none;
  registered_at = "t0";
  metadata = [];
  status = fresh;
  dependencies = dependencies;
  dependents = dependents;
  token_estimate = 40;
  updated_at = "t0";
}

-- two artifacts that depend on each other
abbrev sample_document : ArtifactDocument
sample_document =
    sample_artifact "srs.md" "srs" ("design.md" ∷ []) ("design.md" ∷ [])
    ∷ sample_artifact "design.md" "design" ("srs.md" ∷ []) ("srs.md" ∷ [])
    ∷ []

get_affected_artifacts-IsReached_example :
    (plan : List String × List String) × ((get_affected_artifacts sample_document "srs" ≡ some plan)
      × IsReached sample_document "srs" plan.0)
get_affected_artifacts-IsReached_example = get_affected_artifacts-IsReached sample_document "srs"

abbrev sample_ticket : BacktrackTicket
sample_ticket = record {
  ticket_id = "BT-1";
  status = approved;
  reason = "the requirements changed";
  source_stage_id = "design";
  target_stage_id = "srs";
  affected_artifacts = "srs.md" ∷ "design.md" ∷ [];
  requires_approval = true;
  created_at = "t0";
  resolved_at = none;
}

abbrev before_rework : ReworkFiles
before_rework = record {
  artifacts = record {
    content = stored sample_document;
    graph = none;
    writable = true;
    graph_writable = true;
    torn = true;
  };
  tickets = StoredTickets.stored (sample_ticket ∷ []);
  tickets_writable = true;
  tick = 0;
}

-- a host that strips nothing
abbrev rework_host : Host
rework_host = record sample_host { strip = λ s. s }

rework_runs :
    run_rework rework_host "BT-1" before_rework
    ≡ done true (after (run_rework rework_host "BT-1" before_rework))
unfolding run_rework rework find_ticket update_ticket with_status save_tickets mark_all_stale load
    load_stored load_validated validated validated_artifact with_slashes is_refused normalize_edges
    segments save
rework_runs = refl

rework_needs_approval_example :
    IsReworked "BT-1" before_rework (after (run_rework rework_host "BT-1" before_rework))
    × (run_rework rework_host "BT-1" (after (run_rework rework_host "BT-1" before_rework))
        ≡ done false (after (run_rework rework_host "BT-1" before_rework)))
rework_needs_approval_example =
    rework_needs_approval rework_host "BT-1" before_rework
      (after (run_rework rework_host "BT-1" before_rework)) rework_runs
