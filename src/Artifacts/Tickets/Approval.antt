-- ===== src/Artifacts/Tickets/Approval.antt =====
-- Rework runs on an approved ticket, and once for an approval.
use forge_os.Base.{
  String, Bool, true, false, Option, none, some, ◌≡◌, refl, ap, sym, ◌∙◌, arith, Bool-cases, inl,
  inr, if◌then◌else◌,
}
use forge_os.Base.Outcome.{Outcome, done, yields_done}
use forge_os.Host.{Host}
use forge_os.Artifacts.Tickets.{
  BacktrackTicket, in_progress, ReworkFiles, load_tickets, find_ticket, with_status, is_approved,
  rework, run_rework,
}
use forge_os.Artifacts.Tickets.Keeping.{Keeps, find-with_status, rework-Keeps}

-- the answer of `run_rework`, by the ticket that it finds
rework_if : Host → String → ReworkFiles → Option BacktrackTicket → Outcome ReworkFiles Bool
rework_if host ticket_id files o = elim o [
  | none ↦ done false files
  | some ticket ↦
      if is_approved ticket.status then rework host ticket ticket_id files else done false files
]

run_rework-by :
    (host : Host) (ticket_id : String) (files : ReworkFiles)
    → run_rework host ticket_id files
      ≡ rework_if host ticket_id files (find_ticket (load_tickets files.tickets) ticket_id)
unfolding run_rework rework_if
run_rework-by host ticket_id files = refl

rework_if-approved :
    (host : Host) (ticket_id : String) (files : ReworkFiles) (t : BacktrackTicket)
    → is_approved t.status ≡ true
    → rework_if host ticket_id files (some t) ≡ rework host t ticket_id files
unfolding rework_if
rework_if-approved host ticket_id files t a = rw a refl

rework_if-other :
    (host : Host) (ticket_id : String) (files : ReworkFiles) (t : BacktrackTicket)
    → is_approved t.status ≡ false
    → rework_if host ticket_id files (some t) ≡ done false files
unfolding rework_if
rework_if-other host ticket_id files t a = rw a refl

rework_if-none :
    (host : Host) (ticket_id : String) (files : ReworkFiles)
    → rework_if host ticket_id files none ≡ done false files
unfolding rework_if
rework_if-none host ticket_id files = refl

rework_if-started :
    (host : Host) (ticket_id : String) (files : ReworkFiles) (t : BacktrackTicket)
    → rework_if host ticket_id files (some (record t { status = in_progress })) ≡ done false files
unfolding rework_if
rework_if-started host ticket_id files t = refl

false-true : (v w : ReworkFiles) → done false v ≡ done true w → ⊥
false-true v w e = ground (arith, e)

-- What a rework host that returned true shows: the ticket was approved, and is in progress after it.
pub record IsReworked (ticket_id : String) (before after : ReworkFiles) : Type 0 where
  pub ticket : BacktrackTicket
  pub found : find_ticket (load_tickets before.tickets) ticket_id ≡ some ticket
  pub was_approved : is_approved ticket.status ≡ true
  pub started :
      find_ticket (load_tickets after.tickets) ticket_id
      ≡ some (record ticket { status = in_progress })

-- `run_rework` returns true only for a ticket that is approved, and leaves it in progress. The same
-- call again, without a new approval, returns false and changes no file.
pub rework_needs_approval :
    (host : Host) (ticket_id : String) (before after : ReworkFiles)
    → run_rework host ticket_id before ≡ done true after
    → IsReworked ticket_id before after × (run_rework host ticket_id after ≡ done false after)
rework_needs_approval host ticket_id before after h =
    let r =
      reworked (find_ticket (load_tickets before.tickets) ticket_id) refl
        (sym (run_rework-by host ticket_id before) ∙ h) in
    (r, again r.ticket r.started)
  where
    refused :
        (t : BacktrackTicket)
        → is_approved t.status ≡ false
        → rework_if host ticket_id before (some t) ≡ done true after
        → ⊥
    refused t a k = false-true before after (sym (rework_if-other host ticket_id before t a) ∙ k)

    started_of :
        (t : BacktrackTicket)
        → find_ticket (load_tickets before.tickets) ticket_id ≡ some t
        → rework host t ticket_id before ≡ done true after
        → find_ticket (load_tickets after.tickets) ticket_id
          ≡ some (record t { status = in_progress })
    started_of t e k =
        ap (λ l. find_ticket l ticket_id)
          (yields_done
            (λ _. Keeps (with_status ticket_id in_progress (load_tickets before.tickets)))
            (rework host t ticket_id before) true after
            ((rework-Keeps ticket_id t (load_tickets before.tickets) host e).run before refl) k)
        ∙ find-with_status ticket_id in_progress (load_tickets before.tickets) t e

    none-true : rework_if host ticket_id before none ≡ done true after → ⊥
    none-true k = false-true before after (sym (rework_if-none host ticket_id before) ∙ k)

    reworked :
        (o : Option BacktrackTicket)
        → find_ticket (load_tickets before.tickets) ticket_id ≡ o
        → rework_if host ticket_id before o ≡ done true after
        → IsReworked ticket_id before after
    reworked none e k = absurd (none-true k)
    reworked (some t) e k = elim (Bool-cases (is_approved t.status)) [
      | inl a ↦ record {
        ticket = t;
        found = e;
        was_approved = a;
        started = started_of t e (sym (rework_if-approved host ticket_id before t a) ∙ k);
      }
      | inr a ↦ absurd (refused t a k)
    ]

    again :
        (t : BacktrackTicket)
        → find_ticket (load_tickets after.tickets) ticket_id
          ≡ some (record t { status = in_progress })
        → run_rework host ticket_id after ≡ done false after
    again t e =
        run_rework-by host ticket_id after
        ∙ ap (λ o. rework_if host ticket_id after o) e
        ∙ rework_if-started host ticket_id after t
