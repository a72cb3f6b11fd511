-- ===== src/Artifacts/Tickets/Keeping.antt =====
-- What the calls on the ticket store leave of it.
use mathlib.Core.Path.{subst}
use forge_os.Base.{
  String, Bool, true, false, none, some, List, [], ◌∷◌, ◌≡◌, refl, ap, sym, ◌∙◌, ◌==◌, arith,
  Bool-cases, inl, inr, if◌then◌else◌,
}
use forge_os.Base.Outcome.{
  Action, Outcome, done, raised, IfDone, Yields, yields_bind, pure, ◌>>◌, os_error,
}
use forge_os.Host.{Host}
use forge_os.Artifacts.{ArtifactFiles, load, save}
use forge_os.Artifacts.Tickets.{
  BacktrackTicket, BacktrackStatus, in_progress, ReworkFiles, stored, load_tickets, save_tickets,
  find_ticket, with_status, update_ticket, on_artifacts, mark_all_stale, rework,
}

-- the tickets that the store holds
abbrev pub Keeps : List BacktrackTicket → ReworkFiles → Type 0
Keeps ts files = load_tickets files.tickets ≡ ts

artifacts-Keeps :
    {A : Type 0} (m : Action ArtifactFiles A) (ts : List BacktrackTicket)
    → Yields (Keeps ts) (on_artifacts m) (λ _. Keeps ts)
unfolding on_artifacts
artifacts-Keeps {A} m ts = record { run = λ w h. go w h (m w.artifacts) }
  where
    go :
        (w : ReworkFiles)
        → Keeps ts w
        → (o : Outcome ArtifactFiles A)
        → IfDone {W = ReworkFiles} {A = A}
            (elim o [
              | done a v ↦ done a (record w { artifacts = v })
              | raised e v ↦ raised e (record w { artifacts = v })
            ])
            (λ _. Keeps ts)
    go w h (done a v) = h
    go w h (raised e v) = tt

module _ (ticket_id : String) (x : BacktrackTicket) (ts : List BacktrackTicket) where
  find-here : (x.ticket_id == ticket_id) ≡ true → find_ticket (x ∷ ts) ticket_id ≡ some x
  unfolding find_ticket
  find-here e = rw e refl

  find-there :
      (x.ticket_id == ticket_id) ≡ false → find_ticket (x ∷ ts) ticket_id ≡ find_ticket ts ticket_id
  unfolding find_ticket
  find-there e = rw e refl

  with_status-here :
      (status : BacktrackStatus)
      → (x.ticket_id == ticket_id) ≡ true
      → with_status ticket_id status (x ∷ ts) ≡ record x { status = status } ∷ ts
  unfolding with_status
  with_status-here status e = rw e refl

  with_status-there :
      (status : BacktrackStatus)
      → (x.ticket_id == ticket_id) ≡ false
      → with_status ticket_id status (x ∷ ts) ≡ x ∷ with_status ticket_id status ts
  unfolding with_status
  with_status-there status e = rw e refl

some-is : {t u : BacktrackTicket} → some t ≡ some u → t ≡ u
some-is {t} e = ap (λ o. elim o [ none ↦ t | some v ↦ v ]) e

find-empty : (ticket_id : String) (t : BacktrackTicket) → find_ticket [] ticket_id ≡ some t → ⊥
unfolding find_ticket
find-empty ticket_id t h = ground (arith, h)

-- a write of the store, where the ticket is found
update-found :
    (ticket_id : String) (status : BacktrackStatus) (w : ReworkFiles) (t : BacktrackTicket)
    → find_ticket (load_tickets w.tickets) ticket_id ≡ some t
    → update_ticket ticket_id status w
      ≡ (save_tickets (with_status ticket_id status (load_tickets w.tickets)) >> pure true) w
unfolding update_ticket
update-found ticket_id status w t e = rw (e, update_ticket) refl

save-Keeps :
    (ts : List BacktrackTicket) (w : ReworkFiles)
    → IfDone ((save_tickets ts >> pure true) w) (λ _. Keeps ts)
unfolding save_tickets
save-Keeps ts w = go w.tickets_writable
  where
    go :
        (b : Bool)
        → IfDone
            (((λ _.
                  if b
                  then done tt (record w { tickets = stored ts })
                  else raised (os_error "backtrack.json") w)
                >> pure true)
              w)
            (λ _. Keeps ts)
    go true = refl
    go false = tt

pub find-with_status :
    (ticket_id : String) (status : BacktrackStatus) (ts : List BacktrackTicket)
    (t : BacktrackTicket)
    → find_ticket ts ticket_id ≡ some t
    → find_ticket (with_status ticket_id status ts) ticket_id ≡ some (record t { status = status })
find-with_status ticket_id status [] t h = absurd (find-empty ticket_id t h)
find-with_status ticket_id status (x ∷ ts) t h = elim (Bool-cases (x.ticket_id == ticket_id)) [
  | inl e ↦
      ap (λ l. find_ticket l ticket_id) (with_status-here ticket_id x ts status e)
      ∙ find-here ticket_id (record x { status = status }) ts e
      ∙ ap (λ (u : BacktrackTicket). some (record u { status = status }))
          (some-is (sym (find-here ticket_id x ts e) ∙ h))
  | inr e ↦
      ap (λ l. find_ticket l ticket_id) (with_status-there ticket_id x ts status e)
      ∙ find-there ticket_id x (with_status ticket_id status ts) e
      ∙ find-with_status ticket_id status ts t (sym (find-there ticket_id x ts e) ∙ h)
]

module _ (ticket_id : String) (t : BacktrackTicket) (ts : List BacktrackTicket) where
  update-Keeps :
      (status : BacktrackStatus)
      → find_ticket ts ticket_id ≡ some t
      → Yields
          (Keeps ts)
          (update_ticket ticket_id status)
          (λ _. Keeps (with_status ticket_id status ts))
  update-Keeps status e = record { run = λ w h. go w h }
    where
      go :
          (w : ReworkFiles)
          → Keeps ts w
          → IfDone (update_ticket ticket_id status w) (λ _. Keeps (with_status ticket_id status ts))
      go w h =
          subst (λ o. IfDone o (λ _. Keeps (with_status ticket_id status ts)))
            (sym (update-found ticket_id status w t (ap (λ l. find_ticket l ticket_id) h ∙ e)))
            (subst
              (λ l.
                IfDone ((save_tickets (with_status ticket_id status l) >> pure true) w)
                  (λ _. Keeps (with_status ticket_id status ts)))
              (sym h) (save-Keeps (with_status ticket_id status ts) w))

  -- what a rework leaves of the tickets
  pub rework-Keeps :
      (host : Host)
      → find_ticket ts ticket_id ≡ some t
      → Yields
          (Keeps ts)
          (rework host t ticket_id)
          (λ _. Keeps (with_status ticket_id in_progress ts))
  unfolding rework
  rework-Keeps host e =
      yields_bind (on_artifacts (load host)) _ (artifacts-Keeps (load host) ts) (λ document.
        yields_bind (on_artifacts (save (mark_all_stale t.affected_artifacts document))) _
          (artifacts-Keeps (save (mark_all_stale t.affected_artifacts document)) ts)
          (λ _.
            yields_bind (update_ticket ticket_id in_progress) _ (update-Keeps in_progress e)
              (λ _. record { run = λ w h. h })))
