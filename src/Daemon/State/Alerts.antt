-- ===== src/Daemon/State/Alerts.antt =====
-- How many alerts and which counts the state keeps.
use forge_os.Base.{
  ℕ, zero, suc, ◌-◌, ◌≤◌, Bool, true, false, List, [], ◌∷◌, ◌++◌, ◌≡◌, refl, ap, sym, ◌∙◌, arith,
  length, eq_iff, Bool-cases, inl, inr, length-append,
}
use forge_os.Base.Outcome.{Outcome, done, raised, after, daemon_error}
use forge_os.Daemon.State.{
  DaemonAlert, DaemonState, DaemonFile, Stored, absent, corrupt, stored, max_alerts, newest,
  is_repeat, repeats, add_alert, load, load_required, save, load_stored, required, drop, Severity,
  info, warning, critical, severity_eq,
}

length-drop : (n : ℕ) (l : List DaemonAlert) → length (drop n l) ≡ length l - n
length-drop zero l = omega arith
length-drop (suc n) [] = omega arith
length-drop (suc n) (a ∷ l) = omega (arith, length-drop n l)

pub newest-length : (l : List DaemonAlert) → length (newest l) ≤ max_alerts
unfolding newest
newest-length l = omega (arith, length-drop (length l - max_alerts) l)

severity_eq_refl : (s : Severity) → severity_eq s s ≡ true
severity_eq_refl info = refl
severity_eq_refl warning = refl
severity_eq_refl critical = refl

is_repeat_refl : (a : DaemonAlert) → is_repeat a a ≡ true
unfolding is_repeat
is_repeat_refl a =
    ground
      (arith, eq_iff a.source a.source, eq_iff a.message a.message, severity_eq_refl a.severity)

repeats_last : (l : List DaemonAlert) (a : DaemonAlert) → repeats (l ++ a ∷ []) a ≡ true
unfolding repeats
repeats_last [] a = is_repeat_refl a
repeats_last (b ∷ []) a = is_repeat_refl a
repeats_last (b ∷ c ∷ l) a = repeats_last (c ∷ l) a

repeats-newest : (l : List DaemonAlert) (a : DaemonAlert) → repeats (newest (l ++ a ∷ [])) a ≡ true
unfolding newest
repeats-newest l a =
    go (length (l ++ a ∷ []) - max_alerts) l (omega (arith, length-append l (a ∷ [])))
  where
    go : (n : ℕ) (l : List DaemonAlert) → n ≤ length l → repeats (drop n (l ++ a ∷ [])) a ≡ true
    go zero l h = repeats_last l a
    go (suc n) [] h = absurd (omega (arith, h))
    go (suc n) (b ∷ l) h = go n l (omega (arith, h))

-- the answer of `add_alert` on a stored state, by whether the alert repeats and the file can be
-- written
unfoldable pub answer :
    DaemonAlert → DaemonState → DaemonFile → Bool → Bool → Outcome DaemonFile DaemonState
answer a s f true w = done s f
answer a s f false true =
    let s' = record s { alerts = newest (s.alerts ++ a ∷ []) } in
    done s' (record f { content = stored s' })
answer a s f false false = raised daemon_error f

pub add_alert-answer :
    (a : DaemonAlert) (s : DaemonState) (w : Bool)
    → add_alert a (record { content = stored s; writable = w })
      ≡ answer a s (record { content = stored s; writable = w }) (repeats s.alerts a) w
unfolding add_alert load_required load load_stored required save answer
add_alert-answer a s true = elim (Bool-cases (repeats s.alerts a)) [
  | inl e ↦ rw e refl
  | inr e ↦ rw e refl
]
add_alert-answer a s false = elim (Bool-cases (repeats s.alerts a)) [
  | inl e ↦ rw e refl
  | inr e ↦ rw e refl
]

-- the file after it, and the same call again
answer-twice :
    (a : DaemonAlert) (s : DaemonState) (b w : Bool)
    → repeats s.alerts a ≡ b
    → (let o = answer a s (record { content = stored s; writable = w }) b w in
        add_alert a (after o) ≡ o)
unfolding answer
answer-twice a s true w h =
    add_alert-answer a s w
    ∙ ap (λ b. answer a s (record { content = stored s; writable = w }) b w) h
answer-twice a s false false h =
    add_alert-answer a s false
    ∙ ap (λ b. answer a s (record { content = stored s; writable = false }) b false) h
answer-twice a s false true h =
    let s' = record s { alerts = newest (s.alerts ++ a ∷ []) } in
    add_alert-answer a s' true
    ∙ ap (λ b. answer a s' (record { content = stored s'; writable = true }) b true)
        (repeats-newest s.alerts a)

missing-twice :
    (a : DaemonAlert) (w : Bool)
    → (let o = add_alert a (record { content = absent; writable = w }) in add_alert a (after o) ≡ o)
unfolding add_alert load_required load load_stored required
missing-twice a w = refl

corrupt-twice :
    (a : DaemonAlert) (w : Bool)
    → (let o = add_alert a (record { content = corrupt; writable = w }) in
        add_alert a (after o) ≡ o)
unfolding add_alert load_required load load_stored required
corrupt-twice a w = refl

-- Adding the same alert again, with no other in between, gives the same answer and the same file,
-- whether the first call returned or raised.
pub add_alert-twice :
    (alert : DaemonAlert) (file : DaemonFile)
    → add_alert alert (after (add_alert alert file)) ≡ add_alert alert file
add_alert-twice alert file = go file.content file.writable
  where
    go :
        (c : Stored) (w : Bool)
        → (let o = add_alert alert (record { content = c; writable = w }) in
            add_alert alert (after o) ≡ o)
    go absent w = missing-twice alert w
    go corrupt w = corrupt-twice alert w
    go (stored s) w =
        let first = add_alert-answer alert s w in
        ap (λ o. add_alert alert (after o)) first
        ∙ answer-twice alert s (repeats s.alerts alert) w refl
        ∙ sym first
