-- ===== src/Events/Hooks/Order.antt =====
-- The order in which the hooks of an event run.
use mathlib.Core.List.{Perm}
use forge_os.Base.{
  ℕ, ◌<◌, String, Bool, ◌≡◌, ◌⊎◌, true, List, arith, filter, ◌==◌, ◌&&◌, nat_beq, eq_iff,
}
use forge_os.Base.Sort.{
  Order, Pairwise, IsSorted-Pairwise, sorted, sorted-IsSorted, sorted-perm, filter-sorted,
}
use forge_os.Base.Text.{str_leb, str_leb_total, str_leb_trans}
use forge_os.Events.Hooks.{RegisteredHook, hook_leb, hooks_for}

hook_leb_total : (a b : RegisteredHook) → (hook_leb a b ≡ true) ⊎ (hook_leb b a ≡ true)
unfolding hook_leb
hook_leb_total a b = ground (arith, str_leb_total a.name b.name)

hook_leb_trans :
    (a b c : RegisteredHook) → hook_leb a b ≡ true → hook_leb b c ≡ true → hook_leb a c ≡ true
unfolding hook_leb
hook_leb_trans a b c h k = ground (arith, str_leb_trans a.name b.name c.name)

hook_order : Order RegisteredHook
hook_order = record { leb = hook_leb; total = hook_leb_total; trans = hook_leb_trans }

-- by the order, and by the name among those of one order
abbrev pub Precedes : RegisteredHook → RegisteredHook → Type 0
Precedes a b = (a.order < b.order) ⊎ ((a.order ≡ b.order) × (str_leb a.name b.name ≡ true))

hook_leb-Precedes : (a b : RegisteredHook) → hook_leb a b ≡ true → Precedes a b
unfolding hook_leb
hook_leb-Precedes a b h = ground (arith, h)

abbrev pub is_called : ℕ → String → RegisteredHook → Bool
is_called order name h = nat_beq h.order order && (h.name == name)

hook_leb-tied :
    (order : ℕ) (name : String) (a b : RegisteredHook)
    → is_called order name a ≡ true
    → is_called order name b ≡ true
    → hook_leb a b ≡ true
unfolding hook_leb
hook_leb-tied order name a b h k = ground (
  arith,
  h,
  k,
  eq_iff a.name name,
  eq_iff b.name name,
  str_leb_total a.name b.name,
  str_leb_total b.name a.name,
)

-- The hooks that run are those registered for the event's type, each as often as it was registered,
-- in ascending order, those of one order by their names; those of one order and one name run as
-- they were registered.
pub hooks_for-IsSorted :
    (hooks : List RegisteredHook) (t : String) (order : ℕ) (name : String)
    → Pairwise Precedes (hooks_for hooks t)
      × Perm (hooks_for hooks t) (filter (λ h. h.event_type == t) hooks)
      × (filter (is_called order name) (hooks_for hooks t)
          ≡ filter (is_called order name) (filter (λ h. h.event_type == t) hooks))
unfolding hooks_for hook_order
hooks_for-IsSorted hooks t order name = (
  IsSorted-Pairwise hook_leb Precedes hook_leb-Precedes
      (sorted hook_leb (filter (λ h. h.event_type == t) hooks))
      (sorted-IsSorted hook_order (filter (λ h. h.event_type == t) hooks)),
  sorted-perm hook_leb (filter (λ h. h.event_type == t) hooks),
  filter-sorted hook_leb (is_called order name) (hook_leb-tied order name)
      (filter (λ h. h.event_type == t) hooks),
)
