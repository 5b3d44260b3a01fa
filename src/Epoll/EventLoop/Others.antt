-- ===== src/Epoll/EventLoop/Others.antt =====
-- The contexts of the event loop beside the one that an operation names.
use Prim.Native.String.{String}
use text.Mathlib.Text.{◌==◌ as str_eq}
use text.Mathlib.TextEquality.{eq_iff}
use vm_tools.Common.{
  ◌≡◌, ◌≢◌, refl, sym, ap, inl, inr, Bool-cases, false, Option, none, some, Option-cases, List,
  Outcome-cases,
}
use vm_tools.Common.Names.{find-set_name}
use vm_tools.Epoll.Notifier.{EventNotifier}
use vm_tools.Epoll.System.{Epoll}
use vm_tools.Epoll.Context.{EventLoopContext, update_events}
use vm_tools.Epoll.Timing.{set_manager}
use vm_tools.Epoll.EventLoop.{EventLoop, get_ctx, write_ctx, set_loop_manager, update_event}

differs : (k j : String) → some j ≢ some k → str_eq k j ≡ false
differs k j h = elim (Bool-cases (str_eq k j)) [
  | inl e ↦ absurd (h (ap some (sym ((eq_iff k j).0 e))))
  | inr e ↦ e
]

module _ {K H : Type 0} where
  write_ctx-other :
      (global : Option (EventLoop K H)) (name other : Option String) (c : EventLoopContext K H)
      → other ≢ name
      → get_ctx (write_ctx global name c) other ≡ get_ctx global other
  unfolding get_ctx write_ctx
  write_ctx-other none name other c h = refl
  write_ctx-other (some g) none none c h = absurd (h refl)
  write_ctx-other (some g) none (some j) c h = refl
  write_ctx-other (some g) (some k) none c h = refl
  write_ctx-other (some g) (some k) (some j) c h =
      rw (find-set_name k j c g.io_thread, differs k j h) refl

  module _ (e : Epoll K) (notifiers : List (EventNotifier H)) (manager : H) where
    -- `update_event` and `set_manager` leave the context of every other name as it was, whatever they
    -- come back with.
    pub update_event-other :
        (global : Option (EventLoop K H)) (name other : Option String)
        → other ≢ name
        → (get_ctx (update_event e global notifiers name).1 other ≡ get_ctx global other)
          × (get_ctx (set_loop_manager global manager name).1 other ≡ get_ctx global other)
    unfolding update_event set_loop_manager
    update_event-other global name other h = elim (Outcome-cases (get_ctx global name)) [
      | inl (o, q) ↦ elim (Option-cases o) [
        | inl missing ↦ rw (q, missing, update_event, set_loop_manager) (refl, refl)
        | inr (ctx, found) ↦
            rw (q, found, update_event, set_loop_manager)
              (
                write_ctx-other global name other (update_events e ctx notifiers).1 h,
                write_ctx-other global name other (set_manager ctx manager) h,
              )
      ]
      | inr (inl (x, q)) ↦ rw (q, update_event, set_loop_manager) (refl, refl)
      | inr (inr (inl q)) ↦ rw (q, update_event, set_loop_manager) (refl, refl)
      | inr (inr (inr q)) ↦ rw (q, update_event, set_loop_manager) (refl, refl)
    ]
