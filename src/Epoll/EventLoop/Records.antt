-- ===== src/Epoll/EventLoop/Records.antt =====
-- What the helpers of epoll/src/utils.rs do to a record of descriptors.
use Prim.Native.String.{String}
use text.Mathlib.TextPositions.{eq_refl}
use vm_tools.Common.{
  ℕ, ◌≡◌, refl, sym, subst, ◌∙◌, ap, arith, inl, inr, Option, none, some, Option-cases, List, [],
  ◌++◌, Outcome, ok, err, panic, out_of_fuel, Outcome-cases,
}
use vm_tools.Common.Maps.{get}
use vm_tools.Epoll.Notifier.{EventNotifier, get_delete_notifiers, get_notifier_raw_fds}
use vm_tools.Epoll.System.{Epoll}
use vm_tools.Epoll.Context.{EventLoopContext, update_events}
use vm_tools.Epoll.EventLoop.{
  EventLoop, LoopError, context_not_found, get_ctx, write_ctx, update_event,
  unregister_event_helper, register_event_helper,
}
use vm_tools.Epoll.EventLoop.Contexts.{raise-ok}
use vm_tools.Common.Names.{find, set_name, find-set_name}
use vm_tools.Epoll.Context.Gone.{IsIn, deletes-gone}

find_self :
    {V : Type 0} (k : String) (v : V) (m : List (String × V)) → find k (set_name k v m) ≡ some v
find_self k v m = rw (find-set_name k k v m, eq_refl k) refl

module _ {K H : Type 0} (e : Epoll K) where
  -- A context whose removals succeeded has no notifier for what was removed.
  abbrev Cleared :
      List ℕ → Outcome LoopError (Unit {0}) × Option (EventLoop K H) → Option String → Type 0
  Cleared fds x name =
      (c : EventLoopContext K H)
      → x.0 ≡ ok tt
      → get_ctx x.1 name ≡ ok (some c)
      → (fd : ℕ) → IsIn fd fds
      → get fd c.events ≡ none

  update_event-Cleared :
      (global : Option (EventLoop K H)) (name : Option String) (fds : List ℕ)
      → Cleared fds (update_event e global (get_delete_notifiers e.event_in fds) name) name
  unfolding update_event get_ctx write_ctx find
  update_event-Cleared none name fds c h q fd isin = absurd (ground arith)
  update_event-Cleared (some g) none fds c h q fd isin =
      let x = update_events e g.main_loop (get_delete_notifiers e.event_in fds) in
      let (_, gone) = deletes-gone e fds g.main_loop (raise-ok x.0 tt h) in
      let same : x.1 ≡ c = ground arith in subst (λ d. get fd d.events ≡ none) same (gone fd isin)
  update_event-Cleared (some g) (some k) fds c h q fd isin =
      elim (Option-cases (find k g.io_thread)) [
        | inl missing ↦
            let bad : err context_not_found ≡ ok tt = rw (missing, update_event) at h in
            absurd (ground arith)
        | inr (ctx, found) ↦
            let x = update_events e ctx (get_delete_notifiers e.event_in fds) in
            let (_, gone) =
              deletes-gone e fds ctx (raise-ok x.0 tt (rw (found, update_event) at h)) in
            let q' : ok (find k (set_name k x.1 g.io_thread)) ≡ ok (some c) =
              rw (found, update_event) at q in
            let self = find_self k x.1 g.io_thread in
            let same : x.1 ≡ c = ground arith in
            subst (λ d. get fd d.events ≡ none) same (gone fd isin)
      ]

  register-record :
      (global : Option (EventLoop K H)) (notifiers : List (EventNotifier H)) (name : Option String)
      (record_evts : List ℕ)
      → (register_event_helper e global notifiers name record_evts).0 ≡ ok tt
      → (register_event_helper e global notifiers name record_evts).2
        ≡ record_evts ++ get_notifier_raw_fds notifiers
  unfolding register_event_helper
  register-record global notifiers name record_evts h =
      elim (Outcome-cases (update_event e global notifiers name).0) [
        | inl (_, q) ↦ rw (q, register_event_helper) refl
        | inr (inl (x, q)) ↦
            let bad : err x ≡ ok tt = rw (q, register_event_helper) at h in absurd (ground arith)
        | inr (inr (inl q)) ↦
            let bad : panic ≡ ok tt = rw (q, register_event_helper) at h in absurd (ground arith)
        | inr (inr (inr q)) ↦
            let bad : out_of_fuel ≡ ok tt = rw (q, register_event_helper) at h in
            absurd (ground arith)
      ]

  unregister-parts :
      (global : Option (EventLoop K H)) (name : Option String) (fds : List ℕ)
      → (unregister_event_helper e global name fds).0 ≡ ok tt
      → (((update_event e global (get_delete_notifiers e.event_in fds) name).0 ≡ ok tt)
          × ((update_event e global (get_delete_notifiers e.event_in fds) name).1
              ≡ (unregister_event_helper e global name fds).1))
        × ((unregister_event_helper e global name fds).2 ≡ [])
  unfolding unregister_event_helper
  unregister-parts global name fds h =
      elim (Outcome-cases (update_event e global (get_delete_notifiers e.event_in fds) name).0) [
        | inl (_, q) ↦ rw (q, unregister_event_helper) ((refl, refl), refl)
        | inr (inl (x, q)) ↦
            let bad : err x ≡ ok tt = rw (q, unregister_event_helper) at h in absurd (ground arith)
        | inr (inr (inl q)) ↦
            let bad : panic ≡ ok tt = rw (q, unregister_event_helper) at h in absurd (ground arith)
        | inr (inr (inr q)) ↦
            let bad : out_of_fuel ≡ ok tt = rw (q, unregister_event_helper) at h in
            absurd (ground arith)
      ]

  -- Descriptors that `register_event_helper` recorded, and those recorded before, have no notifier in
  -- the named context once `unregister_event_helper` succeeds with that record, on whatever the global
  -- has become in between; and the record is empty then.
  pub register-unregister :
      (global global' before after : Option (EventLoop K H)) (notifiers : List (EventNotifier H))
      (name : Option String) (record_evts fds left : List ℕ) (c : EventLoopContext K H) (fd : ℕ)
      → register_event_helper e global notifiers name record_evts ≡ (ok tt, before, fds)
      → unregister_event_helper e global' name fds ≡ (ok tt, after, left)
      → get_ctx after name ≡ ok (some c)
      → IsIn fd (record_evts ++ get_notifier_raw_fds notifiers)
      → (get fd c.events ≡ none) × (left ≡ [])
  register-unregister global global' before after notifiers name record_evts fds left c fd h h' q
        isin =
      let (known, cleared) = unregister-parts global' name fds (ap (λ x. x.0) h') in
      let all = register-record global notifiers name record_evts (ap (λ x. x.0) h) in
      let fds' = sym all ∙ ap (λ x. x.2) h in
      (
        update_event-Cleared global' name fds c known.0
            (ap (λ g. get_ctx g name) (known.1 ∙ ap (λ x. x.1) h') ∙ q) fd
            (subst (λ r. IsIn fd r) fds' isin),
        sym (ap (λ x. x.2) h') ∙ cleared,
      )
