-- ===== src/Epoll/EventLoop/Contexts.antt =====
-- The contexts that `loop_init` makes.
use Prim.Native.String.{String}
use text.Mathlib.Text.{◌==◌ as str_eq}
use vm_tools.Common.{
  not-none-some, some-inj, ℕ, ◌≡◌, ◌↔◌, refl, sym, ap, subst, ◌∙◌, arith, inl, inr, Bool, true,
  false, Bool-cases, ◌||◌, Option, none, some, List, [], ◌∷◌, Outcome, ok, err, panic, out_of_fuel,
  Outcome-cases,
}
use vm_tools.Common.Names.{contains, find, set_name, find-set_name}
use vm_tools.Epoll.Notifier.{EventError}
use vm_tools.Epoll.System.{Epoll}
use vm_tools.Epoll.Context.{EventLoopContext}
use vm_tools.Epoll.Context.Kernel.{Registry, IsInterestList}
use vm_tools.Epoll.Context.Synced.{IsSynced}
use vm_tools.Epoll.Context.Start.{new, new-IsSynced}
use vm_tools.Epoll.Handling.{get_list}
use vm_tools.Epoll.EventLoop.{
  EventLoop, LoopError, Host, raise, and_then, new_context, add_contexts, fill_global, loop_init,
  get_ctx,
}

pub raise-ok : {A : Type 0} (r : Outcome EventError A) (a : A) → raise r ≡ ok a → r ≡ ok a
raise-ok (ok b) a h = ground arith
raise-ok (err x) a h = absurd (ground arith)
raise-ok panic a h = absurd (ground arith)
raise-ok out_of_fuel a h = absurd (ground arith)

and_then-ok :
    {A B W : Type 0} (x : Outcome LoopError A × W) (next : A → W → Outcome LoopError B × W) (b : B)
    → (and_then x next).0 ≡ ok b
    → (a : A) × (x.0 ≡ ok a) × ((next a x.1).0 ≡ ok b)
and_then-ok (ok a, w) next b h = (a, refl, h)
and_then-ok (err x, w) next b h = absurd (ground arith)
and_then-ok (panic, w) next b h = absurd (ground arith)
and_then-ok (out_of_fuel, w) next b h = absurd (ground arith)

abbrev found : {V : Type 0} → Option V → Bool
found none = false
found (some c) = true

module _ {V : Type 0} where
  -- What is found behind a new entry: it, or what was found before.
  abbrev All : (V → Type 0) → List (String × V) → Type 0
  All P m = (k : String) (c : V) → find k m ≡ some c → P c

  All-set_name :
      (P : V → Type 0) (k : String) (v : V) (m : List (String × V))
      → P v
      → All P m
      → All P (set_name k v m)
  All-set_name P k v m pv all j c h =
      let h' = sym (find-set_name k j v m) ∙ h in
      elim (Bool-cases (str_eq k j)) [
        | inl e ↦ let q : some v ≡ some c = rw (e) at h' in subst P (ground arith) pv
        | inr e ↦ all j c (rw (e) at h')
      ]

  found-set_name :
      (k j : String) (v : V) (m : List (String × V))
      → found (find j (set_name k v m)) ≡ (str_eq k j || found (find j m))
  found-set_name k j v m = elim (Bool-cases (str_eq k j)) [
    | inl e ↦ rw (find-set_name k j v m, e) refl
    | inr e ↦ rw (find-set_name k j v m, e) refl
  ]

or_swap : (a b c : Bool) → (a || (b || c)) ≡ ((b || a) || c)
or_swap true true c = refl
or_swap true false c = refl
or_swap false true c = refl
or_swap false false c = refl

module _ {K H W : Type 0} (e : Epoll K) (s : Host K H W) where
  -- A name is found behind `add_contexts` where it was found before, or is one of those added.
  found-add_contexts :
      (thr : List String) (io : List (String × EventLoopContext K H)) (w : W)
      (io' : List (String × EventLoopContext K H))
      → (add_contexts e s thr io w).0 ≡ ok io'
      → (k : String) → found (find k io') ≡ (contains k thr || found (find k io))
  unfolding add_contexts contains
  found-add_contexts [] io w io' h k =
      let same : io ≡ io' = ground arith in
      subst (λ m. found (find k m) ≡ found (find k io)) same refl
  found-add_contexts (item ∷ thr) io w io' h k =
      let x = new_context e s w in
      let (c, _, rest) =
        and_then-ok x (λ c w'. add_contexts e s thr (set_name item c io) w') io' h in
      found-add_contexts thr (set_name item c io) x.1 io' rest k
      ∙ rw (found-set_name item k c io)
          (or_swap (contains k thr) (str_eq item k) (found (find k io)))

  -- What the global is filled with: the contexts that were made, and one for the main loop.
  fill_global-parts :
      (io : List (String × EventLoopContext K H)) (w : W) (g : EventLoop K H)
      → (fill_global e s io w).1 ≡ some g
      → ((new_context e s w).0 ≡ ok g.main_loop) × (io ≡ g.io_thread)
  unfolding fill_global
  fill_global-parts io w g h = elim (Outcome-cases (new_context e s w).0) [
    | inl (c, q) ↦
        let filled : EventLoop K H = record { main_loop = c; io_thread = io } in
        let same = some-inj filled g (rw (q, fill_global) at h) in
        (q ∙ ap (λ x. ok x.main_loop) same, ap (λ x. x.io_thread) same)
    | inr (inl (x, q)) ↦ absurd (not-none-some g (rw (q, fill_global) at h))
    | inr (inr (inl q)) ↦ absurd (not-none-some g (rw (q, fill_global) at h))
    | inr (inr (inr q)) ↦ absurd (not-none-some g (rw (q, fill_global) at h))
  ]

  loop_init-parts :
      (threads : Option (List String)) (w : W) (g : EventLoop K H)
      → (loop_init e s threads none w).1 ≡ some g
      → ((add_contexts e s (get_list threads) [] w).0 ≡ ok g.io_thread)
        × (w' : W) × ((new_context e s w').0 ≡ ok g.main_loop)
  unfolding loop_init
  loop_init-parts threads w g h =
      let x = add_contexts e s (get_list threads) [] w in
      elim (Outcome-cases x.0) [
        | inl (io, q) ↦
            let (made, same) = fill_global-parts io x.1 g (rw (q, loop_init) at h) in
            (rw (q, same) refl, x.1, made)
        | inr (inl (y, q)) ↦ absurd (not-none-some g (rw (q, loop_init) at h))
        | inr (inr (inl q)) ↦ absurd (not-none-some g (rw (q, loop_init) at h))
        | inr (inr (inr q)) ↦ absurd (not-none-some g (rw (q, loop_init) at h))
      ]

  loop_init-again :
      (threads : Option (List String)) (w : W) (g : EventLoop K H)
      → (loop_init e s threads (some g) w).1 ≡ some g
  unfolding loop_init
  loop_init-again threads w g = elim (Outcome-cases (add_contexts e s (get_list threads) [] w).0) [
    | inl (io, q) ↦ rw (q, loop_init) refl
    | inr (inl (y, q)) ↦ rw (q, loop_init) refl
    | inr (inr (inl q)) ↦ rw (q, loop_init) refl
    | inr (inr (inr q)) ↦ rw (q, loop_init) refl
  ]

  module _ (registered : Registry K) (laws : IsInterestList e registered)
      (fresh : (w : W) (k : K) (fd : ℕ)
        → (s.give w).0.interest_list ≡ some k
        → registered k fd ≡ none) where
    new_context-IsSynced :
        (w : W) (c : EventLoopContext K H) → (new_context e s w).0 ≡ ok c → IsSynced e registered c
    unfolding new_context
    new_context-IsSynced w c h =
        let g = (s.give w).0 in
        let h' = raise-ok (new e g.interest_list g.now g.kick_fd g.kick_handler g.addr) c h in
        new-IsSynced e registered laws g.interest_list g.now g.kick_fd g.addr g.kick_handler c
          (fresh w) h'

    add_contexts-IsSynced :
        (thr : List String) (io : List (String × EventLoopContext K H)) (w : W)
        (io' : List (String × EventLoopContext K H))
        → All (IsSynced e registered) io
        → (add_contexts e s thr io w).0 ≡ ok io'
        → All (IsSynced e registered) io'
    unfolding add_contexts
    add_contexts-IsSynced [] io w io' all h =
        let same : io ≡ io' = ground arith in subst (λ m. All (IsSynced e registered) m) same all
    add_contexts-IsSynced (item ∷ thr) io w io' all h =
        let x = new_context e s w in
        let (c, made, rest) =
          and_then-ok x (λ c w'. add_contexts e s thr (set_name item c io) w') io' h in
        add_contexts-IsSynced thr (set_name item c io) x.1 io'
          (All-set_name (IsSynced e registered) item c io (new_context-IsSynced w c made) all) rest

    -- Where each new interest list is empty: in every context that `get_ctx` returns of the global that
    -- the first `loop_init` leaves, the map of the notifiers and the interest list agree.
    pub loop_init-IsSynced :
        (threads : Option (List String)) (w : W) (g : EventLoop K H) (name : Option String)
        (c : EventLoopContext K H)
        → (loop_init e s threads none w).1 ≡ some g
        → get_ctx (some g) name ≡ ok (some c)
        → IsSynced e registered c
    unfolding get_ctx find
    loop_init-IsSynced threads w g none c h q =
        let (made, w', main) = loop_init-parts threads w g h in
        let same : g.main_loop ≡ c = ground arith in
        subst (λ d. IsSynced e registered d) same (new_context-IsSynced w' g.main_loop main)
    loop_init-IsSynced threads w g (some k) c h q =
        let (made, _, _) = loop_init-parts threads w g h in
        add_contexts-IsSynced (get_list threads) [] w g.io_thread
          (λ j d x. absurd (not-none-some d x)) made k c (ground arith)

  not_found :
      (o : Option (EventLoopContext K H)) (b : Bool)
      → found o ≡ (b || false)
      → (Path (Outcome LoopError (Option (EventLoopContext K H))) (ok o) (ok none)) ↔ (b ≡ false)
  not_found none true h = absurd (ground arith)
  not_found none false h = (λ q. refl, λ q. refl)
  not_found (some c) true h = (λ q. absurd (ground arith), λ q. absurd (ground arith))
  not_found (some c) false h = absurd (ground arith)

  -- Of the global that the first `loop_init` leaves, `get_ctx` finds a context for each name that was
  -- asked for, and none for any other; a later `loop_init` with other names leaves the global as it is.
  pub loop_init-get_ctx :
      (threads more : Option (List String)) (w w' : W) (g : EventLoop K H) (k : String)
      → (loop_init e s threads none w).1 ≡ some g
      → ((get_ctx (some g) (some k) ≡ ok none) ↔ (contains k (get_list threads) ≡ false))
        × ((loop_init e s more (some g) w').1 ≡ some g)
  unfolding get_ctx find
  loop_init-get_ctx threads more w w' g k h =
      let (made, _, _) = loop_init-parts threads w g h in
      (
        not_found (find k g.io_thread) (contains k (get_list threads))
            (found-add_contexts (get_list threads) [] w g.io_thread made k),
        loop_init-again more w' g,
      )
