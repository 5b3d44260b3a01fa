-- ===== src/Epoll/Handling.antt =====
-- The part of `epoll_wait_manager` in epoll/src/event_context.rs that handles the events that are
-- ready. Beside the context, a method takes the rest of the world, which the program's own objects act
-- on, and returns both as it leaves them.
pub mod Safety
pub mod Calls
use vm_tools.Common.{
  ℕ, zero, suc, ◌/◌, ◌%◌, ◌^◌, ◌-◌, Bool, true, false, not, ◌&&◌, ◌||◌, Option, none, some, List,
  [], ◌∷◌, ◌++◌, ◌==◌, ltb, if◌then◌else◌, Outcome, ok, err, panic, out_of_fuel,
}
use vm_tools.Epoll.Notifier.{EventNotifier}
use vm_tools.Epoll.System.{EpollEvent, Epoll}
use vm_tools.Epoll.Context.{EventLoopContext, Result, is_alive, update_events}

-- What the objects of type `H` do: a callback of a notifier, one of a timer, and a manager. A callback
-- returns, and reaches a context through the notifiers that it asks for alone.
pub record Program (H W : Type 0) : Type 0 where
  pub call : H → ℕ → ℕ → W → Option (List (EventNotifier H)) × W
  pub fire : H → W → W
  pub should_exit : H → W → Bool
  pub cleanup : H → W → Result (Unit {0}) × W

module _ {H : Type 0} where
  -- The box at an address: one that the map keeps, or one that waits to be dropped.
  abbrev pub box_in : ℕ → List (ℕ × EventNotifier H) → Option (EventNotifier H)
  box_in addr [] = none
  box_in addr ((fd, n) ∷ m) = if n.addr == addr then some n else box_in addr m

  abbrev pub box_among : ℕ → List (EventNotifier H) → Option (EventNotifier H)
  box_among addr [] = none
  box_among addr (n ∷ gc) = if n.addr == addr then some n else box_among addr gc

  abbrev pub or_box : Option (EventNotifier H) → Option (EventNotifier H) → Option (EventNotifier H)
  or_box (some n) other = some n
  or_box none other = other

  unfoldable pub box_at : {K : Type 0} → ℕ → EventLoopContext K H → Option (EventNotifier H)
  box_at addr c = or_box (box_in addr c.events) (box_among addr c.gc)

abbrev pub get_list : {A : Type 0} → Option (List A) → List A
get_list none = []
get_list (some xs) = xs

-- What a method leaves: its result, the context and the world.
abbrev pub Left : Type 0 → Type 0 → Type 0 → Type 0 → Type 0
Left K H W A = Result A × EventLoopContext K H × W

-- `call?` of such a method, and what comes behind it.
abbrev pub go_on :
    {K H W A B : Type 0} → Left K H W A → (EventLoopContext K H → W → Left K H W B) → Left K H W B
go_on (ok _, c, w) next = next c w
go_on (err x, c, w) next = (err x, c, w)
go_on (panic, c, w) next = (panic, c, w)
go_on (out_of_fuel, c, w) next = (out_of_fuel, c, w)

-- `if let Err(e) = … { error!(…) }`.
abbrev pub logged : Result (Unit {0}) → Result (Unit {0})
logged (ok _) = ok tt
logged (err x) = ok tt
logged panic = panic
logged out_of_fuel = out_of_fuel

module _ {H W : Type 0} (p : Program H W) where
  -- `for handler in event.handlers.iter()`, with the notifiers so far.
  unfoldable pub call_handlers :
      List H → ℕ → ℕ → List (EventNotifier H) → W → List (EventNotifier H) × W
  call_handlers [] event fd notifiers w = (notifiers, w)
  call_handlers (handler ∷ rest) event fd notifiers w =
      let (more, w') = p.call handler event fd w in
      call_handlers rest event fd (notifiers ++ get_list more) w'

  -- The notifiers that the handlers ask for: a notifier that is not alive has none called.
  unfoldable pub ask : EventNotifier H → ℕ → W → List (EventNotifier H) × W
  ask event events w =
      if is_alive event.status
      then call_handlers event.handlers events event.raw_fd [] w
      else ([], w)

module _ {K H W : Type 0} (e : Epoll K) (p : Program H W) where
  -- A round of `for i in 0..ev_count`. To read a box that was dropped is a fault, which stands as a
  -- panic here.
  unfoldable pub handle_event : EventLoopContext K H → W → EpollEvent → Left K H W (Unit {0})
  handle_event c w ev = elim (box_at ev.data_ c) [
    | none ↦ (panic, c, w)
    | some event ↦
        let (notifiers, w') = ask p event ev.events w in
        let (r, c') = update_events e c notifiers in (logged r, c', w')
  ]

  unfoldable pub handle_events : EventLoopContext K H → W → List EpollEvent → Left K H W (Unit {0})
  handle_events c w [] = (ok tt, c, w)
  handle_events c w (ev ∷ evs) = go_on (handle_event c w ev) (λ c' w'. handle_events c' w' evs)
