-- ===== src/Epoll/EventLoop.antt =====
-- `EventLoop` of epoll/src/event_loop.rs, and the helpers of epoll/src/utils.rs that register notifiers
-- with it. `GLOBAL_EVENT_LOOP` is an argument, and what an operation leaves of it stands behind its result.
pub mod Rounds
pub mod Contexts
pub mod Records
pub mod Others
pub mod Safety
use Prim.Native.String.{String}
use vm_tools.Common.{
  ℕ, zero, suc, Bool, true, false, Option, none, some, List, [], ◌∷◌, ◌++◌, Outcome, ok, err, panic,
  out_of_fuel,
}
use vm_tools.Common.Names.{find, set_name, names}
use vm_tools.Epoll.Notifier.{EventNotifier, EventError, get_notifier_raw_fds, get_delete_notifiers}
use vm_tools.UtilErrors.{IoError}
use vm_tools.Epoll.System.{Epoll, Waits}
use vm_tools.Epoll.Context.{EventLoopContext, update_events}
use vm_tools.Epoll.Context.Start.{new}
use vm_tools.Epoll.Timing.{set_manager}
use vm_tools.Epoll.Handling.{Program, Left, get_list}
use vm_tools.Epoll.Loop.{run, io_thread_run}

pub record EventLoop (K H : Type 0) : Type 0 where
  pub main_loop : EventLoopContext K H
  pub io_thread : List (String × EventLoopContext K H)

-- What an operation fails with: the two texts of `bail!`, an error of `spawn`, or one passed on.
pub data LoopError : Type 0 where
  context_not_found : LoopError
  not_initialized : LoopError
  spawn_failed : IoError → LoopError
  context_error : EventError → LoopError

-- What the system gives a new context: an empty interest list and the descriptor of `kick_event`, if
-- they are to be had, the time, the callback that reads `kick_event`, and the address of its notifier.
pub record Given (K H : Type 0) : Type 0 where
  pub interest_list : Option K
  pub now : ℕ
  pub kick_fd : Option ℕ
  pub kick_handler : H
  pub addr : ℕ

-- What `loop_init` takes from the system, over the rest of the world `W`: what a context is made of, a
-- new thread of a name (with its error, if there is one), and the order that a `HashMap` has its keys in.
pub record Host (K H W : Type 0) : Type 0 where
  pub give : W → Given K H × W
  pub spawn : String → W → Option IoError × W
  pub key_order : List String → List String

-- `?` on an error of a context.
abbrev pub raise : {A : Type 0} → Outcome EventError A → Outcome LoopError A
raise (ok a) = ok a
raise (err x) = err (context_error x)
raise panic = panic
raise out_of_fuel = out_of_fuel

-- What comes behind a call that acts on the world.
abbrev pub and_then :
    {A B W : Type 0}
    → Outcome LoopError A × W
    → (A → W → Outcome LoopError B × W)
    → Outcome LoopError B × W
and_then (ok a, w) next = next a w
and_then (err x, w) next = (err x, w)
and_then (panic, w) next = (panic, w)
and_then (out_of_fuel, w) next = (out_of_fuel, w)

module _ {K H W : Type 0} (e : Epoll K) (s : Host K H W) where
  -- `EventLoopContext::new()`.
  unfoldable pub new_context : W → Outcome LoopError (EventLoopContext K H) × W
  new_context w =
      let (g, w') = s.give w in
      (raise (new e g.interest_list g.now g.kick_fd g.kick_handler g.addr), w')

  unfoldable pub add_contexts :
      List String
      → List (String × EventLoopContext K H)
      → W
      → Outcome LoopError (List (String × EventLoopContext K H)) × W
  add_contexts [] io_threads w = (ok io_threads, w)
  add_contexts (item ∷ thr) io_threads w =
      and_then (new_context w) (λ c w'. add_contexts thr (set_name item c io_threads) w')

  unfoldable pub spawn_all : List String → W → Outcome LoopError (Unit {0}) × W
  spawn_all [] w = (ok tt, w)
  spawn_all (id ∷ rest) w =
      let (failure, w') = s.spawn id w in
      elim failure [ none ↦ spawn_all rest w' | some x ↦ (err (spawn_failed x), w') ]

  -- The part under `if GLOBAL_EVENT_LOOP.is_none()`.
  unfoldable pub fill_global :
      List (String × EventLoopContext K H)
      → W
      → Outcome LoopError (Unit {0}) × Option (EventLoop K H) × W
  fill_global io_threads w =
      let (r, w') = new_context w in
      elim r [
        | ok c ↦
            let (done, w'') = spawn_all (s.key_order (names io_threads)) w' in
            (done, some (record { main_loop = c; io_thread = io_threads }), w'')
        | err x ↦ (err x, none, w')
        | panic ↦ (panic, none, w')
        | out_of_fuel ↦ (out_of_fuel, none, w')
      ]

  unfoldable pub loop_init :
      Option (List String)
      → Option (EventLoop K H)
      → W
      → Outcome LoopError (Unit {0}) × Option (EventLoop K H) × W
  loop_init iothreads global w =
      let (r, w') = add_contexts (get_list iothreads) [] w in
      elim r [
        | ok io_threads ↦ elim global [
          | none ↦ fill_global io_threads w'
          | some event_loop ↦ (ok tt, some event_loop, w')
        ]
        | err x ↦ (err x, global, w')
        | panic ↦ (panic, global, w')
        | out_of_fuel ↦ (out_of_fuel, global, w')
      ]

module _ {K H : Type 0} where
  -- The context of a name, or the main one; a panic before `loop_init`.
  unfoldable pub get_ctx :
      Option (EventLoop K H) → Option String → Outcome LoopError (Option (EventLoopContext K H))
  get_ctx none name = panic
  get_ctx (some event_loop) (some name) = ok (find name event_loop.io_thread)
  get_ctx (some event_loop) none = ok (some event_loop.main_loop)

  -- A write through the `&mut` that `get_ctx` returned.
  unfoldable pub write_ctx :
      Option (EventLoop K H) → Option String → EventLoopContext K H → Option (EventLoop K H)
  write_ctx none name c = none
  write_ctx (some event_loop) (some name) c =
      some (record event_loop { io_thread = set_name name c event_loop.io_thread })
  write_ctx (some event_loop) none c = some (record event_loop { main_loop = c })

  -- `EventLoop::set_manager`.
  unfoldable pub set_loop_manager :
      Option (EventLoop K H)
      → H
      → Option String
      → Outcome LoopError (Unit {0}) × Option (EventLoop K H)
  set_loop_manager global manager name = elim (get_ctx global name) [
    | ok (some ctx) ↦ (ok tt, write_ctx global name (set_manager ctx manager))
    | ok none ↦ (ok tt, global)
    | err x ↦ (err x, global)
    | panic ↦ (panic, global)
    | out_of_fuel ↦ (out_of_fuel, global)
  ]

  module _ (e : Epoll K) where
    unfoldable pub update_event :
        Option (EventLoop K H)
        → List (EventNotifier H)
        → Option String
        → Outcome LoopError (Unit {0}) × Option (EventLoop K H)
    update_event global notifiers name = elim (get_ctx global name) [
      | ok (some ctx) ↦
          let (r, ctx') = update_events e ctx notifiers in (raise r, write_ctx global name ctx')
      | ok none ↦ (err context_not_found, global)
      | err x ↦ (err x, global)
      | panic ↦ (panic, global)
      | out_of_fuel ↦ (out_of_fuel, global)
    ]

    -- The record of the descriptors stands last.
    unfoldable pub register_event_helper :
        Option (EventLoop K H)
        → List (EventNotifier H)
        → Option String
        → List ℕ
        → Outcome LoopError (Unit {0}) × Option (EventLoop K H) × List ℕ
    register_event_helper global notifiers ctx_name record_evts =
        let (r, global') = update_event global notifiers ctx_name in
        elim r [
          | ok _ ↦ (ok tt, global', record_evts ++ get_notifier_raw_fds notifiers)
          | err x ↦ (err x, global', record_evts)
          | panic ↦ (panic, global', record_evts)
          | out_of_fuel ↦ (out_of_fuel, global', record_evts)
        ]

    unfoldable pub unregister_event_helper :
        Option (EventLoop K H)
        → Option String
        → List ℕ
        → Outcome LoopError (Unit {0}) × Option (EventLoop K H) × List ℕ
    unregister_event_helper global ctx_name record_evts =
        let (r, global') =
          update_event global (get_delete_notifiers e.event_in record_evts) ctx_name in
        elim r [
          | ok _ ↦ (ok tt, global', [])
          | err x ↦ (err x, global', record_evts)
          | panic ↦ (panic, global', record_evts)
          | out_of_fuel ↦ (out_of_fuel, global', record_evts)
        ]
