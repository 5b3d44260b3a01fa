-- ===== src/Lib.antt =====
-- vm-tools: the support crates of a virtual machine monitor (utils, hypervisor, epoll).
--
-- Parts, and the files that model them:
--   BitOps.antt, Word.antt: the trait `BitOps` of utils/src/bitmap.rs and the macro `bitops!` that
--     implements it for u8, u16, u32 and u64. A word is the number that it holds. `BitView` is the
--     contract that a bitmap needs of the trait (a word is a row of bits, and the operations act on
--     them bit by bit); Word/View.antt shows that the macro's implementations keep it.
--   Bitmap.antt and below: `Bitmap` of utils/src/bitmap.rs, generic over the trait. `new`, `size`, `vol`,
--     `set`, `clear`, `change`, `contain`, `clear_all` and `get_data` stand in Bitmap.antt,
--     `set_range` and `clear_range` in Bitmap/Range.antt, `count_front_bits` in Bitmap/Count.antt,
--     `find_next_zero` and `find_next_bit` in Bitmap/Find.antt. Bitmap/Bits.antt reads a bitmap as a
--     row of bits, in which the laws of the single methods are stated; Bitmap/BitSet.antt is the abstract
--     view, a set of numbers with the replies that its calls promise, and Bitmap/Refinement.antt relates
--     the two. Bitmap/UnitTests.antt has the unit tests of the file, as functions into Bool.
--   UtilErrors.antt: the errors of utils/src/error.rs.
--   Interrupt.antt and below: `IrqRouteTable` of hypervisor/src/interrupt.rs, for x86_64: the interrupt
--     routes, and the bitmap of the numbers (GSI) that are in use, which is a bitmap of u64 words.
--     Interrupt/Lifecycle.antt has the tables that lists of calls leave, from `init_irq_route_table` on.
--   Epoll/Clock.antt: `ClockState` of epoll/src/timer.rs.
--   Epoll/Timers.antt and below: `Timer` of epoll/src/timer.rs, and the methods on `timers` of
--     `EventLoopContext` in epoll/src/event_context.rs, as functions of the list: `timer_add`
--     (`add_timer`), `timer_del` (`del_timer`), `timers_min_duration` (`min_duration`), `run_timers`.
--     Epoll/Timing.antt has the same methods on the whole context, with the flags that they touch.
--   Epoll/Notifier.antt: `EventNotifier` of epoll/src/event_notifier.rs and the errors of
--     epoll/src/utils.rs.
--   Epoll/Context.antt and below: `EventLoopContext` of epoll/src/event_context.rs: `new`, `add_event`,
--     `modify_event`, `park_event`, `resume_event`, `rm_event`, `update_events` (whose `match` is
--     `dispatch`), `tick` and `gc_clean`. They keep two things in step: the map of the notifiers, and
--     the interest list of the system, which is a parameter with what epoll_ctl(2) documents
--     (Epoll/Context/Kernel.antt). Epoll/Context/Boxes.antt follows the boxes of the notifiers, whose
--     addresses the interest list holds, and Epoll/Context/Parking.antt the map where one parks another.
--   Epoll/System.antt: what the crate uses of vmm_sys_util, nix and libc.
--   Epoll/Handling.antt, Epoll/Loop.antt: a round of `EventLoopContext`: `epoll_wait_manager` (its loop
--     over the events that are ready is `handle_events`), `run` and `io_thread_run`.
--   Epoll/Wake.antt: `kicked`, `kick_me` and `kick_event` as the thread of the loop shares them with the
--     threads that call `timer_add` and `tick`: a step relation, with an access a step (`LookStep` for
--     `timers_min_duration`, `WaitStep` for `epoll_wait_manager`, `TickStep` for `tick`, `CallStep` for
--     what stands ahead of it).
--   Epoll/EventLoop.antt and below: `EventLoop` of epoll/src/event_loop.rs (`set_manager` is
--     `set_loop_manager` there) and the helpers of epoll/src/utils.rs that register notifiers with it.
--     Epoll/EventLoop/Rounds.antt has its loops over rounds. `GLOBAL_EVENT_LOOP` is an argument.
--   Epoll/Reading.antt: `read_fd` of epoll/src/utils.rs, and the callback of `kick_event`.
--   Epoll/Examples/UnitTests.antt: the unit tests of event_context.rs and timer.rs.
--   Common.antt and below: lists, maps, tests, and the result of a fallible call.
--
-- How the code is read:
--   A method that takes `&mut self` returns its result together with the object that it leaves, on the
--   error branches too. `Outcome` tells an error value from a panic. An index range `for i in a..b`
--   recurs on the rounds left. Three loops take fuel: that of `set_range` and `clear_range`, with one
--   more than the length (a round takes a bit at least), that of `remove_irq_route`, with one more than
--   the number of entries (a round takes one out), and that of `gc_clean`, in the same way; the theorems
--   on them show that the fuel is enough, since `out_of_fuel` is no result of theirs. `usize` is a plain
--   number: a bitmap whose bits cannot be counted in 64 bits fits no memory, and the arithmetic stays
--   within its volume where it is read. The cast of an allocated number to u32 is written out. Times
--   are nanoseconds from one fixed point, and the present time is an argument.
--   Callbacks and managers are objects of a type `H`; what they do (`Program`) acts on the rest of the
--   world beside the context, and a callback asks for changes of the context through the notifiers that
--   it returns. That is a reading: a callback that panics, or that calls the functions of `EventLoop`
--   itself, which nothing in its type forbids, is not covered.
--   To read a box that was dropped is a fault of memory, which stands as a panic. The loops of `loop_run` and of the threads go on until an error or
--   an exit, so they take a number of rounds, with `out_of_fuel` for a loop that still runs. A `BTreeMap`
--   and a `HashMap` are association lists; `io_thread_run` goes through the first in the order of its keys.
--
-- Parameters: the constants of the crate kvm_bindings (`KvmBindings`); the number that
--   `check_extension_int(Cap::IrqRouting)` comes back with; the call `ctl` of vmm_sys_util's epoll with
--   the error numbers of libc (`Epoll`), and its laws (`IsInterestList`): a call that succeeds writes
--   the entry of its descriptor alone, and adds only where there is none; Epoll/Examples has an
--   association list that keeps them; the waits (`Waits`), of which the theorems on rounds ask that they
--   report entries of the interest list (`Reports`), and of a failing call that its error has a number
--   (`HasNumbers`), as every error of the system has; what the system gives a new context, the start of
--   a thread and the order of a `HashMap` (`Host`); `read` of libc. A notifier carries the address of its
--   box, which the allocator chooses.
--
-- Not modelled: callbacks that panic or change a context themselves; hypervisor/src/error.rs and the
--   module lists (no behaviour); the aarch64 parts of interrupt.rs; the texts of errors and logs, and
--   the context that is added to errors; poisoned mutexes; the threads that `loop_init` spawns as
--   running beside one another, but for the accesses of Epoll/Wake.antt, which are sequentially
--   consistent as the source asks. The warning of `tick` on a failing write changes nothing. The trait
--   `EventNotifierHelper` has no body.
pub mod Common
pub mod BitOps
pub mod Word
pub mod UtilErrors
pub mod Bitmap
pub mod Interrupt
pub mod Epoll
