-- ===== src/Epoll.antt =====
-- The crate epoll: the virtual clock and the timers, the event notifiers and the context that runs them.
-- `Instant` and `Duration` are nanoseconds from one fixed point; what a method reads from the clock of
-- the system is an argument `now`.
pub mod Clock
pub mod Timers
pub mod Notifier
pub mod System
pub mod Context
pub mod Timing
pub mod Handling
pub mod Loop
pub mod EventLoop
pub mod Reading
pub mod Wake
mod Examples
