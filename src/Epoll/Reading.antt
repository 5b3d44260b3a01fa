-- ===== src/Epoll/Reading.antt =====
-- `read_fd` of epoll/src/utils.rs, and the callback of `kick_event` that calls it.
use vm_tools.Common.{ℕ, Option, none, some, List}
use vm_tools.Epoll.Notifier.{EventNotifier}

-- `read` of libc on a buffer of 8 bytes, over the rest of the world: the number that the buffer holds
-- behind it, or none for -1, which leaves the buffer as it was.
abbrev pub Read : Type 0 → Type 0
Read W = ℕ → W → Option ℕ × W

unfoldable pub read_fd : {W : Type 0} → Read W → ℕ → W → ℕ × W
read_fd read fd w =
    let (ret, w') = read fd w in elim ret [ none ↦ (0, w') | some value ↦ (value, w') ]

-- The closure `kick_handler` of `init_tick`.
unfoldable pub kick_handler :
    {H W : Type 0} → Read W → ℕ → ℕ → W → Option (List (EventNotifier H)) × W
kick_handler read event fd w = let (_, w') = read_fd read fd w in (none, w')
