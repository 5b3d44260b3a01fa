-- ===== src/Epoll/Context/Kernel.antt =====
-- What epoll_ctl(2) documents of the interest list that the context keeps its notifiers in.
use vm_tools.Common.{ℕ, ◌≡◌, ◌||◌, ◌==◌, true, if◌then◌else◌, Option, none, some}
use vm_tools.UtilErrors.{IoError}
use vm_tools.Epoll.System.{ctl_add, ctl_modify, ctl_delete, EpollEvent, done, failed, Epoll}

-- The event that an interest list has for a descriptor.
abbrev pub Registry : Type 0 → Type 0
Registry K = K → ℕ → Option EpollEvent

-- A call that succeeds writes the entry of its descriptor alone: to add, the descriptor has none. To
-- delete, ENOENT says that it has none, EPERM that it cannot have one, and EBADF that it was closed,
-- which takes its entry out (no duplicate of it is left open).
pub record IsInterestList {K : Type 0} (e : Epoll K) (registered : Registry K) : Type 0 where
  pub add_fresh :
      (fd : ℕ) (ev : EpollEvent) (k k' : K)
      → e.ctl ctl_add fd ev k ≡ done k'
      → registered k fd ≡ none
  pub add_writes :
      (fd : ℕ) (ev : EpollEvent) (k k' : K)
      → e.ctl ctl_add fd ev k ≡ done k'
      → (i : ℕ) → registered k' i ≡ (if i == fd then some ev else registered k i)
  pub modify_known :
      (fd : ℕ) (ev : EpollEvent) (k k' : K)
      → e.ctl ctl_modify fd ev k ≡ done k'
      → (old : EpollEvent) × (registered k fd ≡ some old)
  pub modify_writes :
      (fd : ℕ) (ev : EpollEvent) (k k' : K)
      → e.ctl ctl_modify fd ev k ≡ done k'
      → (i : ℕ) → registered k' i ≡ (if i == fd then some ev else registered k i)
  pub delete_writes :
      (fd : ℕ) (ev : EpollEvent) (k k' : K)
      → e.ctl ctl_delete fd ev k ≡ done k'
      → (i : ℕ) → registered k' i ≡ (if i == fd then none else registered k i)
  pub delete_gone :
      (fd n : ℕ) (ev : EpollEvent) (k : K) (x : IoError)
      → e.ctl ctl_delete fd ev k ≡ failed x
      → x.raw_os_error ≡ some n
      → (n == e.ebadf) || (n == e.enoent) || (n == e.eperm) ≡ true
      → registered k fd ≡ none
