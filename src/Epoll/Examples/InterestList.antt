-- ===== src/Epoll/Examples/InterestList.antt =====
-- An interest list that keeps what epoll_ctl(2) documents: an association list.
use vm_tools.Common.{ℕ, ◌≡◌, refl, subst, arith, ◌==◌, if◌then◌else◌, Option, none, some, List}
use vm_tools.Common.Maps.{get, insert, remove, get-insert, get-remove}
use vm_tools.UtilErrors.{IoError}
use vm_tools.Epoll.System.{
  ControlOperation, ctl_add, ctl_modify, ctl_delete, EpollEvent, CtlResult, done, failed, Epoll,
}
use vm_tools.Epoll.Context.Kernel.{IsInterestList}

abbrev pub Entries : Type 0
Entries = List (ℕ × EpollEvent)

abbrev pub io_error : ℕ → IoError
io_error n = record { raw_os_error = some n }

-- EEXIST, and ENOENT.
abbrev pub add_to : Option EpollEvent → ℕ → EpollEvent → Entries → CtlResult Entries
add_to none fd ev m = done (insert fd ev m)
add_to (some old) fd ev m = failed (io_error 17)

abbrev pub modify_in : Option EpollEvent → ℕ → EpollEvent → Entries → CtlResult Entries
modify_in none fd ev m = failed (io_error 2)
modify_in (some old) fd ev m = done (insert fd ev m)

abbrev pub delete_from : Option EpollEvent → ℕ → Entries → CtlResult Entries
delete_from none fd m = failed (io_error 2)
delete_from (some old) fd m = done (remove fd m)

abbrev pub ctl : ControlOperation → ℕ → EpollEvent → Entries → CtlResult Entries
ctl ctl_add fd ev m = add_to (get fd m) fd ev m
ctl ctl_modify fd ev m = modify_in (get fd m) fd ev m
ctl ctl_delete fd ev m = delete_from (get fd m) fd m

abbrev pub entries : Epoll Entries
entries = record { ctl = ctl; ebadf = 9; enoent = 2; eperm = 1; event_in = 1 }

abbrev pub lookup : Entries → ℕ → Option EpollEvent
lookup m fd = get fd m

add_done :
    (o : Option EpollEvent) (fd : ℕ) (ev : EpollEvent) (k k' : Entries)
    → add_to o fd ev k ≡ done k'
    → (o ≡ none) × (insert fd ev k ≡ k')
add_done none fd ev k k' h = (refl, cc)
add_done (some old) fd ev k k' h = ground arith

modify_done :
    (o : Option EpollEvent) (fd : ℕ) (ev : EpollEvent) (k k' : Entries)
    → modify_in o fd ev k ≡ done k'
    → ((old : EpollEvent) × (o ≡ some old)) × (insert fd ev k ≡ k')
modify_done none fd ev k k' h = ground arith
modify_done (some old) fd ev k k' h = ((old, refl), cc)

delete_done :
    (o : Option EpollEvent) (fd : ℕ) (k k' : Entries)
    → delete_from o fd k ≡ done k'
    → remove fd k ≡ k'
delete_done none fd k k' h = ground arith
delete_done (some old) fd k k' h = cc

delete_failed :
    (o : Option EpollEvent) (fd : ℕ) (k : Entries) (x : IoError)
    → delete_from o fd k ≡ failed x
    → o ≡ none
delete_failed none fd k x h = refl
delete_failed (some old) fd k x h = ground arith

pub entries-IsInterestList : IsInterestList entries lookup
entries-IsInterestList = record {
  add_fresh = λ fd ev k k' h. (add_done (get fd k) fd ev k k' h).0;
  add_writes = λ fd ev k k' h i.
      subst (λ m. get i m ≡ (if i == fd then some ev else get i k))
        (add_done (get fd k) fd ev k k' h).1 (get-insert i fd ev k);
  modify_known = λ fd ev k k' h. (modify_done (get fd k) fd ev k k' h).0;
  modify_writes = λ fd ev k k' h i.
      subst (λ m. get i m ≡ (if i == fd then some ev else get i k))
        (modify_done (get fd k) fd ev k k' h).1 (get-insert i fd ev k);
  delete_writes = λ fd ev k k' h i.
      subst (λ m. get i m ≡ (if i == fd then none else get i k)) (delete_done (get fd k) fd k k' h)
        (get-remove i fd k);
  delete_gone = λ fd n ev k x h number gone. delete_failed (get fd k) fd k x h;
}
