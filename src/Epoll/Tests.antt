-- ===== src/Epoll/Tests.antt =====
-- An interest list that is a function, a descriptor that is set to be read, and a queue that is set up.
use libyaooi.Prelude.{ℕ, ◌≡◌, refl, ap, Option, none, some, [], ◌∷◌, ◌==◌, if◌then◌else◌}
use libyaooi.Errno.Os.{Errno}
use libyaooi.Socket.{done}
use libyaooi.Epoll.{Evn, Op, add, modify, del, EpollSystem, evn_of}
use libyaooi.Epoll.Setup.{PipeAnswers, QueueFds}

abbrev Table : Type 0
Table = ℕ → Option Evn

abbrev change : Table → ℕ → Option Evn → Table
change t fd v g = if g == fd then v else t g

abbrev ctl_at : Op → Option Evn → ℕ → Evn → Table → Option Errno × Table
ctl_at add none fd e t = (none, change t fd (some e))
ctl_at add (some old) fd e t = (some Errno.eexist, t)
ctl_at modify none fd e t = (some Errno.enoent, t)
ctl_at modify (some old) fd e t = (none, change t fd (some e))
ctl_at del none fd e t = (some Errno.enoent, t)
ctl_at del (some old) fd e t = (none, change t fd none)

abbrev ctl_of : Op → ℕ → Evn → Table → Option Errno × Table
ctl_of op fd e t = ctl_at op (t fd) fd e t

done_at :
    (op : Op) (o v : Option Evn) (t : Table) (fd : ℕ) (e : Evn)
    → ((ctl_at op o fd e t).0 ≡ none → (ctl_at op o fd e t).1 ≡ change t fd v)
    → (ctl_at op o fd e t).0 ≡ none
    → (g : ℕ) → (ctl_at op o fd e t).1 g ≡ (if g == fd then v else t g)
done_at op o v t fd e h n g = ap (λ u. u g) (h n)

add_changes :
    (o : Option Evn) (t : Table) (fd : ℕ) (e : Evn)
    → (ctl_at add o fd e t).0 ≡ none
    → (ctl_at add o fd e t).1 ≡ change t fd (some e)
add_changes none t fd e h = refl
add_changes (some old) t fd e h = absurd cc

modify_changes :
    (o : Option Evn) (t : Table) (fd : ℕ) (e : Evn)
    → (ctl_at modify o fd e t).0 ≡ none
    → (ctl_at modify o fd e t).1 ≡ change t fd (some e)
modify_changes none t fd e h = absurd cc
modify_changes (some old) t fd e h = refl

del_changes :
    (o : Option Evn) (t : Table) (fd : ℕ) (e : Evn)
    → (ctl_at del o fd e t).0 ≡ none
    → (ctl_at del o fd e t).1 ≡ change t fd none
del_changes none t fd e h = absurd cc
del_changes (some old) t fd e h = refl

fails_at :
    (op : Op) (o : Option Evn) (t : Table) (fd : ℕ) (e : Evn) (err : Errno)
    → (ctl_at op o fd e t).0 ≡ some err
    → (ctl_at op o fd e t).1 ≡ t
fails_at add none t fd e err h = absurd cc
fails_at add (some old) t fd e err h = refl
fails_at modify none t fd e err h = refl
fails_at modify (some old) t fd e err h = absurd cc
fails_at del none t fd e err h = refl
fails_at del (some old) t fd e err h = absurd cc

del_unknown_at :
    (o : Option Evn) (t : Table) (fd : ℕ) (e : Evn)
    → (ctl_at del o fd e t).0 ≡ some Errno.enoent
    → o ≡ none
del_unknown_at none t fd e h = refl
del_unknown_at (some old) t fd e h = absurd cc

modify_unknown_at :
    (o : Option Evn) (t : Table) (fd : ℕ) (e : Evn)
    → (ctl_at modify o fd e t).0 ≡ some Errno.enoent
    → o ≡ none
modify_unknown_at none t fd e h = refl
modify_unknown_at (some old) t fd e h = absurd cc

abbrev tables : EpollSystem
tables = record {
  Interests = Table;
  interest = λ t fd. t fd;
  ctl = ctl_of;
  add_done = λ t fd e. done_at add (t fd) (some e) t fd e (add_changes (t fd) t fd e);
  modify_done = λ t fd e. done_at modify (t fd) (some e) t fd e (modify_changes (t fd) t fd e);
  del_done = λ t fd e. done_at del (t fd) none t fd e (del_changes (t fd) t fd e);
  ctl_fails = λ op t fd e err. fails_at op (t fd) t fd e err;
  del_unknown = λ t fd e. del_unknown_at (t fd) t fd e;
  modify_unknown = λ t fd e. modify_unknown_at (t fd) t fd e;
}

abbrev nothing : Table
nothing fd = none

abbrev pointed : Evn
pointed = evn_of 1 4294967299

abbrev pipes : PipeAnswers
pipes = record {
  pipe = done (6, 7);
  nonblock_read = done tt;
  nonblock_write = done tt;
  masked = done tt;
}

abbrev queue : QueueFds
queue = record { timer_fd = 4; epoll_fd = 5; notify = (6, 7) }

abbrev used : libyaooi.Spawn.Ledger
used = record {
  opened = 4 ∷ 5 ∷ 6 ∷ 7 ∷ [];
  closed = [];
  blocks = 0;
  children = 0;
  errno = Errno.eio;
}

abbrev again : PipeAnswers
again = record {
  pipe = done (8, 9);
  nonblock_read = done tt;
  nonblock_write = done tt;
  masked = done tt;
}
