-- ===== src/Epoll/Interest.antt =====
-- What `yoi_pl_impl_setmask` makes of the interest list.
use libyaooi.Prelude.{ℕ, ◌≡◌, false, ◌⊎◌, Option, none, some, ◌==◌, if◌then◌else◌}
use libyaooi.Errno.{Code}
use libyaooi.Errno.Os.{Errno}
use libyaooi.Errno.Unix.{conv_errno}
use libyaooi.Epoll.{Evn, add, EpollSystem, Op, is_enoent, evn_of}

module _ (E : EpollSystem) where
  open E use {
    Interests, interest, ctl, add_done, modify_done, del_done, ctl_fails, del_unknown,
    modify_unknown,
  }

  -- What is kept for a descriptor that is set to a mask.
  abbrev pub wanted : (udata mask : ℕ) → Option Evn
  wanted udata mask = if mask == 0 then none else some (evn_of mask udata)

  -- The interest of the descriptor is `v`, and that of the others is as before.
  abbrev pub Updated : Interests → Interests → ℕ → Option Evn → Type 0
  Updated l l1 fd v = (g : ℕ) → interest l1 g ≡ (if g == fd then v else interest l g)

  -- It is done; or an operation is refused, but for one that is ENOENT of another than EPOLL_CTL_ADD, and nothing has changed;
  -- EPOLL_CTL_ADD is asked for a descriptor that is not known only.
  abbrev pub Done : (udata fd mask : ℕ) → Interests → Option Code × Interests → Type 0
  Done udata fd mask l r =
      ((r.0 ≡ some Code.ok) × Updated l r.1 fd (wanted udata mask))
      ⊎ ((op : Op) × (e : Errno) × ((ctl op fd (evn_of mask udata) l).0 ≡ some e)
          × (((op ≡ add) × (interest l fd ≡ none)) ⊎ (is_enoent e ≡ false))
          × (r.0 ≡ conv_errno e)
          × (r.1 ≡ l))
