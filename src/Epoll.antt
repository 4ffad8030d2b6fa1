-- ===== src/Epoll.antt =====
-- The epoll backend, src/unix/epoll.c: `yoi_pl_impl_setmask` over the interest list of the system, and the
-- answer of `yoi_pl_impl_poll`.
pub mod Interest
pub mod Wait
pub mod Setup
mod Tests
use libyaooi.Prelude.{
  ℕ, ◌+◌, ◌%◌, ◌^◌, ◌≡◌, Bool, true, false, ◌||◌, Option, none, some, ◌==◌, if◌then◌else◌,
}
use libyaooi.Errno.{Code}
use libyaooi.Errno.Os.{Errno}
use libyaooi.Errno.Unix.{conv_errno}
use libyaooi.Files.{flag}
use libyaooi.Pollish.{readable, writable}

-- `struct epoll_event`: its bits, and the 64 bits of its data.
pub record Evn : Type 0 where
  pub rdhup : Bool
  pub err : Bool
  pub hup : Bool
  pub input : Bool
  pub output : Bool
  pub ptr : ℕ

pub data Op : Type 0 where
  add : Op
  modify : Op
  del : Op

-- The interest list of an epoll instance, with what the manual says of epoll_ctl: an operation gives none
-- where it succeeds, and any failure leaves the list as it is; ENOENT is the failure for a descriptor that is not known.
pub record EpollSystem : Type 1 where
  pub Interests : Type 0
  pub interest : Interests → ℕ → Option Evn
  pub ctl : Op → ℕ → Evn → Interests → Option Errno × Interests
  pub add_done :
      (l : Interests) (fd : ℕ) (e : Evn)
      → (ctl add fd e l).0 ≡ none
      → (g : ℕ) → interest (ctl add fd e l).1 g ≡ (if g == fd then some e else interest l g)
  pub modify_done :
      (l : Interests) (fd : ℕ) (e : Evn)
      → (ctl modify fd e l).0 ≡ none
      → (g : ℕ) → interest (ctl modify fd e l).1 g ≡ (if g == fd then some e else interest l g)
  pub del_done :
      (l : Interests) (fd : ℕ) (e : Evn)
      → (ctl del fd e l).0 ≡ none
      → (g : ℕ) → interest (ctl del fd e l).1 g ≡ (if g == fd then none else interest l g)
  pub ctl_fails :
      (op : Op) (l : Interests) (fd : ℕ) (e : Evn) (err : Errno)
      → (ctl op fd e l).0 ≡ some err
      → (ctl op fd e l).1 ≡ l
  pub del_unknown :
      (l : Interests) (fd : ℕ) (e : Evn)
      → (ctl del fd e l).0 ≡ some Errno.enoent
      → interest l fd ≡ none
  pub modify_unknown :
      (l : Interests) (fd : ℕ) (e : Evn)
      → (ctl modify fd e l).0 ≡ some Errno.enoent
      → interest l fd ≡ none

abbrev pub evn_of : (mask udata : ℕ) → Evn
evn_of mask udata = record {
  rdhup = true;
  err = true;
  hup = true;
  input = flag readable mask;
  output = flag writable mask;
  ptr = udata;
}

abbrev pub is_enoent : Errno → Bool
is_enoent Errno.enoent = true
is_enoent _ = false

module _ (E : EpollSystem) where
  open E use {Interests, ctl}

  -- Behind EPOLL_CTL_DEL.
  abbrev pub deleted : Option Errno × Interests → Option Code × Interests
  deleted (none, l) = (some Code.ok, l)
  deleted (some e, l) = (if is_enoent e then some Code.ok else conv_errno e, l)

  abbrev pub added : Option Errno × Interests → Option Code × Interests
  added (none, l) = (some Code.ok, l)
  added (some e, l) = (conv_errno e, l)

  -- Behind EPOLL_CTL_MOD.
  abbrev pub modified : ℕ → Evn → Option Errno × Interests → Option Code × Interests
  modified fd evn (none, l) = (some Code.ok, l)
  modified fd evn (some e, l) = if is_enoent e then added (ctl add fd evn l) else (conv_errno e, l)

  -- `yoi_pl_impl_setmask`
  unfoldable pub setmask : (udata fd mask : ℕ) → Interests → Option Code × Interests
  setmask udata fd mask l =
      if mask == 0
      then deleted (ctl del fd (evn_of mask udata) l)
      else modified fd (evn_of mask udata) (ctl modify fd (evn_of mask udata) l)
