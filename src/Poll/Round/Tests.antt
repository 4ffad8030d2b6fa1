-- ===== src/Poll/Round/Tests.antt =====
-- Two descriptors, the second of which can be read.
use libyaooi.Prelude.{ℕ, ◌+◌, ◌≡◌, refl, true, false, some, List, [], ◌∷◌, length, leb, arith}
use libyaooi.Errno.{Code}
use libyaooi.Poll.Round.{Node, Asked, Revents, impl_poll}
use libyaooi.Poll.Round.Overrun.{array, first_room, overrun-impl_poll}
use libyaooi.Poll.Round.Answer.{impl_poll_lem}

abbrev node_of : ℕ → Node
node_of fd = record { fd = fd; evn = 3; udata = fd + 100 }

abbrev quiet : Revents
quiet = record { pollin = false; pollout = false; pollerr = false; pollhup = false }

abbrev readable : Revents
readable = record { pollin = true; pollout = false; pollerr = false; pollhup = false }

abbrev answer : List Asked → List Revents
answer asks = quiet ∷ readable ∷ []

impl_poll_lem_example :
    ((impl_poll (λ i. true) answer (node_of 4 ∷ node_of 5 ∷ []) (array 0)).0 ≡ Code.ok)
    × ((impl_poll (λ i. true) answer (node_of 4 ∷ node_of 5 ∷ []) (array 0)).1 ≡ some (105, 1))
    × ((impl_poll (λ i. true) answer (node_of 4 ∷ node_of 5 ∷ []) (array 0)).2.overrun ≡ false)
impl_poll_lem_example =
    impl_poll_lem (λ i. true) answer 0 (node_of 4 ∷ []) (node_of 5) [] (quiet ∷ []) readable []
      (λ i. refl) (omega arith) (omega arith, (omega arith, tt)) refl refl
      ((refl, refl, refl, refl), tt) (ground arith)

abbrev sixteen : List Node
sixteen =
    node_of 1
    ∷ node_of 2
    ∷ node_of 3
    ∷ node_of 4
    ∷ node_of 5
    ∷ node_of 6
    ∷ node_of 7
    ∷ node_of 8
    ∷ node_of 9
    ∷ node_of 10
    ∷ node_of 11
    ∷ node_of 12
    ∷ node_of 13
    ∷ node_of 14
    ∷ node_of 15
    ∷ node_of 16
    ∷ []

overrun-impl_poll_example :
    (impl_poll (λ i. true) answer sixteen (array 0)).2.overrun ≡ leb (first_room 0) (length sixteen)
overrun-impl_poll_example = overrun-impl_poll (λ i. true) answer sixteen 0 (λ i. refl)
