-- ===== src/Sockaddr/Trip.antt =====
-- Both conversions of socket addresses together.
use libyaooi.Prelude.{ℕ, ◌≡◌, ◌<◌, refl, List, [], ◌∷◌, arith}
use libyaooi.Addr.{Addr, v4, v6}
use libyaooi.Sockaddr.{htons, swap_words, conv_addr, conv_sockaddr}

-- The words of an address are words of two bytes.
abbrev pub IsWords : List ℕ → Type 0
IsWords [] = Unit
IsWords (w ∷ ws) = (w < 65536) × IsWords ws

abbrev pub HasWords : Addr → Type 0
HasWords (v4 parts) = Unit
HasWords (v6 words) = IsWords words

pub htons_twice : (n : ℕ) → n < 65536 → htons (htons n) ≡ n
unfolding htons
htons_twice n lt = omega arith

pub swap_words_twice : (ws : List ℕ) → IsWords ws → swap_words (swap_words ws) ≡ ws
swap_words_twice [] b = refl
swap_words_twice (w ∷ ws) (lt, b) = rw (htons_twice w lt, swap_words_twice ws b) refl

-- An address and a port, of words of two bytes, come back from the socket address that they are converted to.
pub conv_sockaddr-conv_addr :
    (a : Addr) (port : ℕ) → HasWords a → port < 65536 → conv_sockaddr (conv_addr a port) ≡ (a, port)
unfolding conv_sockaddr conv_addr
conv_sockaddr-conv_addr (v4 parts) port b lt = rw (htons_twice port lt) refl
conv_sockaddr-conv_addr (v6 words) port b lt =
    rw (htons_twice port lt, swap_words_twice words b) refl
