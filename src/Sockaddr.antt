-- ===== src/Sockaddr.antt =====
-- `yoi_unix_conv_addr` and `yoi_unix_conv_sockaddr` of src/unix/impl.c, on a little-endian machine.
pub mod Trip
mod Tests
use libyaooi.Prelude.{ℕ, ◌+◌, ◌*◌, ◌/◌, ◌%◌, List, [], ◌∷◌}
use libyaooi.Addr.{Addr, v4, v6}

-- `struct sockaddr_in` and `struct sockaddr_in6`: the port, and the bytes or the words of the address, as
-- they are kept.
pub data Sockaddr : Type 0 where
  inet : ℕ → List ℕ → Sockaddr
  inet6 : ℕ → List ℕ → Sockaddr

-- The two bytes of a uint16_t in the other order.
unfoldable pub htons : ℕ → ℕ
htons n = n % 256 * 256 + n / 256 % 256

abbrev pub swap_words : List ℕ → List ℕ
swap_words [] = []
swap_words (w ∷ ws) = htons w ∷ swap_words ws

unfoldable pub conv_addr : Addr → ℕ → Sockaddr
conv_addr (v4 parts) port = inet (htons port) parts
conv_addr (v6 words) port = inet6 (htons port) (swap_words words)

-- `ntohs` is `htons`.
unfoldable pub conv_sockaddr : Sockaddr → Addr × ℕ
conv_sockaddr (inet port parts) = (v4 parts, htons port)
conv_sockaddr (inet6 port words) = (v6 (swap_words words), htons port)
