-- ===== src/Sockaddr/Tests.antt =====
-- One address of each kind.
use libyaooi.Prelude.{◌≡◌, refl, [], ◌∷◌}
use libyaooi.Addr.{v4}
use libyaooi.Sockaddr.{inet, htons, conv_addr}

port_80 : conv_addr (v4 (127 ∷ 0 ∷ 0 ∷ 1 ∷ [])) 80 ≡ inet 20480 (127 ∷ 0 ∷ 0 ∷ 1 ∷ [])
unfolding conv_addr htons
port_80 = refl
