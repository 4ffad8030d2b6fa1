-- ===== src/Windows/Env/Tests.antt =====
-- Two variables, of one character each.
use libyaooi.Prelude.{◌≡◌, ◌≤◌, ◌+◌, refl, some, Option, List, [], ◌∷◌, length, arith}
use libyaooi.Windows.Cmdline.{Text}
use libyaooi.Windows.Env.{env_room, envp_to_envblock}
use libyaooi.Windows.Env.Read.{block_texts, block_texts-envp_to_envblock}

abbrev set_two : List Text
set_two = (65 ∷ 61 ∷ 49 ∷ []) ∷ (66 ∷ 61 ∷ []) ∷ []

abbrev ascii : Text → Option Text
ascii t = some t

block_texts-envp_to_envblock_example :
    (block : Text) × (envp_to_envblock ascii set_two ≡ some block)
    × (length block ≤ env_room set_two + 1)
    × (block_texts [] block ≡ set_two)
block_texts-envp_to_envblock_example =
    block_texts-envp_to_envblock ascii (λ t. t) set_two
      (
        (refl, omega arith, omega arith, (ground arith, (ground arith, (ground arith, tt)))),
        ((refl, omega arith, omega arith, (ground arith, (ground arith, tt))), tt),
      )
