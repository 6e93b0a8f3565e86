-- ===== src/Tests/Orders.antt =====
-- Commands.
use ash_bot.Prelude.{◌≡◌, refl, ◌∷◌, ◌++◌, codes, All}
use ash_bot.Commands.{set_message}
use ash_bot.Commands.Arguments.{join, IsWord, set_message_lem}

set_message_example :
    (join (set_message (codes "!sr" ++ b' ' ∷ codes "on now")) ≡ codes "on now")
    × All IsWord (set_message (codes "!sr" ++ b' ' ∷ codes "on now"))
set_message_example = set_message_lem (codes "!sr") (codes "on now") (refl, (refl, (refl, tt)))
