-- ===== src/Database/Examples.antt =====
-- The theorems on the store at two users and a room.
use sio.Base.{◌≡◌, true, List, [], ◌∷◌}
use sio.Base.Text.{Text, codes, text_eq}
use sio.Database.{new_in_memory_db, is_user_in_room}
use sio.Database.Membership.{Change, adds, removes, changes, listed, is_user_in_room-changes}

abbrev r : Text
r = codes "r"

abbrev u : Text
u = codes "u"

abbrev story : List Change
story =
    adds (record { room_id = r; user_id = u; role = []; joined_at = 0 })
    ∷ adds (record { room_id = r; user_id = codes "v"; role = []; joined_at = 0 })
    ∷ removes r (codes "v")
    ∷ []

is_user_in_room-changes_example :
    (is_user_in_room r u (changes story new_in_memory_db) ≡ true)
    × (listed r u (changes story new_in_memory_db) ≡ true)
unfolding text_eq
is_user_in_room-changes_example = is_user_in_room-changes story r u
