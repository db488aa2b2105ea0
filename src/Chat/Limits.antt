-- ===== src/Chat/Limits.antt =====
-- chat/server.go: what a message has to pass before it is handled, and random names.
use sio.Base.{
  ℕ, ◌+◌, ◌/◌, ◌%◌, ◌^◌, ℤ, pos, Bool, true, false, if◌then◌else◌, List, [], ◌∷◌, ◌++◌, Option,
  none, some, leb, length, get_or,
}
use sio.Base.Text.{Text, codes, text_eq, text_key}
use sio.Base.Dict.{lookup, insert}
use sio.Chat.Types.{MessageType, Incoming, RateLimit, SecurityConfig, message, thread_reply, other}
use sio.Chat.Platform.{Platform}
use sio.Chat.State.{Server}

-- A limiter that is as new.
abbrev pub fresh_limiter : RateLimit → ℕ → RateLimit
fresh_limiter limit now = record {
  requests = limit.requests;
  window_size = limit.window_size;
  last_reset = now;
  current_used = 0;
}

-- The limiter at `now`: a window that has passed is followed by a new one.
unfoldable pub refresh : ℕ → RateLimit → RateLimit
refresh now l =
    if leb (l.last_reset + l.window_size) now
    then record l { last_reset = now; current_used = 0 }
    else l

unfoldable pub take_one : RateLimit → Bool × RateLimit
take_one l =
    if leb l.requests l.current_used
    then (false, l)
    else (true, record l { current_used = l.current_used + 1 })

abbrev pub limiter_or_new : RateLimit → ℕ → Option RateLimit → RateLimit
limiter_or_new limit now none = fresh_limiter limit now
limiter_or_new limit now (some l) = l

-- One call of the limiter of a client.
unfoldable pub use_limiter : RateLimit → ℕ → Option RateLimit → Bool × RateLimit
use_limiter limit now o = take_one (refresh now (limiter_or_new limit now o))

-- The limiter is a pointer in the map, so that what it counts is kept also where the answer is no.
unfoldable pub check_rate_limit : {D : Type 0} → RateLimit → ℕ → Text → Server D → Bool × Server D
check_rate_limit limit now id s =
    let (allowed, l) = use_limiter limit now (lookup id s.rate_limiters) in
    (allowed, record s { rate_limiters = insert id l s.rate_limiters })

abbrev pub has_content : MessageType → Bool
has_content message = true
has_content thread_reply = true
has_content t = false

abbrev pub no_type : MessageType → Bool
no_type (other t) = text_eq t []
no_type t = false

-- Whether there is no error.
unfoldable pub validate_message : {D : Type 0} → Platform D → Incoming → Bool
validate_message p msg =
    if no_type msg.kind
    then false
    else if text_eq msg.room_id []
    then false
    else if has_content msg.kind
    then leb (length (p.json.content msg.payload)) p.security.max_message_length
    else true

-- `CheckOrigin` of NewServer, on the header Origin.
unfoldable pub origin_listed : List Text → Text → Bool
origin_listed [] origin = false
origin_listed (allowed ∷ rest) origin =
    let further = origin_listed rest origin in
    if text_eq allowed (codes "*") then true else if text_eq allowed origin then true else further

unfoldable pub check_origin : SecurityConfig → Text → Bool
check_origin security origin =
    if leb (length security.allowed_origins) 0
    then true
    else origin_listed security.allowed_origins origin

abbrev pub charset : Text
charset = codes "abcdefghijklmnopqrstuvwxyzABCDEFGHIJKLMNOPQRSTUVWXYZ0123456789"

-- `randomString`, from the bytes that crypto/rand gives.
unfoldable pub random_string : List ℕ → Text
random_string [] = []
random_string (b ∷ bs) = get_or charset (b % 62) 0 ∷ random_string bs

-- `time.Unix`: seconds.
abbrev pub unix : ℕ → ℤ
unix now = pos (now / 10 ^ 9)

unfoldable pub generate_client_id : {D : Type 0} → Platform D → ℕ → List ℕ → Text
generate_client_id p now random =
    codes "client_" ++ p.decimal (unix now) ++ codes "_" ++ random_string random

unfoldable pub generate_message_id : {D : Type 0} → Platform D → ℕ → List ℕ → Text
generate_message_id p now random =
    codes "msg_" ++ p.decimal (unix now) ++ codes "_" ++ random_string random
