-- ===== src/Websocket/Handshake/Subprotocol.antt =====
-- Which subprotocol `negotiateSubprotocol` chooses.
use sio.Base.{
  ◌≡◌, refl, ◌⊎◌, inl, inr, false, List, [], ◌∷◌, ◌++◌, map, Option, none, some, Bool-cases,
  if◌then◌else◌, length, ◌==◌, ne→==, arith,
}
use sio.Base.Text.{Text, text_eq, text_eq_iff, split, trim_space}
use sio.Websocket.Handshake.{
  Request, Policy, match_server, match_list, match_headers, negotiate_subprotocol,
}

-- What the client offers, in its order of preference.
abbrev pub offers : List Text → List Text
offers [] = []
offers (header ∷ headers) = map trim_space (split b',' header) ++ offers headers

abbrev OneOf : Text → List Text → Type 0
OneOf t [] = ⊥
OneOf t (s ∷ ss) = (t ≡ s) ⊎ OneOf t ss

-- The first offer that the server supports stands behind offers that it does not.
abbrev pub IsFirst : Text → List Text → List Text → Type 0
IsFirst p [] servers = ⊥
IsFirst p (o ∷ os) servers =
    ((p ≡ o) × OneOf o servers) ⊎ ((OneOf o servers → ⊥) × IsFirst p os servers)

abbrev pub NoneOf : List Text → List Text → Type 0
NoneOf [] servers = Unit {0}
NoneOf (o ∷ os) servers = (OneOf o servers → ⊥) × NoneOf os servers

abbrev Chosen : Option Text → List Text → List Text → Type 0
Chosen (some p) os servers = IsFirst p os servers
Chosen none os servers = NoneOf os servers

abbrev Matched : Option Text → Text → List Text → Type 0
Matched (some p) t servers = (p ≡ t) × OneOf t servers
Matched none t servers = OneOf t servers → ⊥

match_server-Matched : (t : Text) (servers : List Text) → Matched (match_server t servers) t servers
unfolding match_server
match_server-Matched t [] = λ h. h
match_server-Matched t (s ∷ servers) = elim (Bool-cases (text_eq t s)) [
  | inl e ↦ rw e (refl, inl ((text_eq_iff t s).0 e))
  | inr e ↦ rw e (further (match_server t servers) (match_server-Matched t servers) e)
]
  where
    further :
        (m : Option Text) → Matched m t servers → text_eq t s ≡ false → Matched m t (s ∷ servers)
    further (some p) (same, h) e = (same, inr h)
    further none h e = λ q. elim q [ inl same ↦ cc (e, (text_eq_iff t s).1 same) | inr r ↦ h r ]

-- One more offer in front.
cons-Chosen :
    (m : Option Text) (r : Option Text) (o : Text) (os servers : List Text)
    → Matched m o servers
    → Chosen r os servers
    → Chosen (elim m [ some p ↦ some p | none ↦ r ]) (o ∷ os) servers
cons-Chosen (some p) r o os servers (same, h) c = inl (same, h)
cons-Chosen none (some q) o os servers h c = inr (h, c)
cons-Chosen none none o os servers h c = (h, c)

append-IsFirst :
    (p : Text) (os more servers : List Text) → IsFirst p os servers → IsFirst p (os ++ more) servers
append-IsFirst p [] more servers c = absurd c
append-IsFirst p (o ∷ os) more servers (inl c) = inl c
append-IsFirst p (o ∷ os) more servers (inr (h, c)) = inr (h, append-IsFirst p os more servers c)

append-none :
    (r : Option Text) (os more servers : List Text)
    → NoneOf os servers
    → Chosen r more servers
    → Chosen r (os ++ more) servers
append-none r [] more servers h c = c
append-none (some p) (o ∷ os) more servers (no', h) c =
    inr (no', append-none (some p) os more servers h c)
append-none none (o ∷ os) more servers (no', h) c = (no', append-none none os more servers h c)

append-Chosen :
    (m r : Option Text) (os more servers : List Text)
    → Chosen m os servers
    → Chosen r more servers
    → Chosen (elim m [ some p ↦ some p | none ↦ r ]) (os ++ more) servers
append-Chosen (some p) r os more servers h c = append-IsFirst p os more servers h
append-Chosen none r os more servers h c = append-none r os more servers h c

match_list-Chosen :
    (protos servers : List Text)
    → Chosen (match_list protos servers) (map trim_space protos) servers
unfolding match_list
match_list-Chosen [] servers = tt
match_list-Chosen (t ∷ protos) servers =
    cons-Chosen (match_server (trim_space t) servers) (match_list protos servers) (trim_space t)
      (map trim_space protos) servers (match_server-Matched (trim_space t) servers)
      (match_list-Chosen protos servers)

match_headers-Chosen :
    (headers servers : List Text) → Chosen (match_headers headers servers) (offers headers) servers
unfolding match_headers
match_headers-Chosen [] servers = tt
match_headers-Chosen (header ∷ headers) servers =
    append-Chosen (match_list (split b',' header) servers) (match_headers headers servers)
      (map trim_space (split b',' header)) (offers headers) servers
      (match_list-Chosen (split b',' header) servers) (match_headers-Chosen headers servers)

empty-NoneOf : (os : List Text) → NoneOf os []
empty-NoneOf [] = tt
empty-NoneOf (o ∷ os) = (λ h. h, empty-NoneOf os)

-- The subprotocol is the client's first offer, over all its headers and their lists, that the
-- server supports; it is empty where the server supports none of them.
pub negotiate_subprotocol-IsFirst :
    (policy : Policy) (req : Request)
    → IsFirst (negotiate_subprotocol policy req) (offers req.protocols) policy.subprotocols
      ⊎ (NoneOf (offers req.protocols) policy.subprotocols
          × (negotiate_subprotocol policy req ≡ []))
unfolding negotiate_subprotocol
negotiate_subprotocol-IsFirst policy req = by_servers policy.subprotocols
  where
    by_match :
        (m : Option Text) (servers : List Text)
        → Chosen m (offers req.protocols) servers
        → let p : Text = elim m [ some p ↦ p | none ↦ [] ] in
          IsFirst p (offers req.protocols) servers
          ⊎ (NoneOf (offers req.protocols) servers × (p ≡ []))
    by_match (some p) servers c = inl c
    by_match none servers c = inr (c, refl)

    by_servers :
        (servers : List Text)
        → let p : Text =
            if length servers == 0
            then []
            else elim (match_headers req.protocols servers) [ some p ↦ p | none ↦ [] ] in
          IsFirst p (offers req.protocols) servers
          ⊎ (NoneOf (offers req.protocols) servers × (p ≡ []))
    by_servers [] = inr (empty-NoneOf (offers req.protocols), refl)
    by_servers (s ∷ ss) = rw (ne→== (length (s ∷ ss)) 0 (omega arith)) (
        by_match (match_headers req.protocols (s ∷ ss)) (s ∷ ss)
          (match_headers-Chosen req.protocols (s ∷ ss)))
