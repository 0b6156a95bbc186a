-- ===== src/Browser.antt =====
-- server/browserPolicy.js: which addresses are private, the check of a destination, and the consent of the
-- user to destructive actions. Parsing of addresses and host names and the regular expressions are
-- arguments, given by what they find.
pub mod Private
pub mod Consent
use qase.Common.{
  ℕ, ◌+◌, ◌-◌, String, Bool, true, false, not, Option, none, some, List, [], ◌∷◌, ◌==◌, ◌&&◌, ◌||◌,
  ltb, leb, eqb, any, if◌then◌else◌,
}

-- An address as `isIP` reads it: four parts, or a text of the other family with what its tests say.
pub data Address : Type 0 where
  v4 : ℕ → ℕ → ℕ → ℕ → Address
  v6 : Bool → Address
  mapped : ℕ → ℕ → ℕ → ℕ → Address
  no_address : Address

-- The test of the four parts.
pub is_reserved_v4 : ℕ → ℕ → ℕ → Bool
is_reserved_v4 a b c =
    eqb a 0
    || eqb a 10
    || eqb a 127
    || (eqb a 100 && leb 64 b && leb b 127)
    || (eqb a 169 && eqb b 254)
    || (eqb a 172 && leb 16 b && leb b 31)
    || (eqb a 192 && eqb b 0 && eqb c 0)
    || (eqb a 192 && eqb b 0 && eqb c 2)
    || (eqb a 192 && eqb b 168)
    || (eqb a 192 && eqb b 88 && eqb c 99)
    || (eqb a 198 && (eqb b 18 || eqb b 19))
    || (eqb a 198 && eqb b 51 && eqb c 100)
    || (eqb a 203 && eqb b 0 && eqb c 113)
    || leb 224 a

-- `isPrivateOrReservedAddress`
pub is_private_or_reserved_address : Address → Bool
unfolding is_reserved_v4
is_private_or_reserved_address (v4 a b c d) = is_reserved_v4 a b c
is_private_or_reserved_address (mapped a b c d) = is_reserved_v4 a b c
is_private_or_reserved_address (v6 reserved) = reserved
is_private_or_reserved_address no_address = false

-- A host: whether it is exempt, has a local name, is an address itself, and what it resolves to, where the
-- look-up succeeds.
pub record Host : Type 0 where
  pub exempt : Bool
  pub local : Bool
  pub address : Option Address
  pub resolves : Option (List Address)

pub data Decision : Type 0 where
  allowed private_network dns_failed : Decision

abbrev pub resolved : List Address → Decision
resolved [] = dns_failed
resolved (x ∷ xs) = if any is_private_or_reserved_address (x ∷ xs) then private_network else allowed

abbrev pub look_up : Option (List Address) → Decision
look_up none = dns_failed
look_up (some xs) = resolved xs

abbrev pub check_address : Option Address → Option (List Address) → Decision
check_address none found = look_up found
check_address (some x) found = if is_private_or_reserved_address x then private_network else allowed

-- `validatePublicDestination`
pub validate_public_destination : Host → Decision
validate_public_destination h =
    if h.exempt
    then allowed
    else if h.local
    then private_network
    else check_address h.address h.resolves

-- The latest message of the user since a time: one that approves, one that declines, or another.
pub data Answer : Type 0 where
  affirmative negative unclear : Answer

-- A user's message with its time, as far as `authorizeAction` reads it, the latest one first.
pub record Message : Type 0 where
  pub ts : ℕ
  pub answer : Answer

pub record Pending : Type 0 where
  pub category : String
  pub location : String
  pub created_at : ℕ
  pub expires_at : ℕ

pub record Grant : Type 0 where
  pub category : String
  pub location : String
  pub expires_at : ℕ
  pub remaining_uses : ℕ

pub record State : Type 0 where
  pub pending : Option Pending
  pub grant : Option Grant

-- A call of `authorizeAction` with a risk, at a time, for a location, with the messages so far.
pub record Action : Type 0 where
  pub timestamp : ℕ
  pub category : String
  pub location : String
  pub messages : List Message

pub data Verdict : Type 0 where
  granted approved declined asked : Verdict

-- DEFAULT_CONFIRMATION_USES
abbrev pub confirmation_uses : ℕ
confirmation_uses = 2

abbrev pub usable : Action → Option Grant → Option Grant
usable a none = none
usable a (some g) =
    if leb a.timestamp g.expires_at
      && (g.category == a.category)
      && (g.location == a.location)
      && ltb 0 g.remaining_uses
    then some g
    else none

-- `latestAnswer`
unfoldable pub latest_answer : ℕ → List Message → Option Answer
latest_answer since [] = none
latest_answer since (m ∷ ms) = if leb since m.ts then some m.answer else latest_answer since ms

-- The answer to a pending confirmation that the action matches.
abbrev pub answer_to : Action → Option Pending → Option Answer
answer_to a none = none
answer_to a (some p) =
    if leb a.timestamp p.expires_at && (p.category == a.category) && (p.location == a.location)
    then latest_answer p.created_at a.messages
    else none

abbrev ask : ℕ → Action → Pending
ask ttl a = record {
  category = a.category;
  location = a.location;
  created_at = a.timestamp;
  expires_at = a.timestamp + ttl;
}

unfoldable pub settle_answer : ℕ → Action → Option Answer → State → Verdict × State
settle_answer ttl a (some affirmative) s = (
  approved,
  record {
    pending = none;
    grant = some (record {
      category = a.category;
      location = a.location;
      expires_at = a.timestamp + ttl;
      remaining_uses = confirmation_uses - 1;
    });
  },
)
settle_answer ttl a (some negative) s = (declined, record { pending = none; grant = none })
settle_answer ttl a (some unclear) s = (asked, record { pending = some (ask ttl a); grant = none })
settle_answer ttl a none s = (asked, record { pending = some (ask ttl a); grant = none })

unfoldable pub use_grant : ℕ → Action → Option Grant → State → Verdict × State
unfolding settle_answer latest_answer
use_grant ttl a (some g) s =
    (granted, record s { grant = some (record g { remaining_uses = g.remaining_uses - 1 }) })
use_grant ttl a none s = settle_answer ttl a (answer_to a s.pending) s

-- `authorizeAction`, of an action that has a risk
unfoldable pub authorize_action : ℕ → Action → State → Verdict × State
unfolding use_grant
authorize_action ttl a s = use_grant ttl a (usable a s.grant) s
