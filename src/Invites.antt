-- ===== src/Invites.antt =====
-- server/invites.js: single-use invite codes. The store is the list of invites in memory; writing it
-- to its file is taken to succeed, and the lock makes each call run to its end. What the language
-- does with texts is an argument.
pub mod Code
pub mod Single
pub mod Admission
use qase.Common.{
  ℕ, zero, suc, ◌+◌, String, Bool, true, false, Option, none, some, List, [], ◌∷◌, ◌++◌, ◌==◌, ◌&&◌,
  not, ltb, leb, if◌then◌else◌, contains, length, map, is_some,
}
use qase.Common.Result.{Result, ok, err}

pub record Invite : Type 0 where
  pub code : String
  pub note : String
  pub created_by : Option String
  pub created_at : ℕ
  pub expires_at : ℕ
  pub used_by : Option String
  pub used_at : Option ℕ

pub data Error : Type 0 where
  invalid_invite invite_limit note_too_long note_invalid : Error

pub record Texts : Type 0 where
  -- `normalizeCode`
  pub normalize : String → String
  pub trim : String → String
  pub size : String → ℕ
  pub has_control : String → Bool

-- MAX_INVITES and NOTE_MAX
abbrev pub max_invites : ℕ
max_invites = 1000

abbrev pub note_max : ℕ
note_max = 200

-- `validNote`
valid_note : Texts → Option String → Result Error String
valid_note t none = ok ""
valid_note t (some value) =
    let note = t.trim value in
    if ltb note_max (t.size note)
    then err note_too_long
    else if t.has_control note
    then err note_invalid
    else ok note

-- `Number.isFinite(ttl) && ttl > 0 ? ttl : ttlMs`
abbrev lifetime : ℕ → Option ℕ → ℕ
lifetime default none = default
lifetime default (some ttl) = if ltb 0 ttl then ttl else default

-- What `create` is asked for, with the code that `newCode` made.
pub record Order : Type 0 where
  pub code : String
  pub note : Option String
  pub created_by : Option String
  pub ttl : Option ℕ

pub new_invite : ℕ → ℕ → Order → String → Invite
new_invite ttl_ms now o note = record {
  code = o.code;
  note = note;
  created_by = o.created_by;
  created_at = now;
  expires_at = now + lifetime ttl_ms o.ttl;
  used_by = none;
  used_at = none;
}

pub add_invite :
    ℕ → ℕ → Order → Result Error String → List Invite → Result Error Invite × List Invite
add_invite ttl_ms now o (err x) s = (err x, s)
add_invite ttl_ms now o (ok note) s = let i = new_invite ttl_ms now o note in (ok i, s ++ i ∷ [])

-- `create`
pub create : Texts → ℕ → ℕ → Order → List Invite → Result Error Invite × List Invite
unfolding valid_note
create t ttl_ms now o s =
    if leb max_invites (length s)
    then (err invite_limit, s)
    else add_invite ttl_ms now o (valid_note t o.note) s

-- `invites.find(candidate => constantTimeEquals(normalizeCode(candidate.code), code))`
unfoldable pub find_invite : Texts → String → List Invite → Option Invite
find_invite t code [] = none
find_invite t code (i ∷ s) = if t.normalize i.code == code then some i else find_invite t code s

-- A write to the invite that is found.
unfoldable pub set_used : Texts → String → Option ℕ → Option String → List Invite → List Invite
set_used t code used_at used_by [] = []
set_used t code used_at used_by (i ∷ s) =
    if t.normalize i.code == code
    then record i { used_at = used_at; used_by = used_by } ∷ s
    else i ∷ set_used t code used_at used_by s

-- `usedAt` is truthy: a time that is not zero.
abbrev pub is_truthy : Option ℕ → Bool
is_truthy none = false
is_truthy (some n) = ltb 0 n

-- `!invite.usedAt && invite.expiresAt > now()`
abbrev pub is_alive : ℕ → Option Invite → Bool
is_alive now none = false
is_alive now (some i) = not (is_truthy i.used_at) && ltb now i.expires_at

-- `consume`
pub consume :
    Texts → ℕ → String → Option String → List Invite → Result Error (Unit {0}) × List Invite
consume t now raw used_by s =
    let code = t.normalize raw in
    if is_alive now (find_invite t code s)
    then (ok tt, set_used t code (some now) used_by s)
    else (err invalid_invite, s)

-- `validate`
pub validate : Texts → ℕ → String → List Invite → Result Error (Unit {0})
validate t now raw s =
    if is_alive now (find_invite t (t.normalize raw) s) then ok tt else err invalid_invite

-- How `register` ends: an exception has the code of the error, where it has one.
pub data Registration : Type 0 where
  registers : Registration
  throws : Option String → Registration

-- The failures that are known to come before an account exists.
abbrev pub is_releasable : Option String → Bool
is_releasable none = false
is_releasable (some code) = contains code (
    "invalid_input" ∷ "invalid_email" ∷ "invalid_display_name" ∷ "weak_password" ∷ "email_taken"
    ∷ [])

-- `!invite || invite.usedAt !== undefined || invite.expiresAt <= now()`, negated.
abbrev pub is_free : ℕ → Option Invite → Bool
is_free now none = false
is_free now (some i) = not (is_some i.used_at) && ltb now i.expires_at

pub data Redeemed : Type 0 where
  admitted : Redeemed
  not_valid : Redeemed
  rethrown : Option String → Redeemed

unfoldable pub settle_registration :
    Texts → String → Registration → List Invite → Redeemed × List Invite
settle_registration t code registers s = (admitted, s)
settle_registration t code (throws x) s =
    (rethrown x, if is_releasable x then set_used t code none none s else s)

-- `redeem`
unfoldable pub redeem :
    Texts → ℕ → String → String → Registration → List Invite → Redeemed × List Invite
unfolding settle_registration
redeem t now raw email r s =
    let code = t.normalize raw in
    if is_free now (find_invite t code s)
    then settle_registration t code r (set_used t code (some now) (some email) s)
    else (not_valid, s)

-- `list`: the code of a used invite is not shown.
pub list_codes : List Invite → List (Option String)
list_codes s = map (λ i. if is_truthy i.used_at then none else some i.code) s
