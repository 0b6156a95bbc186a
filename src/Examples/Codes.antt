-- ===== src/Examples/Codes.antt =====
-- Invite codes of server/invites.js: one that is used, and one that a failed registration gives back.
use qase.Common.{String, true, false, none, List, [], ◌∷◌, ◌≡◌, refl, arith}
use qase.Invites.{
  Invite, Texts, find_invite, is_free, registers, redeem, admitted, settle_registration,
}
use qase.Invites.Code.{encode_code_body, decode}
use qase.Invites.Code.{decode-encode_code_body}
use qase.Invites.Single.{consumes, redeems, run_calls, IsRefused}
use qase.Invites.Admission.{redeem_once}

abbrev texts : Texts
texts = record { normalize = λ x. x; trim = λ x. x; size = λ x. 3; has_control = λ x. false }

abbrev invite : String → Invite
invite code = record {
  code = code;
  note = "";
  created_by = none;
  created_at = 10;
  expires_at = 1000;
  used_by = none;
  used_at = none;
}

abbrev store : List Invite
store = invite "A" ∷ invite "B" ∷ []

-- Two bytes, which take four characters.
decode-encode_code_body_example : decode 2 (encode_code_body (200 ∷ 15 ∷ [])) ≡ 200 ∷ 15 ∷ []
decode-encode_code_body_example =
    decode-encode_code_body (200 ∷ 15 ∷ []) (omega arith, (omega arith, tt))

redeemed : (redeem texts 20 "B" "a@example.com" registers store).0 ≡ admitted
unfolding redeem find_invite settle_registration
redeemed = refl

free : is_free 20 (find_invite texts "B" store) ≡ true
unfolding find_invite
free = refl

redeem_once_example : IsRefused texts 60 "B" (
    run_calls texts 500
      ((30, consumes "A" none) ∷ (40, redeems "B" "b@example.com" registers) ∷ [])
      (redeem texts 20 "B" "a@example.com" registers store).1)
redeem_once_example =
    redeem_once texts 500 20 "B" "a@example.com" store (omega arith) redeemed
      ((30, consumes "A" none) ∷ (40, redeems "B" "b@example.com" registers) ∷ []) 60 "B" refl
