-- ===== src/Examples/Requests.antt =====
-- Two requests at the guard of server/operations.js, with room for one mutation.
use qase.Common.{true, none, some, [], ◌∷◌}
use qase.Operations.{Texts, Request, State, start, arrive, finalize, Reach, fresh, arrived, ended}
use qase.Operations.InFlight.{IsCounted, Reach-IsCounted}

abbrev texts : Texts
texts = record {
  starts_with = λ path prefix. true;
  class_name = λ n. "2xx";
  full_path = λ base path. path;
}

abbrev post : Request
post = record { method = "POST"; path = "/api/sessions"; base_url = none; route = some "/sessions" }

-- Two mutations arrive and the response of the first ends.
abbrev state : State
state =
    finalize texts 900000 200 0
      (arrive texts ("/api/" ∷ []) 1 20 post (arrive texts ("/api/" ∷ []) 1 10 post start).1).1

reached : Reach texts ("/api/" ∷ []) 1 state
reached = ended 900000 200 0 (arrived 20 post (arrived 10 post fresh))

Reach-IsCounted_example : IsCounted 1 state
Reach-IsCounted_example = Reach-IsCounted texts ("/api/" ∷ []) 1 state reached
