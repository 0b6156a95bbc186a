-- ===== src/Operations.antt =====
-- server/operations.js: the guard on concurrent mutations and the counters of the metrics page. A
-- response ends with `finish`, with `close` or with both; the text of the page is not modelled.
pub mod InFlight
pub mod Metrics
use qase.Common.{
  ℕ, zero, suc, ◌+◌, ◌-◌, ◌/◌, String, Bool, true, false, Option, none, some, List, [], ◌∷◌, ◌++◌,
  ◌==◌, ◌&&◌, ◌||◌, not, ltb, leb, eqb, if◌then◌else◌, contains, any, map, get_or,
}
use qase.Common.Result.{Result, ok, err}

-- What the language does with texts: `startsWith`, and the texts of a number and of a path.
pub record Texts : Type 0 where
  pub starts_with : String → String → Bool
  -- `${number}xx`
  pub class_name : ℕ → String
  -- `${baseUrl ?? ''}${path}` of a matched route
  pub full_path : String → String → String

-- `boundedInteger`: the number that the value stands for, where it is an integer from 0.
pub bounded_integer : Option (Option ℕ) → ℕ → ℕ → ℕ → Result (Unit {0}) ℕ
bounded_integer none fallback minimum maximum =
    if ltb fallback minimum || ltb maximum fallback then err tt else ok fallback
bounded_integer (some none) fallback minimum maximum = err tt
bounded_integer (some (some n)) fallback minimum maximum =
    if ltb n minimum || ltb maximum n then err tt else ok n

-- `boundedInteger(options.mutationLimit ?? environment.QASE_MUTATION_MAX_IN_FLIGHT, 64, 1, 10_000, …)`
pub mutation_limit : Option (Option ℕ) → Result (Unit {0}) ℕ
unfolding bounded_integer
mutation_limit value = bounded_integer value 64 1 10000

-- UNSAFE_METHODS
abbrev pub unsafe_methods : List String
unsafe_methods = "POST" ∷ "PUT" ∷ "PATCH" ∷ "DELETE" ∷ []

pub record Request : Type 0 where
  pub method : String
  pub path : String
  pub base_url : Option String
  pub route : Option String

-- `requestRoute`
pub request_route : Texts → Request → Bool → String
request_route t r true = "overload"
request_route t r false = elim r.route [
  | none ↦ "unmatched"
  | some path ↦
      let full = t.full_path (get_or r.base_url "") path in if full == "" then "/" else full
]

-- The key of a counter: method, route and status class.
pub record Key : Type 0 where
  pub method : String
  pub route : String
  pub status_class : String

unfoldable pub same_key : Key → Key → Bool
same_key a b = (a.method == b.method) && (a.route == b.route) && (a.status_class == b.status_class)

-- A duration record; times are in nanoseconds.
pub record Durations : Type 0 where
  pub count : ℕ
  pub sum : ℕ
  -- An upper bound and how many durations were at most that.
  pub buckets : List (ℕ × ℕ)

-- DURATION_BUCKETS, in nanoseconds, all at 0.
abbrev pub no_durations : Durations
no_durations = record {
  count = 0;
  sum = 0;
  buckets =
      (5000000, 0)
      ∷ (10000000, 0)
      ∷ (25000000, 0)
      ∷ (50000000, 0)
      ∷ (100000000, 0)
      ∷ (250000000, 0)
      ∷ (500000000, 0)
      ∷ (1000000000, 0)
      ∷ (2500000000, 0)
      ∷ (5000000000, 0)
      ∷ (10000000000, 0)
      ∷ [];
}

-- A map with such keys, in insertion order.
unfoldable pub find_key {ℓ} : {V : Type ℓ} → Key → List (Key × V) → Option V
find_key k [] = none
find_key k ((j, v) ∷ m) = if same_key j k then some v else find_key k m

unfoldable pub put_key {ℓ} : {V : Type ℓ} → Key → V → List (Key × V) → List (Key × V)
put_key k v [] = (k, v) ∷ []
put_key k v ((j, w) ∷ m) = if same_key j k then (j, v) ∷ m else (j, w) ∷ put_key k v m

pub fill : ℕ → List (ℕ × ℕ) → List (ℕ × ℕ)
fill d [] = []
fill d ((bound, n) ∷ bs) = (bound, if leb d bound then n + 1 else n) ∷ fill d bs

pub add_duration : ℕ → Durations → Durations
unfolding fill
add_duration d r = record { count = r.count + 1; sum = r.sum + d; buckets = fill d r.buckets }

-- What is in flight: whether it is a mutation, was rejected, and has ended.
pub record Live : Type 0 where
  pub request : Request
  pub mutation : Bool
  pub overloaded : Bool
  pub finished : Bool
  pub started : ℕ

pub record State : Type 0 where
  pub requests : List (Key × ℕ)
  pub durations : List (Key × Durations)
  pub in_flight : ℕ
  pub overloads : ℕ
  -- The calls of the middleware so far, by number.
  pub live : List Live

abbrev pub start : State
start = record { requests = []; durations = []; in_flight = 0; overloads = 0; live = [] }

-- `observe`
pub observe : Texts → String → String → ℕ → ℕ → State → State
unfolding add_duration
observe t method route status_code elapsed s =
    let k : Key = record {
      method = method;
      route = route;
      status_class = t.class_name (status_code / 100);
    } in
    record s {
      requests = put_key k (get_or (find_key k s.requests) 0 + 1) s.requests;
      durations =
          put_key k (add_duration elapsed (get_or (find_key k s.durations) no_durations))
            s.durations;
    }

-- `mutationPrefixes.some(…) && UNSAFE_METHODS.has(request.method)`
pub is_mutation : Texts → List String → Request → Bool
is_mutation t prefixes r =
    any (λ p. t.starts_with r.path p) prefixes && contains r.method unsafe_methods

-- `middleware`, up to the response: the new state and whether the request goes on to `next`.
pub arrive : Texts → List String → ℕ → ℕ → Request → State → Bool × State
unfolding is_mutation
arrive t prefixes limit now r s =
    let mutation = is_mutation t prefixes r in
    let overloaded = mutation && leb limit s.in_flight in
    let x : Live = record {
      request = r;
      mutation = mutation;
      overloaded = overloaded;
      finished = false;
      started = now;
    } in
    (
      not overloaded,
      record s {
        in_flight = if mutation && not overloaded then s.in_flight + 1 else s.in_flight;
        overloads = if overloaded then s.overloads + 1 else s.overloads;
        live = s.live ++ x ∷ [];
      },
    )

-- The call of a number, and its `finished = true`.
unfoldable pub live_at : ℕ → List Live → Option Live
live_at n [] = none
live_at zero (x ∷ xs) = some x
live_at (suc n) (x ∷ xs) = live_at n xs

unfoldable pub mark : ℕ → List Live → List Live
mark n [] = []
mark zero (x ∷ xs) = record x { finished = true } ∷ xs
mark (suc n) (x ∷ xs) = x ∷ mark n xs

-- `finalize`, of a call that has been looked up.
pub finalize_call : Texts → ℕ → ℕ → ℕ → Option Live → State → State
unfolding observe request_route
finalize_call t now status_code n none s = s
finalize_call t now status_code n (some x) s =
    if x.finished
    then s
    else let in_flight = if x.mutation && not x.overloaded then s.in_flight - 1 else s.in_flight in
      observe t x.request.method (request_route t x.request x.overloaded) status_code
        (now - x.started) (record s { in_flight = in_flight; live = mark n s.live })

-- `finalize`, on `finish` or `close` of the response of call n.
pub finalize : Texts → ℕ → ℕ → ℕ → State → State
unfolding finalize_call
finalize t now status_code n s = finalize_call t now status_code n (live_at n s.live) s

-- The server from event to event.
pub data Reach (t : Texts) (prefixes : List String) (limit : ℕ) : State → Type 0 where
  fresh : Reach t prefixes limit start
  arrived :
      {s : State} (now : ℕ) (r : Request)
      → Reach t prefixes limit s
      → Reach t prefixes limit (arrive t prefixes limit now r s).1
  ended :
      {s : State} (now status_code n : ℕ)
      → Reach t prefixes limit s
      → Reach t prefixes limit (finalize t now status_code n s)

-- `observeTokens`: model tokens by kind and mode.
pub record Tokens : Type 0 where
  pub kind : String
  pub mode : String
  -- `Number(value)`, where that is finite and not negative.
  pub value : Option ℕ
  -- `Number.isFinite(Number(value))`
  pub is_finite : Bool

-- `finite`
abbrev pub finite : Option ℕ → ℕ
finite none = 0
finite (some n) = n

pub observe_tokens : Tokens → List (Key × ℕ) → List (Key × ℕ)
observe_tokens o m =
    if not (contains o.kind ("input" ∷ "output" ∷ "total" ∷ []))
      || not (contains o.mode ("qa" ∷ "sqa" ∷ "founder" ∷ []))
    then m
    else if eqb (finite o.value) 0 && not o.is_finite
    then m
    else let k : Key = record { method = o.kind; route = o.mode; status_class = "" } in
      put_key k (get_or (find_key k m) 0 + finite o.value) m
