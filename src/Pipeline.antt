-- ===== src/Pipeline.antt =====
-- server/matrixService.js: parent runs and their batches, over the file backend's map of runs, and the
-- view of a parent that is computed on read. The items and the numbering of a batch are made by `create`, an
-- argument here; times are left out but for their text.
pub mod Retry
pub mod View
use qase.Common.{
  ℕ, String, Bool, true, false, Option, none, some, List, [], ◌∷◌, ◌++◌, ◌==◌, if◌then◌else◌,
  length, any, leb, Dict, get, set, get_or, or_else, contains,
}
use qase.Common.Result.{Result, ok, err, ◌>>=◌}
use qase.Matrix.Item.{Item}

pub data Kind : Type 0 where
  plain parent batch : Kind

-- A run of the store, with what a batch or a parent has more.
pub record Run : Type 0 where
  pub id : String
  pub kind : Kind
  pub title : String
  pub status : String
  pub items : List Item
  pub batch_ids : List String
  pub parent_id : String
  pub batch_key : String
  pub batch_index : ℕ
  pub owner : Option String
  pub started_at : Option String
  pub finished_at : Option String

pub data Error : Type 0 where
  no_parent_id no_batch_key not_a_parent bad_target : Error
  unknown_parent : String → Error
  not_created : Error

-- `createParentRun`: the record, with the identifier that was drawn and the title's first 120 characters.
pub new_parent : String → String → Option String → Run
new_parent id title owner = record {
  id = id;
  kind = Kind.parent;
  title = title;
  status = "pending";
  items = [];
  batch_ids = [];
  parent_id = "";
  batch_key = "";
  batch_index = 0;
  owner = owner;
  started_at = none;
  finished_at = none;
}

pub create_parent_run :
    (String → Bool)
    → String
    → String
    → String
    → Option String
    → Dict Run
    → Result Error Run × Dict Run
unfolding new_parent
create_parent_run is_http target_url id title owner m =
    let r = new_parent id title owner in
    if is_http target_url then (ok r, set r.id r m) else (err bad_target, m)

abbrev pub keyed : String → Option Run → Option Run
keyed key none = none
keyed key (some r) = if r.batch_key == key then some r else none

-- `batchIds.map(get)` and `.find((candidate) => candidate && candidate.batchKey === batchKey)`
unfoldable pub find_batch : Dict Run → String → List String → Option Run
find_batch m key [] = none
find_batch m key (id ∷ ids) = or_else (keyed key (get id m)) (find_batch m key ids)

-- What a batch is asked for, texts trimmed.
pub record Request : Type 0 where
  pub parent_id : String
  pub batch_key : String
  pub batch_index : Option ℕ

-- What `createBatch` knows once it has read the store.
pub data Begun : Type 0 where
  refused : Error → Begun
  exists : Run → Begun
  plans : Run → ℕ → Begun

abbrev pub is_parent : Kind → Bool
is_parent Kind.parent = true
is_parent _ = false

abbrev pub plan_or : Run → ℕ → Option Run → Begun
plan_or p index none = plans p index
plan_or p index (some r) = exists r

unfoldable pub begin_in : Request → Dict Run → Option Run → Begun
unfolding find_batch
begin_in q m none = refused (unknown_parent q.parent_id)
begin_in q m (some p) =
    if is_parent p.kind
    then plan_or p (get_or q.batch_index (length p.batch_ids))
        (find_batch m q.batch_key p.batch_ids)
    else refused not_a_parent

-- The first half of `createBatch`, up to the creation of the run.
unfoldable pub begin_batch : Request → Dict Run → Begun
unfolding begin_in
begin_batch q m =
    if q.parent_id == ""
    then refused no_parent_id
    else if q.batch_key == ""
    then refused no_batch_key
    else begin_in q m (get q.parent_id m)

-- `backend.update(null, batch.id, { kind: 'batch', parentId, batchKey, batchIndex })`
pub stamp : Request → ℕ → Run → Run
stamp q index r = record r {
  kind = Kind.batch;
  parent_id = q.parent_id;
  batch_key = q.batch_key;
  batch_index = index;
}

-- `backend.update(null, parentId, { batchIds: [...parent.batchIds, batch.id], status })`, on the record that
-- the store has now; the list is the one that was read before.
pub link : String → Run → String → Option Run → Dict Run → Dict Run
link key seen id none m = m
link key seen id (some p) m =
    set key (record p { batch_ids = seen.batch_ids ++ id ∷ []; status = seen.status }) m

-- The second half of `createBatch`: `create` makes a run, which is stored, or throws.
pub finish_batch :
    Request → Begun → Result Error Run → Dict Run → Result Error (Run × Bool) × Dict Run
unfolding stamp link
finish_batch q (refused x) made m = (err x, m)
finish_batch q (exists b) made m = (ok (b, false), m)
finish_batch q (plans p index) (err x) m = (err x, m)
finish_batch q (plans p index) (ok r) m =
    let b = stamp q index r in
    let stored = set r.id b (set r.id r m) in
    (ok (b, true), link q.parent_id p r.id (get q.parent_id stored) stored)

-- `createBatch`, undisturbed.
pub create_batch : Request → Result Error Run → Dict Run → Result Error (Run × Bool) × Dict Run
unfolding begin_batch finish_batch
create_batch q made m = finish_batch q (begin_batch q m) made m

-- `for (const batchId of run.batchIds) …`: the batches that are there.
unfoldable pub batches_of : Dict Run → List String → List Run
batches_of m [] = []
batches_of m (id ∷ ids) = elim (get id m) [
  | none ↦ batches_of m ids
  | some r ↦ r ∷ batches_of m ids
]

-- `batches.sort((a, b) => a.batchIndex - b.batchIndex)`, which is stable.
unfoldable pub insert_batch : Run → List Run → List Run
insert_batch r [] = r ∷ []
insert_batch r (x ∷ xs) =
    if leb r.batch_index x.batch_index then r ∷ x ∷ xs else x ∷ insert_batch r xs

pub sort_batches : List Run → List Run
unfolding insert_batch
sort_batches [] = []
sort_batches (r ∷ rs) = insert_batch r (sort_batches rs)

unfoldable pub items_of : List Run → List Item
items_of [] = []
items_of (r ∷ rs) = r.items ++ items_of rs

abbrev pub is_over : Run → Bool
is_over r = contains r.status ("done" ∷ "cancelled" ∷ "error" ∷ "interrupted" ∷ [])

-- `batches.every(…)`
unfoldable pub every {ℓ} : {A : Type ℓ} → (A → Bool) → List A → Bool
every p [] = true
every p (x ∷ xs) = if p x then every p xs else false

abbrev pub is_done : Run → Bool
is_done r = r.status == "done"

-- The status of a parent.
pub parent_status : Run → List Run → String
parent_status p batches =
    if every is_over batches
    then if every is_done batches then "done" else "interrupted"
    else if any (λ b. b.status == "running") batches
    then "running"
    else p.status

-- What is read of a parent: the record, with its items, its status and the number of its batches.
pub record Reading : Type 0 where
  pub run : Run
  pub item_count : ℕ
  pub batch_count : ℕ

-- `get` of a parent, but for the times.
pub view_parent : Dict Run → Run → Reading
unfolding parent_status sort_batches
view_parent m p =
    let batches = sort_batches (batches_of m p.batch_ids) in
    let items = items_of batches in
    record {
      run = record p { items = items; status = parent_status p batches };
      item_count = length items;
      batch_count = length batches;
    }
