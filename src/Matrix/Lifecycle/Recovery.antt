-- ===== src/Matrix/Lifecycle/Recovery.antt =====
-- `resumeRecovery` of server/matrixOrchestrator.js.
use qase.Common.{
  String, Bool, true, false, none, List, [], ◌∷◌, ◌≡◌, refl, arith, ap, map, filter, Bool-cases,
  if◌then◌else◌, ◌∙◌, any, inl, inr, ◌&&◌, not,
}
use qase.Common.Result.{ok, ◌>>=◌}
use qase.Matrix.Item.{Item, Run, RunStatus, Status, apply}
use qase.Matrix.Bulk.{patch_after, patch_each, Unique, patch_each-patch_after, id-apply, map_self}
use qase.Matrix.Lifecycle.{
  is_queued, is_running, is_run_running, is_empty, recover_run, resume_stranded, interrupted_patch,
  reschedule_patch,
}

-- What recovery makes of an item: an interrupted one is an error, a stranded one is scheduled again.
abbrev pub recovered_item : String → Item → Item
recovered_item now i = elim i.status [
  | Status.running ↦ apply (interrupted_patch now) i
  | Status.queued ↦ apply reschedule_patch i
  | _ ↦ i
]

abbrev interrupted : String → Item → Item
interrupted now i = if is_running i then apply (interrupted_patch now) i else i

first_pass :
    (now : String) (is : List Item)
    → patch_after is_running (interrupted_patch now) (λ i. i) is ≡ map (interrupted now) is
unfolding patch_after
first_pass now [] = refl
first_pass now (x ∷ xs) = ap (λ l. interrupted now x ∷ l) (first_pass now xs)

id-interrupted : (now : String) (i : Item) → (interrupted now i).id ≡ i.id
id-interrupted now i = elim (Bool-cases (is_running i)) [
  | inl e ↦ rw e (id-apply (interrupted_patch now) i)
  | inr e ↦ rw e
]

both_passes :
    (now : String) (i : Item)
    → (if is_queued i then apply reschedule_patch (interrupted now i) else interrupted now i)
      ≡ recovered_item now i
both_passes now i = ground arith

second_pass :
    (now : String) (is : List Item)
    → patch_after is_queued reschedule_patch (interrupted now) is ≡ map (recovered_item now) is
unfolding patch_after
second_pass now [] = refl
second_pass now (x ∷ xs) = cc (both_passes now x, second_pass now xs)

not_stranded :
    (now : String) (i : Item) → is_queued i ≡ false → interrupted now i ≡ recovered_item now i
not_stranded now i h = ground arith

no_second_pass :
    (now : String) (is : List Item)
    → any is_queued is ≡ false
    → map (interrupted now) is ≡ map (recovered_item now) is
unfolding any
no_second_pass now [] h = refl
no_second_pass now (x ∷ xs) h = elim (Bool-cases (is_queued x)) [
  | inl e ↦ cc (rw e at h)
  | inr e ↦ cc (not_stranded now x e, no_second_pass now xs (rw e at h))
]

no_pass :
    (now : String) (is : List Item) → any is_running is ≡ false → is ≡ map (interrupted now) is
unfolding any
no_pass now [] h = refl
no_pass now (x ∷ xs) h = elim (Bool-cases (is_running x)) [
  | inl e ↦ cc (rw e at h)
  | inr e ↦ rw e (ap (λ l. x ∷ l) (no_pass now xs (rw e at h)))
]

is_empty-filter : (p : Item → Bool) (is : List Item) → is_empty (filter p is) ≡ not (any p is)
unfolding filter any
is_empty-filter p [] = refl
is_empty-filter p (x ∷ xs) = ground (arith, is_empty-filter p xs)

found : (p : Item → Bool) (is : List Item) → any p is ≡ true → is_empty (filter p is) ≡ false
found p is h = is_empty-filter p is ∙ ap not h

absent : (p : Item → Bool) (is : List Item) → any p is ≡ false → is_empty (filter p is) ≡ true
absent p is h = is_empty-filter p is ∙ ap not h

-- The two loops and the last step, on the run `r` with the items `is`.
passes :
    (now : String) (is : List Item) (r : Run)
    → r.items ≡ is
    → Unique is
    → (patch_each is_running (interrupted_patch now) is r >>= λ r'. resume_stranded is r')
      ≡ ok (record {
        run =
            if any is_queued is
            then record r {
              items = map (recovered_item now) is;
              status = RunStatus.running;
              error = none;
            }
            else record r { items = map (recovered_item now) is };
        resumed = any is_queued is;
      })
unfolding resume_stranded
passes now is r e u =
    rw
      (
        patch_each-patch_after is_running (interrupted_patch now) (λ i. i) is r (λ i. refl)
            (inr (Status.error, refl, refl)) u (e ∙ map_self is),
        first_pass now is,
        is_empty-filter is_queued is,
      )
      (elim (Bool-cases (any is_queued is)) [
        | inl q ↦ rw (
          q,
          patch_each-patch_after is_queued reschedule_patch (interrupted now) is
              (record r { items = map (interrupted now) is }) (id-interrupted now)
              (inr (Status.pending, refl, refl)) u refl,
          second_pass now is,
        )
        | inr q ↦ rw (q, no_second_pass now is q)
      ])

not_skipped : (a b : Bool) → (a && b && false) ≡ false
not_skipped a b = ground arith

-- The status of a run before the loops.
abbrev marked : RunStatus → RunStatus
marked s = if is_run_running s then RunStatus.error else s

after_passes :
    (now : String) (is : List Item) (r : Run) (s : RunStatus)
    → r.items ≡ is
    → r.status ≡ marked s
    → Unique is
    → (r' : Run) × ((patch_each is_running (interrupted_patch now) is r >>= λ q.
          resume_stranded is q)
        ≡ ok (record { run = r'; resumed = any is_queued is }))
      × (r'.items ≡ map (recovered_item now) is)
      × (r'.status ≡ (if any is_queued is then RunStatus.running else marked s))
after_passes now is r s e t u = elim (Bool-cases (any is_queued is)) [
  | inl q ↦ (
    record r { items = map (recovered_item now) is; status = RunStatus.running; error = none },
    passes now is r e u ∙ rw q,
    refl,
    rw q,
  )
  | inr q ↦
      (record r { items = map (recovered_item now) is }, passes now is r e u ∙ rw q, refl, rw q t)
]

-- After recovery of a run that this process is not executing, whose items have distinct ids:
-- every RUNNING item is an ERROR, every QUEUED item is PENDING again and no other item is touched;
-- a drain is started exactly if an item was queued, and then the run is running, otherwise a run
-- that was running is in error and any other status is kept.
pub recover_run_lem :
    (now : String) (r : Run)
    → Unique r.items
    → (r' : Run) × (recover_run false now r
        ≡ ok (record { run = r'; resumed = any is_queued r.items }))
      × (r'.items ≡ map (recovered_item now) r.items)
      × (r'.status ≡ (
          if any is_queued r.items
          then RunStatus.running
          else if is_run_running r.status
          then RunStatus.error
          else r.status))
unfolding recover_run
recover_run_lem now r u = elim (Bool-cases (is_run_running r.status)) [
  | inl s ↦
      rw
        (
          s,
          not_skipped (is_empty (filter is_running r.items)) (is_empty (filter is_queued r.items)),
        )
        (let w =
            after_passes now r.items (record r { status = RunStatus.error }) r.status refl (rw s)
              u in
          rw s at w)
  | inr s ↦ rw s (elim (Bool-cases (any is_running r.items)) [
    | inl a ↦
        rw (found is_running r.items a)
          (rw s at (after_passes now r.items r r.status refl (rw s) u))
    | inr a ↦ elim (Bool-cases (any is_queued r.items)) [
      | inl q ↦
          rw (absent is_running r.items a, found is_queued r.items q)
            (rw (s, found is_queued r.items q) at
              (after_passes now r.items r r.status refl (rw s) u))
      | inr q ↦
          rw (absent is_running r.items a, absent is_queued r.items q, q)
            (r, refl, no_pass now r.items a ∙ no_second_pass now r.items q, refl)
    ]
  ])
]
