-- ===== src/Matrix/Launch/Verdict.antt =====
-- What `executeItem` of server/matrixOrchestrator.js may leave an item with.
use qase.Common.{
  ℕ, zero, suc, ◌+◌, ◌-◌, String, Bool, true, false, Option, none, some, ◌≡◌, ◌≢◌, refl, arith,
  if◌then◌else◌, inl, inr, Bool-cases, Option-cases, ap, ◌&&◌, subst, ◌∙◌,
}
use qase.Common.Result.{ok, err, Result-cases, ok_inj}
use qase.Matrix.Item.{Item, Patch, Status, apply, guard_patch}
use qase.Matrix.Policy.{Answer}
use qase.Matrix.Launch.{
  Thrown, Gate, passes, unsupported, blocked, gate_times_out, gate_throws, SessionStatus, done,
  error, interrupted, awaiting_input, Outcome, Launched, launches, launch_times_out, launch_throws,
  World, M, ◌>>=◌, lift, pure, mark, failed_patch, verdict_patch, verdict_status, finish, drive,
  launch_session, pass_gate, begin_patch, session_patch, conclude, conclude_verdict, try_item,
  execute_item, answer_loop, give_answer, caught, handle, answer_patch, write, continue,
  auto_answer, is_awaiting, max_auto_answers,
}

-- Where the action returns, the item satisfies `P`.
abbrev Post : (Item → Type 0) → M (Unit {0}) → Type 0
Post P m = (i : Item) → (m i).0 ≡ ok tt → P (m i).1

-- What the action returns satisfies `R`.
abbrev Returns : {A : Type 0} → (A → Type 0) → M A → Type 0
Returns {A} R m = (i : Item) (a : A) → (m i).0 ≡ ok a → R a

Post-mark : (P : Item → Type 0) (p : Patch) → ((i : Item) → P (apply p i)) → Post P (mark p)
unfolding mark
Post-mark P p h i e = elim (Result-cases (guard_patch p i)) [
  | inl (u, g) ↦ rw (g, write) (h i)
  | inr (x, g) ↦ cc (rw (g, write) at e)
]

Post-lift_err : (P : Item → Type 0) (t : Thrown) → Post P (lift (err t))
Post-lift_err P t i e = cc

Post-bind :
    {A : Type 0} (P : Item → Type 0) (R : A → Type 0) (m : M A) (f : A → M (Unit {0}))
    → Returns R m
    → ((a : A) → R a → Post P (f a))
    → Post P (m >>= f)
unfolding ◌>>=◌
Post-bind P R m f r h i e = elim (Result-cases (m i).0) [
  | inl (a, g) ↦ rw (g, continue) (h a (r i a g) (m i).1 (rw (g, continue) at e))
  | inr (x, g) ↦ cc (rw (g, continue) at e)
]

Returns-bind :
    {A B : Type 0} (Q : A → Type 0) (R : B → Type 0) (m : M A) (f : A → M B)
    → Returns Q m
    → ((a : A) → Q a → Returns R (f a))
    → Returns R (m >>= f)
unfolding ◌>>=◌
Returns-bind Q R m f q h i b e = elim (Result-cases (m i).0) [
  | inl (a, g) ↦ h a (q i a g) (m i).1 b (rw (g, continue) at e)
  | inr (x, g) ↦ cc (rw (g, continue) at e)
]

Returns-pure : {A : Type 0} (R : A → Type 0) (a : A) → R a → Returns R (pure a)
Returns-pure R a h i b e = subst R (ok_inj e) h

-- Any action returns something.
anything : {A : Type 0} (m : M A) → Returns (λ _. Unit {0}) m
anything m i a e = tt

-- The outcome is what some wait for the session answered.
abbrev pub Answered : World → Outcome → Type 0
Answered w o = (n : ℕ) × (w.waits n ≡ ok o)

Returns-give_answer :
    (w : World) (n : ℕ) (rest : Outcome → M Outcome) (o : Outcome) (a : Answer)
    → Answered w o
    → ((o' : Outcome) → Answered w o' → Returns (Answered w) (rest o'))
    → Returns (Answered w) (give_answer w n rest o a)
unfolding give_answer
Returns-give_answer w n rest o a h r i =
    Returns-bind (λ _. Unit {0}) (Answered w) (mark (answer_patch o.pending_question a i)) _
      (anything (mark (answer_patch o.pending_question a i)))
      (λ _ _.
        Returns-bind (λ _. Unit {0}) (Answered w) (lift (w.resumes n)) _
          (anything (lift (w.resumes n))) resumed)
      i
  where
    resumed :
        (go : Bool)
        → Unit {0}
        → Returns (Answered w) (if go then (lift (w.waits (n + 1)) >>= rest) else pure o)
    resumed true _ =
        Returns-bind (Answered w) (Answered w) (lift (w.waits (n + 1))) rest (λ j a' e. (n + 1, e))
          r
    resumed false _ = Returns-pure (Answered w) o h

Returns-answer_loop :
    (w : World) (left n : ℕ) (o : Outcome)
    → Answered w o
    → Returns (Answered w) (answer_loop w left n o)
unfolding answer_loop
Returns-answer_loop w zero n o h = Returns-pure (Answered w) o h
Returns-answer_loop w (suc left) n o h = elim (Bool-cases (is_awaiting o.status && w.can_resume)) [
  | inl t ↦ elim (Option-cases (auto_answer w o.pending_question)) [
    | inl q ↦ rw (t, answer_loop, q) (Returns-pure (Answered w) o h)
    | inr (a, q) ↦
        rw (t, answer_loop, q)
          (Returns-give_answer w n (answer_loop w left (n + 1)) o a h
            (λ o' k. Returns-answer_loop w left (n + 1) o' k))
  ]
  | inr t ↦ rw (t, answer_loop) (Returns-pure (Answered w) o h)
]

-- The item is PASSED only with a passing outcome that a wait for the launched session answered.
abbrev pub PassedFor : World → Item → Type 0
PassedFor w i =
    i.status ≡ Status.passed
    → (w.gate ≡ passes)
      × (session : String) × (w.launch ≡ launches session)
      × (o : Outcome) × Answered w o
      × (o.status ≡ done)
      × (verdict_status o.verdict done ≡ some Status.passed)

abbrev pub is_terminal : Status → Bool
is_terminal Status.pending = false
is_terminal Status.queued = false
is_terminal Status.running = false
is_terminal _ = true

-- What is proved of the item: an outcome of a session that ran, and no longer waiting or running.
abbrev Settled : World → Item → Type 0
Settled w i = PassedFor w i × (is_terminal i.status ≡ true)

-- A patch with a terminal status that is not PASSED settles the item.
settles :
    (w : World) (p : Patch) (s : Status)
    → p.status ≡ some s
    → is_terminal s ≡ true
    → s ≢ Status.passed
    → Post (Settled w) (mark p)
unfolding apply
settles w p s e t n = Post-mark (Settled w) p (λ i. rw e ((λ h. absurd (n h)), t))

verdict_status-terminal :
    (v : Option String) (s : Status) → verdict_status v done ≡ some s → is_terminal s ≡ true
verdict_status-terminal v s h = ground arith

-- Shorter: the failure patches settle.
settles_failed :
    (w : World) (s : Status) (message : String)
    → is_terminal s ≡ true
    → s ≢ Status.passed
    → Post (Settled w) (mark (failed_patch w s message))
settles_failed w s message t n = settles w (failed_patch w s message) s refl t n

module _ (w : World) (session : String) (g : w.gate ≡ passes)
    (l : w.launch ≡ launches session) where
  Post-conclude_verdict :
      (v : Option Status) (o : Outcome)
      → o.status ≡ done
      → Answered w o
      → verdict_status o.verdict done ≡ v
      → Post (Settled w) (conclude_verdict v w o)
  unfolding conclude_verdict
  Post-conclude_verdict none o d h v = settles_failed w Status.error _ refl (λ x. cc)
  Post-conclude_verdict (some s) o d h v =
      Post-bind (Settled w) (λ _. Unit {0}) (lift w.verify_fixtures)
        (λ _. mark (verdict_patch w s o)) (anything (lift w.verify_fixtures))
        (λ _ _. Post-mark (Settled w) (verdict_patch w s o) concluded)
    where
      concluded : (i : Item) → Settled w (apply (verdict_patch w s o) i)
      concluded i =
          unfold apply in
          ((λ e. (g, session, l, o, h, d, v ∙ ap some e)), verdict_status-terminal o.verdict s v)

  Post-conclude :
      (t : SessionStatus) (o : Outcome)
      → o.status ≡ t
      → Answered w o
      → Post (Settled w) (conclude t w o)
  unfolding conclude
  Post-conclude error o e h = settles_failed w Status.error _ refl (λ x. cc)
  Post-conclude interrupted o e h = settles_failed w Status.error _ refl (λ x. cc)
  Post-conclude awaiting_input o e h = settles_failed w Status.blocked _ refl (λ x. cc)
  Post-conclude done o e h = Post-conclude_verdict (verdict_status o.verdict done) o e h refl

  Post-drive : Post (Settled w) (drive w session)
  unfolding drive finish
  Post-drive i =
      Post-bind (Settled w) (λ _. Unit {0}) (mark (session_patch session)) _
        (anything (mark (session_patch session)))
        (λ _ _.
          Post-bind (Settled w) (λ _. Unit {0}) (lift w.send_task) _ (anything (lift w.send_task))
            (λ _ _.
              Post-bind (Settled w) (Answered w) (lift (w.waits 0)) _ (λ j o e. (0, e))
                (λ o h.
                  Post-bind (Settled w) (Answered w)
                    (answer_loop w (max_auto_answers - i.auto_answers) 0 o) (finish w)
                    (Returns-answer_loop w (max_auto_answers - i.auto_answers) 0 o h)
                    (λ o' h'. Post-conclude o'.status o' refl h'))))
        i

Post-launch_session :
    (w : World) (x : Launched)
    → w.gate ≡ passes
    → w.launch ≡ x
    → Post (Settled w) (launch_session x w)
unfolding launch_session
Post-launch_session w launch_times_out g e = settles_failed w Status.error _ refl (λ x. cc)
Post-launch_session w (launch_throws t) g e = Post-lift_err (Settled w) t
Post-launch_session w (launches session) g e = Post-drive w session g e

Post-pass_gate : (w : World) (x : Gate) → w.gate ≡ x → Post (Settled w) (pass_gate x w)
unfolding pass_gate
Post-pass_gate w gate_times_out e = settles_failed w Status.error _ refl (λ x. cc)
Post-pass_gate w (gate_throws t) e = Post-lift_err (Settled w) t
Post-pass_gate w (unsupported reason) e = settles w _ Status.not_supported refl refl (λ x. cc)
Post-pass_gate w (blocked reason) e = settles w _ Status.unavailable refl refl (λ x. cc)
Post-pass_gate w passes e =
    Post-bind (Settled w) (λ _. Unit {0}) (mark (begin_patch w)) (λ _. launch_session w.launch w)
      (anything (mark (begin_patch w))) (λ _ _. Post-launch_session w w.launch e refl)

guard_caught : (w : World) (t : Thrown) (i : Item) → guard_patch (caught w t) i ≡ ok tt
unfolding guard_patch
guard_caught w t i = ground arith

caught_settles : (w : World) (t : Thrown) (i : Item) → Settled w (mark (caught w t) i).1
unfolding mark apply
caught_settles w t i = elim (Bool-cases t.runtime_unavailable) [
  | inl e ↦ rw (guard_caught w t i, write, e) ((λ h. cc), refl)
  | inr e ↦ rw (guard_caught w t i, write, e) ((λ h. cc), refl)
]

-- Whatever the hooks answer or throw, executing an item leaves it in a terminal status, and PASSED
-- only if the pre-launch checks passed, a session was launched, and a wait for it answered that it
-- was done, with a passing verdict or with none of the known verdicts.
pub execute_item_settles :
    (w : World) (i : Item)
    → let i' = (execute_item w i).1 in PassedFor w i' × (is_terminal i'.status ≡ true)
unfolding execute_item try_item
execute_item_settles w i = elim (Result-cases (try_item w i).0) [
  | inl (u, e) ↦ rw (e, handle) (Post-pass_gate w w.gate refl i e)
  | inr (t, e) ↦ rw (e, handle) (caught_settles w t (try_item w i).1)
]
