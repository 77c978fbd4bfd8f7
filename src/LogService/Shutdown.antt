-- ===== src/LogService/Shutdown.antt =====
-- src/Utility/LogService.cc: when the thread ends after the destructor has begun, and when it does not.
use ccfolio.Common.{
  ℕ, zero, suc, ◌+◌, ◌*◌, ◌≡◌, ◌≢◌, refl, sym, ap, ◌∙◌, subst, inl, inr, List, [], ◌∷◌, false, ◌||◌,
  not, if◌then◌else◌, length, arith, Bool, Bool-cases,
}
use ccfolio.Common.Text.{Str}
use ccfolio.LogService.{
  Worker, testing, locked, falling_asleep, asleep, draining, writing, finished, LogService, wake,
  notify_due, notify_one, stop, is_empty, pop, process, work, work_times, Run, stopped, notified,
  worked,
}

-- A thread that is done does nothing more.
finished_stays : (n : ℕ) (s : LogService) → s.worker ≡ finished → (work_times n s).worker ≡ finished
unfolding work_times work process
finished_stays zero s e = e
finished_stays (suc n) s e =
    let same : work s ≡ s = ap (λ w. process w s) e in
    subst (λ t. (work_times n t).worker ≡ finished) (sym same) (finished_stays n s e)

-- One step from a known place.
step :
    (w : Worker) (n : ℕ) (s : LogService)
    → s.worker ≡ w
    → work_times (suc n) s ≡ work_times n (process w s)
unfolding work_times work
step w n s e = ap (λ v. work_times n (process v s)) e

-- Two steps for each message, and two to leave the inner loop and end.
unfoldable pub steps : List Str → ℕ → ℕ
steps [] k = suc (suc k)
steps (message ∷ rest) k = suc (suc (steps rest k))

steps_lem : (q : List Str) (k : ℕ) → steps q k ≡ 2 * length q + (k + 2)
unfolding steps
steps_lem [] k = omega arith
steps_lem (m ∷ q) k = omega (arith, steps_lem q k)

testing_ends :
    (k : ℕ) (s : LogService)
    → s.running ≡ false
    → s.message_queue ≡ []
    → (work_times k (process testing s)).worker ≡ finished
unfolding process is_empty
testing_ends k s r e = finished_stays k (process testing s) (rw (r, e))

draining_step :
    (q : List Str) (n : ℕ) (s : LogService)
    → s.worker ≡ draining
    → s.message_queue ≡ q
    → work_times (suc n) s ≡ work_times n (pop q s)
unfolding process
draining_step q n s e f = step draining n s e ∙ ap (λ l. work_times n (pop l s)) f

draining_finishes :
    (q : List Str) (k : ℕ) (s : LogService)
    → s.running ≡ false
    → s.worker ≡ draining
    → s.message_queue ≡ q
    → (work_times (steps q k) s).worker ≡ finished
unfolding process pop steps
draining_finishes [] k s r e empty =
    let left : LogService = record s { worker = testing } in
    let path = draining_step [] (suc k) s e empty ∙ step testing k left refl in
    subst (λ t. t.worker ≡ finished) (sym path) (testing_ends k left r empty)
draining_finishes (m ∷ q) k s r e full =
    let taken : LogService = record s { message_queue = q; worker = writing m } in
    let path =
      draining_step (m ∷ q) (suc (steps q k)) s e full ∙ step (writing m) (steps q k) taken refl in
    subst (λ t. t.worker ≡ finished) (sym path)
      elim (Bool-cases s.file_is_open) [
        | inl o ↦ rw o (draining_finishes q k _ r refl refl)
        | inr o ↦ rw o (draining_finishes q k _ r refl refl)
      ]

-- From the places of the outer loop, the thread either ends or comes to the inner loop.
locked_finishes :
    (k : ℕ) (s : LogService)
    → s.running ≡ false
    → s.worker ≡ locked
    → (work_times (suc (steps s.message_queue k)) s).worker ≡ finished
unfolding process
locked_finishes k s r e =
    let path =
      step locked (steps s.message_queue k) s e
      ∙ ap
          (λ b. work_times (steps s.message_queue k) (
            if not b || not (is_empty s.message_queue)
            then record s { worker = draining }
            else record s { worker = falling_asleep }))
          r in
    subst (λ t. t.worker ≡ finished) (sym path)
      (draining_finishes s.message_queue k (record s { worker = draining }) r refl refl)

writing_finishes :
    (message : Str) (k : ℕ) (s : LogService)
    → s.running ≡ false
    → s.worker ≡ writing message
    → (work_times (suc (steps s.message_queue k)) s).worker ≡ finished
unfolding process
writing_finishes message k s r e =
    subst (λ t. t.worker ≡ finished) (sym (step (writing message) (steps s.message_queue k) s e))
      elim (Bool-cases s.file_is_open) [
        | inl o ↦ rw o (draining_finishes s.message_queue k _ r refl refl)
        | inr o ↦ rw o (draining_finishes s.message_queue k _ r refl refl)
      ]

testing_finishes :
    (k : ℕ) (s : LogService)
    → s.running ≡ false
    → s.worker ≡ testing
    → (work_times (suc (suc (steps s.message_queue k))) s).worker ≡ finished
unfolding process
testing_finishes k s r e =
    subst (λ t. t.worker ≡ finished) (sym (step testing (suc (steps s.message_queue k)) s e))
      elim (Bool-cases (s.running || not (is_empty s.message_queue))) [
        | inl more ↦ rw more (locked_finishes k (record s { worker = locked }) r refl)
        | inr over ↦
            rw over
              (finished_stays (suc (steps s.message_queue k)) (record s { worker = finished }) refl)
      ]

-- The state of the destructor at `worker.join()`, where the thread stood at `w`.
abbrev pub at_join : Worker → LogService → LogService
at_join w s = record s { worker = wake w; running = false; notifies = s.notifies }

join_from :
    (w : Worker) (s : LogService)
    → w ≢ falling_asleep
    → (work_times (2 * length s.message_queue + 4) (at_join w s)).worker ≡ finished
unfolding wake
join_from testing s h =
    subst (λ n. (work_times n (at_join testing s)).worker ≡ finished)
      (omega (arith, steps_lem s.message_queue 0))
      (testing_finishes 0 (at_join testing s) refl refl)
join_from locked s h =
    subst (λ n. (work_times n (at_join locked s)).worker ≡ finished)
      (omega (arith, steps_lem s.message_queue 1)) (locked_finishes 1 (at_join locked s) refl refl)
join_from falling_asleep s h = absurd (h refl)
join_from asleep s h =
    subst (λ n. (work_times n (at_join asleep s)).worker ≡ finished)
      (omega (arith, steps_lem s.message_queue 1)) (locked_finishes 1 (at_join asleep s) refl refl)
join_from draining s h =
    subst (λ n. (work_times n (at_join draining s)).worker ≡ finished)
      (omega (arith, steps_lem s.message_queue 2))
      (draining_finishes s.message_queue 2 (at_join draining s) refl refl refl)
join_from (writing message) s h =
    subst (λ n. (work_times n (at_join (writing message) s)).worker ≡ finished)
      (omega (arith, steps_lem s.message_queue 1))
      (writing_finishes message 1 (at_join (writing message) s) refl refl)
join_from finished s h = finished_stays (2 * length s.message_queue + 4) (at_join finished s) refl

-- When the destructor has set `running` and its notification is made, and no entry is logged after
-- that, the thread ends within two steps for each queued message and four more, wherever it stands,
-- unless it has just found nothing to wait for and does not sleep yet.
pub stop_finishes :
    (s : LogService)
    → s.worker ≢ falling_asleep
    → let t = stop s in
      (work_times (2 * length s.message_queue + 4) (notify_due t.notifies t)).worker ≡ finished
unfolding notify_due notify_one stop
stop_finishes s h = join_from s.worker s h

asleep_stays : (n : ℕ) (s : LogService) → s.worker ≡ asleep → work_times n s ≡ s
unfolding work_times work process
asleep_stays zero s e = refl
asleep_stays (suc n) s e =
    let same : work s ≡ s = ap (λ w. process w s) e in ap (work_times n) same ∙ asleep_stays n s e

work_times-Run :
    {opened : Bool} {entries : List Str} (n : ℕ) (s : LogService)
    → Run opened entries s
    → Run opened entries (work_times n s)
unfolding work_times
work_times-Run zero s r = r
work_times-Run (suc n) s r = work_times-Run n (work s) (worked r)

-- The destructor can hang. From any state that a run comes to while the thread has found nothing to
-- wait for and does not sleep yet, with no other notification due, the run can go on so: the
-- destructor sets `running` and notifies, and after its next step and any number of further ones the
-- thread sleeps, `running` is false and no notification is due.
pub stop_sleeps :
    (opened : Bool) (entries : List Str) (s : LogService) (n : ℕ)
    → Run opened entries s
    → s.worker ≡ falling_asleep
    → s.notifies ≡ 0
    → (t : LogService) × Run opened entries t
      × (t ≡ work_times (suc n) (notify_due (stop s).notifies (stop s)))
      × (t.worker ≡ asleep)
      × (t.running ≡ false)
      × (t.notifies ≡ 0)
unfolding notify_due notify_one stop process wake
stop_sleeps opened entries s n r e none_due =
    let u : LogService = notify_due (stop s).notifies (stop s) in
    let v : LogService = record u { worker = asleep } in
    let path = step falling_asleep n u (ap wake e) ∙ asleep_stays n v refl in
    (
      work_times (suc n) u,
      work_times-Run (suc n) u (notified s.notifies (stopped r) refl),
      refl,
      ap (λ t. t.worker) path,
      ap (λ t. t.running) path,
      ap (λ t. t.notifies) path ∙ none_due,
    )
