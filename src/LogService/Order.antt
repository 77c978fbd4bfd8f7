-- ===== src/LogService/Order.antt =====
-- src/Utility/LogService.cc: the order of the entries in the file.
use ccfolio.Common.{
  ◌≡◌, refl, sym, ap, ap₂, subst, ◌∙◌, ◌⊎◌, inl, inr, List, [], ◌∷◌, ◌++◌, Bool, true, false, ◌||◌,
  not, append_assoc, append-nil, Bool-cases,
}
use ccfolio.Common.Text.{Str}
use ccfolio.LogService.{
  log_entry, Worker, testing, locked, falling_asleep, asleep, draining, writing, finished,
  LogService, log_service, set_level, is_filtered, push, add_printed, log, wake, notify_due,
  notify_one, stop, is_empty, pop, process, work, Run, start, logged, level_set, stopped, notified,
  worked,
}

-- The message that the thread has taken from the queue and not written yet.
unfoldable pub in_hand : Worker → List Str
in_hand (writing message) = message ∷ []
in_hand _ = []

in_hand-wake : (w : Worker) → in_hand (wake w) ≡ in_hand w
unfolding in_hand wake
in_hand-wake testing = refl
in_hand-wake locked = refl
in_hand-wake falling_asleep = refl
in_hand-wake asleep = refl
in_hand-wake draining = refl
in_hand-wake (writing message) = refl
in_hand-wake finished = refl

-- What is in the file, in hand and in the queue.
abbrev pub all_of : Worker → LogService → List Str
all_of w s = s.log_file ++ in_hand w ++ s.message_queue

abbrev Same : Worker → LogService → LogService → Type 0
Same w s t = (all_of t.worker t ≡ all_of w s) × (t.file_is_open ≡ true)

pop-Same :
    (l : List Str) (s : LogService)
    → s.file_is_open ≡ true
    → s.message_queue ≡ l
    → Same draining s (pop l s)
unfolding pop in_hand
pop-Same [] s o e = (refl, o)
pop-Same (message ∷ rest) s o e = (
  append_assoc s.log_file (message ∷ []) rest
      ∙ sym (ap (λ q. s.log_file ++ q) e)
      ∙ sym (ap (λ f. f ++ s.message_queue) (append-nil s.log_file)),
  o,
)

-- A step of the thread neither loses nor swaps an entry, where the file is open.
process-Same :
    (w : Worker) (s : LogService) → s.worker ≡ w → s.file_is_open ≡ true → Same w s (process w s)
unfolding process in_hand
process-Same testing s e o = elim (Bool-cases (s.running || not (is_empty s.message_queue))) [
  | inl h ↦ rw h (refl, o)
  | inr h ↦ rw h (refl, o)
]
process-Same locked s e o = elim (Bool-cases (not s.running || not (is_empty s.message_queue))) [
  | inl h ↦ rw h (refl, o)
  | inr h ↦ rw h (refl, o)
]
process-Same falling_asleep s e o = (refl, o)
process-Same asleep s e o = (ap (λ w. all_of w s) e, o)
process-Same draining s e o = pop-Same s.message_queue s o refl
process-Same (writing message) s e o =
    rw o (ap (λ f. f ++ s.message_queue) (append-nil (s.log_file ++ message ∷ [])), refl)
process-Same finished s e o = (ap (λ w. all_of w s) e, o)

-- A call adds the entry that it has printed, and nothing where the printing throws.
push-Kept :
    (entry : Str ⊎ Str) (entries : List Str) (s : LogService)
    → all_of s.worker s ≡ entries
    → s.file_is_open ≡ true
    → let t = (push entry s).1 in
      (all_of t.worker t ≡ add_printed entry entries) × (t.file_is_open ≡ true)
unfolding push add_printed
push-Kept (inl m) entries s kept o = (kept, o)
push-Kept (inr entry) entries s kept o = (
  sym (append_assoc (s.log_file ++ in_hand s.worker) s.message_queue (entry ∷ []))
      ∙ ap (λ l. l ++ entry ∷ []) kept,
  o,
)

-- Where the file could be opened: in every interleaving of the callers, the destructor and the thread,
-- the entries that passed the filter are in the file, in the hand of the thread and in the queue, in
-- the order in which they were logged, each once.
pub Run-Kept :
    (entries : List Str) (s : LogService)
    → Run true entries s
    → (all_of s.worker s ≡ entries) × (s.file_is_open ≡ true)
unfolding log_service log set_level notify_due notify_one stop work in_hand
Run-Kept _ _ start = (refl, refl)
Run-Kept _ _ (logged {entries} {s} dump level message r free) =
    let (kept, o) = Run-Kept entries s r in
    elim (Bool-cases (is_filtered level s)) [
      | inl filtered ↦ rw filtered (kept, o)
      | inr passed ↦ rw passed (push-Kept (log_entry dump level message) entries s kept o)
    ]
Run-Kept _ _ (level_set {entries} {s} level r) = Run-Kept entries s r
Run-Kept _ _ (stopped {entries} {s} r) = Run-Kept entries s r
Run-Kept _ _ (notified {entries} {s} n r e) =
    let (kept, o) = Run-Kept entries s r in
    rw e (ap (λ h. s.log_file ++ h ++ s.message_queue) (in_hand-wake s.worker) ∙ kept, o)
Run-Kept _ _ (worked {entries} {s} r) =
    let (kept, o) = Run-Kept entries s r in
    let (same, opened) = process-Same s.worker s refl o in (same ∙ kept, opened)

idle_queue : (b : Bool) (q : List Str) → (b || not (is_empty q)) ≡ false → (b ≡ false) × (q ≡ [])
unfolding is_empty
idle_queue true q h = cc
idle_queue false [] h = (refl, refl)
idle_queue false (m ∷ q) h = cc

-- The thread ends only at the test of the outer loop.
test_ended :
    (s : LogService)
    → (process testing s).worker ≡ finished
    → ((process testing s).log_file ≡ s.log_file) × (s.running ≡ false) × (s.message_queue ≡ [])
unfolding process
test_ended s ended = elim (Bool-cases (s.running || not (is_empty s.message_queue))) [
  | inl h ↦ let bad = rw h at ended in absurd cc
  | inr h ↦ let (over, empty) = idle_queue s.running s.message_queue h in (rw h, over, empty)
]

-- Where the file could be opened: when the thread ends at the test of the outer loop, it has
-- written every entry that was let through, in order, and `running` is false.
pub finished_written :
    (entries : List Str) (s : LogService)
    → Run true entries s
    → s.worker ≡ testing
    → (work s).worker ≡ finished
    → ((work s).log_file ≡ entries) × (s.running ≡ false)
unfolding work process is_empty in_hand
finished_written entries s r at_test ended =
    let (same, over, empty) =
      test_ended s (subst (λ w. (process w s).worker ≡ finished) at_test ended) in
    let kept = (Run-Kept entries s r).0 in
    (
      ap (λ w. (process w s).log_file) at_test
          ∙ same
          ∙ sym (append-nil s.log_file)
          ∙ sym (append-nil (s.log_file ++ []))
          ∙ sym (ap₂ (λ w q. s.log_file ++ in_hand w ++ q) at_test empty)
          ∙ kept,
      over,
    )
