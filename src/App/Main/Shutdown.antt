-- ===== src/App/Main/Shutdown.antt =====
-- app/main.cc: that a stopped program comes to its end.
use ccfolio.Common.{
  ℕ, zero, suc, ◌+◌, ◌-◌, ◌*◌, ◌≤◌, ◌≡◌, ◌≢◌, refl, ◌∙◌, ◌⊎◌, inl, inr, List, [], ◌∷◌, true, Option,
  none, some, length, arith,
}
use ccfolio.App.Main.{
  Program, Thread, running, ended, Main, serving, joining, returned, thread_at, end_at, thread_ends,
  main_leaves, join,
}
use ccfolio.App.Main.Runs.{
  Step, connected, refused, requested, signalled, thread_ended, main_left, joined, Steps, here,
  and_then,
}

-- The steps that are left: one for each thread that runs, and those of the thread of `main`.
unfoldable count_running : List Thread → ℕ
count_running [] = 0
count_running (running ∷ ts) = suc (count_running ts)
count_running (ended ∷ ts) = count_running ts

unfoldable to_join : Main → ℕ → ℕ
to_join serving n = n + 2
to_join (joining k) n = suc (n - k)
to_join returned n = 0

unfoldable remaining : {D : Type 0} → Program D → ℕ
unfolding count_running to_join
remaining p = count_running p.threads + to_join p.thread_of_main (length p.threads)

count_running-end_at :
    (n : ℕ) (ts : List Thread)
    → thread_at n ts ≡ some running
    → (suc (count_running (end_at n ts)) ≡ count_running ts) × (length (end_at n ts) ≡ length ts)
unfolding count_running end_at thread_at
count_running-end_at n [] e = cc
count_running-end_at zero (running ∷ ts) e = (refl, refl)
count_running-end_at zero (ended ∷ ts) e = cc
count_running-end_at (suc n) (running ∷ ts) e =
    let (less, same) = count_running-end_at n ts e in (omega (arith, less), omega (arith, same))
count_running-end_at (suc n) (ended ∷ ts) e =
    let (less, same) = count_running-end_at n ts e in (less, omega (arith, same))

count_running-length : (ts : List Thread) → count_running ts ≤ length ts
unfolding count_running
count_running-length [] = omega arith
count_running-length (running ∷ ts) = omega (arith, count_running-length ts)
count_running-length (ended ∷ ts) = omega (arith, count_running-length ts)

within : (n : ℕ) (ts : List Thread) (t : Thread) → thread_at n ts ≡ some t → suc n ≤ length ts
unfolding thread_at
within n [] t e = cc
within zero (u ∷ ts) t e = omega arith
within (suc n) (u ∷ ts) t e = omega (arith, within n ts t e)

to_join-bound : (m : Main) (n : ℕ) → to_join m n ≤ n + 2
unfolding to_join
to_join-bound serving n = omega arith
to_join-bound (joining k) n = omega arith
to_join-bound returned n = omega arith

pub Thread-cases : (t : Option Thread) → (t ≡ some running) ⊎ ((t ≡ some ended) ⊎ (t ≡ none))
Thread-cases (some running) = inl refl
Thread-cases (some ended) = inr (inl refl)
Thread-cases none = inr (inr refl)

Main-cases : (m : Main) → (m ≡ returned) ⊎ ((m ≡ serving) ⊎ ((k : ℕ) × (m ≡ joining k)))
Main-cases returned = inl refl
Main-cases serving = inr (inl refl)
Main-cases (joining k) = inr (inr (k, refl))

module _ {D : Type 0} where
  remaining-bound : (p : Program D) → remaining p ≤ 2 * length p.threads + 2
  unfolding remaining
  remaining-bound p =
      omega
        (arith, count_running-length p.threads, to_join-bound p.thread_of_main (length p.threads))

  join-shrinks :
      (n : ℕ) (p : Program D)
      → p.thread_of_main ≡ joining n
      → thread_at n p.threads ≢ some running
      → let q = join n (thread_at n p.threads) p in
        (q.stopped ≡ p.stopped)
        × (suc (remaining q) ≤ remaining p)
        × (length q.threads ≡ length p.threads)
  unfolding remaining join to_join
  join-shrinks n p e over = elim (Thread-cases (thread_at n p.threads)) [
    | inl runs ↦ absurd (over runs)
    | inr (inl is_ended) ↦
        let inside = within n p.threads ended is_ended in rw (is_ended, e) (refl, omega arith, refl)
    | inr (inr outside) ↦ rw (outside, e) (refl, omega arith, refl)
  ]

  Step-shrinks :
      (p q : Program D)
      → p.stopped ≡ true
      → Step p q
      → (q.stopped ≡ true)
        × (suc (remaining q) ≤ remaining p)
        × (length q.threads ≡ length p.threads)
  unfolding remaining thread_ends main_leaves to_join
  Step-shrinks p _ stop (connected socket go deaf) = cc
  Step-shrinks p _ stop (refused ec go) = cc
  Step-shrinks p _ stop (requested req w go some_session same returned_ok) = cc
  Step-shrinks p _ stop (signalled go waiting) = cc
  Step-shrinks p _ stop (thread_ended n _ e) =
      let (less, same) = count_running-end_at n p.threads e in
      (stop, rw same (omega (arith, less)), same)
  Step-shrinks p _ stop (main_left _ e) = (stop, rw e (omega arith), refl)
  Step-shrinks p _ stop (joined n e over) =
      let (keeps, less, same) = join-shrinks n p e over in (keeps ∙ stop, less, same)

  Steps-shrink :
      (p q : Program D) (n : ℕ)
      → p.stopped ≡ true
      → Steps p n q
      → (q.stopped ≡ true) × (n + remaining q ≤ remaining p)
  Steps-shrink p _ _ stop here = (stop, omega arith)
  Steps-shrink p _ _ stop (and_then {n} {q} {r} steps step) =
      let (still, few) = Steps-shrink p q n stop steps in
      let (stays, less, _) = Step-shrinks q r still step in (stays, omega arith)

  progress :
      (p : Program D)
      → p.stopped ≡ true
      → (p.thread_of_main ≡ returned) ⊎ ((q : Program D) × Step p q)
  progress p stop = elim (Main-cases p.thread_of_main) [
    | inl over ↦ inl over
    | inr (inl serves) ↦ inr (main_leaves p, main_left stop serves)
    | inr (inr (k, joins)) ↦ elim (Thread-cases (thread_at k p.threads)) [
      | inl runs ↦ inr (thread_ends k p, thread_ended k stop runs)
      | inr (inl is_ended) ↦ inr (_, joined k joins (λ runs. cc))
      | inr (inr outside) ↦ inr (_, joined k joins (λ runs. cc))
    ]
  ]

  -- Once the context is stopped, at most two steps for each thread and two more are taken, and as
  -- long as `main` has not returned there is a next one: `main` returns.
  pub stopped_ends :
      (p q : Program D) (n : ℕ)
      → p.stopped ≡ true
      → Steps p n q
      → (n ≤ 2 * length p.threads + 2)
        × ((q.thread_of_main ≡ returned) ⊎ ((r : Program D) × Step q r))
  stopped_ends p q n stop steps =
      let (still, few) = Steps-shrink p q n stop steps in
      let bound = remaining-bound p in (omega arith, progress q still)
