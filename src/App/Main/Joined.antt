-- ===== src/App/Main/Joined.antt =====
-- app/main.cc: what has to happen before `main` returns.
use ccfolio.Common.{
  ℕ, zero, suc, ◌≤◌, ◌≡◌, ◌≢◌, refl, ap, subst, ◌∙◌, ◌⊎◌, inl, inr, List, [], ◌∷◌, true, false,
  none, some, length, take, All, arith,
}
use ccfolio.Common.Text.{Str}
use ccfolio.Common.Effect.{ok}
use ccfolio.External.World.{World}
use ccfolio.External.Odb.{Odb}
use ccfolio.Entities.User.{User}
use ccfolio.Service.{Libraries}
use ccfolio.App.Main.{
  Config, Platform, Program, Thread, running, ended, Main, serving, joining, returned, thread_at,
  end_at, worker_threads, at_least_one, atoi, on_signal, on_connection, on_request, thread_ends,
  main_leaves, join, launch, start_program,
}
use ccfolio.App.Main.Runs.{
  Step, connected, refused, requested, signalled, thread_ended, main_left, joined, Steps, here,
  and_then,
}
use ccfolio.App.Main.Shutdown.{Thread-cases, stopped_ends}
use ccfolio.App.Main.Start.{start_program-launches}

abbrev pub Running : Thread → Type 0
Running t = t ≡ running

abbrev pub Ended : Thread → Type 0
Ended t = t ≡ ended

-- The threads that were joined have ended.
abbrev pub Joined : Main → List Thread → Type 0
Joined serving ts = Unit
Joined (joining n) ts = All Ended (take n ts)
Joined returned ts = All Ended ts

length-end_at : (k : ℕ) (ts : List Thread) → length (end_at k ts) ≡ length ts
unfolding end_at
length-end_at k [] = refl
length-end_at zero (t ∷ ts) = refl
length-end_at (suc k) (t ∷ ts) = ap suc (length-end_at k ts)

take-end_at :
    (n k : ℕ) (ts : List Thread) → All Ended (take n ts) → All Ended (take n (end_at k ts))
unfolding end_at
take-end_at zero k ts h = tt
take-end_at (suc n) k [] h = tt
take-end_at (suc n) zero (t ∷ ts) h = (refl, h.1)
take-end_at (suc n) (suc k) (t ∷ ts) h = (h.0, take-end_at n k ts h.1)

end_at-Ended : (k : ℕ) (ts : List Thread) → All Ended ts → All Ended (end_at k ts)
unfolding end_at
end_at-Ended k [] h = tt
end_at-Ended zero (t ∷ ts) h = (refl, h.1)
end_at-Ended (suc k) (t ∷ ts) h = (h.0, end_at-Ended k ts h.1)

Joined-end_at : (m : Main) (k : ℕ) (ts : List Thread) → Joined m ts → Joined m (end_at k ts)
Joined-end_at serving k ts h = tt
Joined-end_at (joining n) k ts h = take-end_at n k ts h
Joined-end_at returned k ts h = end_at-Ended k ts h

one_more :
    (n : ℕ) (ts : List Thread)
    → thread_at n ts ≡ some ended
    → All Ended (take n ts)
    → All Ended (take (suc n) ts)
unfolding thread_at
one_more n [] e h = cc
one_more zero (t ∷ ts) e h = (cc, tt)
one_more (suc n) (t ∷ ts) e h = (h.0, one_more n ts e h.1)

whole : (n : ℕ) (ts : List Thread) → thread_at n ts ≡ none → All Ended (take n ts) → All Ended ts
unfolding thread_at
whole n [] e h = tt
whole zero (t ∷ ts) e h = cc
whole (suc n) (t ∷ ts) e h = (h.0, whole n ts e h.1)

-- Either all threads serve and the signals are awaited, or a signal has come and what was joined has
-- ended.
abbrev pub Phase : {D : Type 0} → ℕ → Program D → Type 0
Phase n p =
    ((p.stopped ≡ false)
      × (p.signals_waiting ≡ true)
      × (p.thread_of_main ≡ serving)
      × All Running p.threads
      × (length p.threads ≡ n))
    ⊎ ((p.stopped ≡ true)
        × (p.signals_waiting ≡ false)
        × Joined p.thread_of_main p.threads
        × (length p.threads ≡ n))

module _ {D : Type 0} (size : ℕ) where
  join-Phase :
      (p : Program D) (n : ℕ)
      → p.thread_of_main ≡ joining n
      → thread_at n p.threads ≢ some running
      → Phase size p
      → Phase size (join n (thread_at n p.threads) p)
  unfolding join
  join-Phase p n e over (inl (_, _, serves, _, _)) = cc
  join-Phase p n e over (inr (stop, silent, h, same)) =
      let first : All Ended (take n p.threads) = subst (λ m. Joined m p.threads) e h in
      elim (Thread-cases (thread_at n p.threads)) [
        | inl runs ↦ absurd (over runs)
        | inr (inl is_ended) ↦
            rw is_ended (inr (stop, silent, one_more n p.threads is_ended first, same))
        | inr (inr outside) ↦ rw outside (inr (stop, silent, whole n p.threads outside first, same))
      ]

  Step-Phase : (p q : Program D) → Phase size p → Step p q → Phase size q
  unfolding on_connection on_signal on_request thread_ends main_leaves
  Step-Phase p _ phase (connected socket go listens) = phase
  Step-Phase p _ phase (refused ec go) = phase
  Step-Phase p _ phase (requested req w go some_session same returned_ok) = phase
  Step-Phase p _ (inl (go, waits, serves, run, same)) (signalled _ _) =
      inr (refl, refl, rw serves tt, same)
  Step-Phase p _ (inr (stop, _, _, _)) (signalled go _) = cc
  Step-Phase p _ (inl (go, _, _, _, _)) (thread_ended n stop e) = cc
  Step-Phase p _ (inr (stop, silent, h, same)) (thread_ended n _ e) =
      inr (
        stop,
        silent,
        Joined-end_at p.thread_of_main n p.threads h,
        length-end_at n p.threads ∙ same,
      )
  Step-Phase p _ (inl (go, _, _, _, _)) (main_left stop e) = cc
  Step-Phase p _ (inr (stop, silent, h, same)) (main_left _ e) = inr (stop, silent, tt, same)
  Step-Phase p _ phase (joined n e over) = join-Phase p n e over phase

  Steps-Phase : (p q : Program D) (n : ℕ) → Phase size p → Steps p n q → Phase size q
  Steps-Phase p _ _ phase here = phase
  Steps-Phase p _ _ phase (and_then {n} {q} {r} steps step) =
      Step-Phase q r (Steps-Phase p q n phase steps) step

-- Until a signal comes the program serves with the thread of `main` and three more, and awaits
-- signals. After that `main` has joined only threads that have ended, and when it returns all three
-- have.
Steps-joined :
    (lib : Libraries) (odb : Odb User ℕ Str) (platform : Platform odb.Db) (config : Config)
    (w : World odb.Db) (p q : Program odb.Db) (n : ℕ)
    → start_program lib odb platform config w ≡ ok p
    → Steps p n q
    → Phase 3 q
unfolding launch worker_threads at_least_one atoi
Steps-joined lib odb platform config w p q n started steps =
    let (address, made, (db, same)) = start_program-launches lib odb platform config w p started in
    Steps-Phase 3 p q n (rw same (inl (refl, refl, refl, (refl, (refl, (refl, tt))), refl))) steps

phase_length : {D : Type 0} (size : ℕ) (p : Program D) → Phase size p → length p.threads ≡ size
phase_length size p (inl (_, _, _, _, same)) = same
phase_length size p (inr (_, _, _, same)) = same

phase_returned :
    {D : Type 0} (size : ℕ) (p : Program D)
    → Phase size p
    → p.thread_of_main ≡ returned
    → All Ended p.threads
phase_returned size p (inl (_, _, serves, _, _)) e = cc
phase_returned size p (inr (stop, _, h, _)) e = subst (λ m. Joined m p.threads) e h

-- Let a program that has started come to a state `q` where the context is stopped, in any order of
-- connections, requests and signals. Then three threads beside that of `main` were started, at most
-- eight more steps are taken, and after any number of them either there is a next one, or `main` has
-- returned and the three threads have ended.
pub main_returns :
    (lib : Libraries) (odb : Odb User ℕ Str) (platform : Platform odb.Db) (config : Config)
    (w : World odb.Db) (p q r : Program odb.Db) (n k : ℕ)
    → start_program lib odb platform config w ≡ ok p
    → Steps p n q
    → q.stopped ≡ true
    → Steps q k r
    → (length r.threads ≡ 3)
      × (k ≤ 8)
      × (((r.thread_of_main ≡ returned) × All Ended r.threads) ⊎ ((s : Program odb.Db) × Step r s))
main_returns lib odb platform config w p q r n k started before stop after =
    let at_stop = Steps-joined lib odb platform config w p q n started before in
    let now = Steps-Phase 3 q r k at_stop after in
    let (few, next) = stopped_ends q r k stop after in
    let three = phase_length 3 q at_stop in
    (
      phase_length 3 r now,
      omega arith,
      elim next [ inl over ↦ inl (over, phase_returned 3 r now over) | inr step ↦ inr step ],
    )
