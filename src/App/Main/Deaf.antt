-- ===== src/App/Main/Deaf.antt =====
-- app/main.cc and src/Network/listener.cc: a program whose listener could not be set up.
use ccfolio.Common.{
  ℕ, zero, suc, ◌≡◌, refl, ap, ◌∙◌, inl, inr, [], ◌∷◌, ◌++◌, false, Option, none, some, Bool-cases,
  not_true,
}
use ccfolio.Common.Text.{Str, text}
use ccfolio.Common.Effect.{ok}
use ccfolio.External.World.{World}
use ccfolio.External.Odb.{Odb}
use ccfolio.External.Asio.{ErrorCode, is_aborted}
use ccfolio.Entities.User.{User}
use ccfolio.Service.{Libraries}
use ccfolio.Network.Listener.{
  Listener, fail, check, listen_step, bind_step, option_step, listener, async_accept, on_accept,
  event,
}
use ccfolio.Network.Listener
use ccfolio.Network.Listener.Accepting.{listener_listening}
use ccfolio.App.Main.{
  Config, Platform, Program, Thread, running, ended, atoi, to_unsigned_short, print_port, thread_at,
  on_signal, on_connection, thread_ends, main_leaves, join, launch, start_program,
}
use ccfolio.App.Main.Runs.{
  Step, connected, refused, requested, signalled, thread_ended, main_left, joined, Steps, here,
  and_then,
}
use ccfolio.App.Main.Start.{launched, start_program-launches}

-- The acceptor does not listen and no session was started.
abbrev Deaf : Listener → Type 0
Deaf l = (l.listening ≡ false) × (l.sessions ≡ [])

fail-Deaf : (ec : ErrorCode) (what : Str) (l : Listener) → Deaf l → Deaf (fail ec what l)
unfolding fail
fail-Deaf ec what l deaf = elim (Bool-cases (is_aborted ec.kind)) [
  | inl e ↦ rw e deaf
  | inr e ↦ rw e deaf
]

event-Deaf : (n : ℕ) (ec : ErrorCode) (l : Listener) → Deaf l → Deaf (event n (inl ec) l)
unfolding event on_accept
event-Deaf zero ec l deaf = deaf
event-Deaf (suc n) ec l deaf = fail-Deaf ec (text "accept") (record l { accepts = n }) deaf

-- The constructor starts no session, whichever step fails.
listener-sessions :
    (open_ec option_ec bind_ec listen_ec : Option ErrorCode)
    → (listener open_ec option_ec bind_ec listen_ec).sessions ≡ []
unfolding listener option_step bind_step listen_step check
listener-sessions none none none none = refl
listener-sessions (some ec) o b l = (fail-Deaf ec (text "open") _ (refl, refl)).1
listener-sessions none (some ec) b l = (fail-Deaf ec (text "set_option") _ (refl, refl)).1
listener-sessions none none (some ec) l = (fail-Deaf ec (text "bind") _ (refl, refl)).1
listener-sessions none none none (some ec) = (fail-Deaf ec (text "listen") _ (refl, refl)).1

-- What stays as it was.
abbrev Unserved : {D : Type 0} → Program D → Program D → Type 0
Unserved p q = Deaf q.listener × (q.world ≡ p.world) × (q.output ≡ p.output)

module _ {D : Type 0} where
  join-Unserved :
      (p q : Program D) (n : ℕ) (t : Option Thread) → Unserved p q → Unserved p (join n t q)
  unfolding join
  join-Unserved p q n none u = u
  join-Unserved p q n (some ended) u = u
  join-Unserved p q n (some running) u = u

  Step-Unserved : (p q r : Program D) → Unserved p q → Step q r → Unserved p r
  unfolding on_connection on_signal thread_ends main_leaves
  Step-Unserved p q _ u (connected socket go listens) = let deaf = u.0 in cc
  Step-Unserved p q _ u (refused ec go) =
      (event-Deaf q.listener.accepts ec q.listener u.0, u.1, u.2)
  Step-Unserved p q _ u (requested req w go some_session same returned_ok) =
      absurd (some_session u.0.1)
  Step-Unserved p q _ u (signalled go waiting) = u
  Step-Unserved p q _ u (thread_ended n stop e) = u
  Step-Unserved p q _ u (main_left stop e) = u
  Step-Unserved p q _ u (joined n e over) = join-Unserved p q n (thread_at n q.threads) u

  Steps-Unserved : (p q : Program D) (n : ℕ) → Deaf p.listener → Steps p n q → Unserved p q
  Steps-Unserved p _ _ deaf here = (deaf, refl, refl)
  Steps-Unserved p _ _ deaf (and_then {n} {q} {r} steps step) =
      Step-Unserved p q r (Steps-Unserved p q n deaf steps) step

module _ (lib : Libraries) (odb : Odb User ℕ Str) (platform : Platform odb.Db) where
  open platform use {Address, make_address, print_address, open_ec, option_ec, bind_ec, listen_ec}

  launch-Deaf :
      (config : Config) (w : World odb.Db) (address : Address)
      → ¬ ((open_ec ≡ none) × (option_ec ≡ none) × (bind_ec ≡ none) × (listen_ec ≡ none))
      → Deaf (launched lib odb platform config w address).listener
  unfolding launch Listener.run async_accept
  launch-Deaf config w address failed =
      let (iff, few) = listener_listening open_ec option_ec bind_ec listen_ec in
      (not_true _ (λ e. failed (iff.0 e)), listener-sessions open_ec option_ec bind_ec listen_ec)

  -- Let one of the listener's four calls have failed. Then, once the program has started, it never
  -- starts a session and no request changes the world, however long it runs. All the same it has
  -- announced that the server listens, with its address and port.
  pub Steps-deaf :
      (config : Config) (w : World odb.Db) (p q : Program odb.Db) (n : ℕ)
      → start_program lib odb platform config w ≡ ok p
      → ¬ ((open_ec ≡ none) × (option_ec ≡ none) × (bind_ec ≡ none) × (listen_ec ≡ none))
      → Steps p n q
      → (q.listener.listening ≡ false)
        × (q.listener.sessions ≡ [])
        × (q.world ≡ p.world)
        × ((address : Address) × (make_address config.server_address ≡ ok address)
            × (q.output
                ≡ text "Server listening on "
                  ++ print_address address
                  ++ text ":"
                  ++ print_port (to_unsigned_short (atoi config.server_port))
                  ++ b'\n' ∷ []))
  unfolding launch
  Steps-deaf config w p q n started failed steps =
      let (address, made, (db, same)) =
        start_program-launches lib odb platform config w p started in
      let deaf : Deaf p.listener =
        rw same (launch-Deaf config (record w { db = db }) address failed) in
      let ((silent, nobody), unchanged, said) = Steps-Unserved p q n deaf steps in
      (silent, nobody, unchanged, (address, made, said ∙ ap (λ r. r.output) same))
