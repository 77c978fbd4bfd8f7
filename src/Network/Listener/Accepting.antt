-- ===== src/Network/Listener/Accepting.antt =====
-- src/Network/listener.cc: when the port is open, and for how long connections are accepted.
use ccfolio.Common.{
  ℕ, ◌≤◌, ◌≡◌, ◌↔◌, refl, sym, ap, ◌∙◌, ◌⊎◌, inl, inr, List, [], ◌∷◌, ◌++◌, true, false, Option,
  none, some, arith, length, append_assoc, append-nil, Bool-cases,
}
use ccfolio.Common.Text.{Str, text}
use ccfolio.External.Asio.{ErrorCode, is_aborted}
use ccfolio.Network.Listener.{
  Listener, fail, check, listen_step, bind_step, option_step, listener, async_accept, run,
  on_accept, event, events,
}

-- What a failed step leaves behind.
fail-listening :
    (ec : ErrorCode) (what : Str) (l : Listener)
    → l.log ≡ []
    → ((fail ec what l).listening ≡ l.listening) × (length (fail ec what l).log ≤ 1)
unfolding fail
fail-listening ec what l e = elim (Bool-cases (is_aborted ec.kind)) [
  | inl aborted ↦ rw (aborted, e) (refl, omega arith)
  | inr other ↦ rw (other, e) (refl, omega arith)
]

-- Where a step fails before `listen` is done, and `P` says that no step failed.
refused :
    (P : Type 0) (ec : ErrorCode) (what : Str) (l : Listener)
    → l.log ≡ []
    → l.listening ≡ false
    → ¬ P
    → (((fail ec what l).listening ≡ true) ↔ P) × (length (fail ec what l).log ≤ 1)
refused P ec what l empty deaf never =
    let (same, short) = fail-listening ec what l empty in
    ((λ e. cc (same, deaf, e), λ p. absurd (never p)), short)

-- After the constructor the acceptor listens exactly if the four calls succeed, and at most one
-- line is logged.
pub listener_listening :
    (open_ec option_ec bind_ec listen_ec : Option ErrorCode)
    → let l = listener open_ec option_ec bind_ec listen_ec in
      ((l.listening ≡ true)
        ↔ ((open_ec ≡ none) × (option_ec ≡ none) × (bind_ec ≡ none) × (listen_ec ≡ none)))
      × (length l.log ≤ 1)
unfolding listener option_step bind_step listen_step check
listener_listening none none none none = ((λ _. (refl, refl, refl, refl), λ _. refl), omega arith)
listener_listening (some ec) o b l = refused _ ec (text "open") _ refl refl (λ p. let e = p.0 in cc)
listener_listening none (some ec) b l =
    refused _ ec (text "set_option") _ refl refl (λ p. let e = p.1 in cc)
listener_listening none none (some ec) l =
    refused _ ec (text "bind") _ refl refl (λ p. let e = p.2 in cc)
listener_listening none none none (some ec) =
    refused _ ec (text "listen") _ refl refl (λ p. let e = p.3 in cc)

-- The connections before the first error.
unfoldable pub until_error : List (ErrorCode ⊎ ℕ) → List ℕ
until_error [] = []
until_error (inl ec ∷ rest) = []
until_error (inr socket ∷ rest) = socket ∷ until_error rest

idle_events : (es : List (ErrorCode ⊎ ℕ)) (l : Listener) → l.accepts ≡ 0 → events es l ≡ l
unfolding events event
idle_events [] l e = refl
idle_events (x ∷ es) l e = ap (λ n. events es (event n x l)) e ∙ idle_events es l e

fail-accepts :
    (ec : ErrorCode) (what : Str) (l : Listener)
    → ((fail ec what l).accepts ≡ l.accepts) × ((fail ec what l).sessions ≡ l.sessions)
unfolding fail
fail-accepts ec what l = elim (Bool-cases (is_aborted ec.kind)) [
  | inl aborted ↦ rw aborted (refl, refl)
  | inr other ↦ rw other (refl, refl)
]

events-from :
    (es : List (ErrorCode ⊎ ℕ)) (l : Listener)
    → l.accepts ≡ 1
    → (events es l).sessions ≡ l.sessions ++ until_error es
unfolding events event on_accept until_error async_accept
events-from [] l e = sym (append-nil l.sessions)
events-from (inl ec ∷ es) l e =
    let failed = fail-accepts ec (text "accept") (record l { accepts = 0 }) in
    rw e (ap (λ k. k.sessions) (idle_events es _ failed.0) ∙ failed.1 ∙ sym (append-nil l.sessions))
events-from (inr socket ∷ es) l e =
    rw e (events-from es _ refl ∙ append_assoc l.sessions (socket ∷ []) (until_error es))

-- When a listener with no accept under way is run, a session is started for each connection, in
-- order, up to the first accept that fails, and for none after that.
pub events-run :
    (l : Listener) (es : List (ErrorCode ⊎ ℕ))
    → l.accepts ≡ 0
    → (events es (run l)).sessions ≡ l.sessions ++ until_error es
unfolding run async_accept
events-run l es e = events-from es (run l) (rw e refl)
