-- ===== src/Network/Room/Members.antt =====
-- src/Network/SharedState.cc: the pointers in the set and the sessions that exist.
use ccfolio.Common.{
  ℕ, ◌≡◌, refl, sym, ap, ◌∙◌, subst, inl, inr, List, [], ◌∷◌, ◌++◌, Bool, true, false,
  if◌then◌else◌, ◌&&◌, ◌||◌, not, Option, none, some, ◌==◌, ==_iff, arith, Bool-cases, ltb, length,
  drop,
}
use ccfolio.Common.Text.{Str, text}
use ccfolio.External.Asio.{ErrorCode, is_aborted, is_closed}
use ccfolio.Network.WebSocketSession
use ccfolio.Network.WebSocketSession.{
  Session, new_session, fail, async_read, async_write, write_front, on_accept, on_read, on_send,
  on_write,
}
use ccfolio.Network.SharedState.{SharedState, shared_state, contains, join, leave, Store, send}
use ccfolio.Network.SharedState.Broadcast.{IsOnce, send_lem}
use ccfolio.Network.Room.{
  Life, absent, live, dying, is_live, is_present, Room, empty_room, open_session, join_if, accept,
  Event, read, posted, wrote, on_event, handle, release, destroy, broadcast, Run, start, opened,
  accepted, handled, released, destroyed, sent,
}

fail-joined : (ec : ErrorCode) (what : Str) (s : Session) → (fail ec what s).joined ≡ s.joined
unfolding fail
fail-joined ec what s = elim (Bool-cases (is_aborted ec.kind || is_closed ec.kind)) [
  | inl e ↦ rw e
  | inr e ↦ rw e
]

write_front-joined : (l : List Str) (s : Session) → (write_front l s).joined ≡ s.joined
unfolding write_front async_write
write_front-joined [] s = refl
write_front-joined (m ∷ l) s = refl

on_event-joined : (e : Event) (s : Session) → (on_event e s).joined ≡ s.joined
unfolding on_event on_read on_send on_write async_read
on_event-joined (read (some ec)) s = fail-joined ec (text "read") s
on_event-joined (read none) s = refl
on_event-joined (posted m) s = elim (Bool-cases (ltb 1 (length (s.queue ++ m ∷ [])))) [
  | inl e ↦ rw e
  | inr e ↦ rw e (write_front-joined (s.queue ++ m ∷ []) (record s { queue = s.queue ++ m ∷ [] }))
]
on_event-joined (wrote (some ec)) s = fail-joined ec (text "write") s
on_event-joined (wrote none) s =
    write_front-joined (drop 1 s.queue) (record s { queue = drop 1 s.queue })

-- The pointers in the set are those of the sessions that exist and have joined.
pub record Listed (r : Room) : Type 0 where
  pub once : IsOnce r.shared.sessions
  pub members :
      (q : ℕ) → contains r.shared.sessions q ≡ (is_present (r.life q) && (r.store q).joined)

-- The parts of `send_lem` for a set that is listed.
join-IsOnce : (p : ℕ) (s : SharedState) → IsOnce s.sessions → IsOnce (join p s).sessions
join-IsOnce p s h = (send_lem (λ q. true) [] s p p (λ q. new_session) h).0

leave-IsOnce : (p : ℕ) (s : SharedState) → IsOnce s.sessions → IsOnce (leave p s).sessions
leave-IsOnce p s h = (send_lem (λ q. true) [] s p p (λ q. new_session) h).1

contains-join :
    (p q : ℕ) (s : SharedState)
    → IsOnce s.sessions
    → contains (join p s).sessions q ≡ (contains s.sessions q || (p == q))
contains-join p q s h = (send_lem (λ q. true) [] s p q (λ q. new_session) h).2

contains-leave :
    (p q : ℕ) (s : SharedState)
    → IsOnce s.sessions
    → contains (leave p s).sessions q ≡ (contains s.sessions q && not (p == q))
contains-leave p q s h = (send_lem (λ q. true) [] s p q (λ q. new_session) h).3

-- Sending to the members changes nobody's membership.
send-joined :
    (alive : ℕ → Bool) (message : Str) (s : SharedState) (store : Store) (q : ℕ)
    → IsOnce s.sessions
    → (send alive message s store q).joined ≡ (store q).joined
unfolding WebSocketSession.send
send-joined alive message s store q h =
    let same = (send_lem alive message s q q store h).4 in
    elim (Bool-cases (contains s.sessions q && alive q)) [
      | inl e ↦ ap (λ t. t.joined) same ∙ rw e
      | inr e ↦ ap (λ t. t.joined) same ∙ rw e
    ]

-- What a step does to the life and the membership of one pointer.
abbrev Member : Room → ℕ → Type 0
Member r q = contains r.shared.sessions q ≡ (is_present (r.life q) && (r.store q).joined)

opened-Member : (r : Room) (p q : ℕ) → Member r q → r.life p ≡ absent → Member (open_session p r) q
unfolding open_session WebSocketSession.run is_present
opened-Member r p q m gone = elim (Bool-cases (p == q)) [
  | inl e ↦
      let none_there = subst (λ x. r.life x ≡ absent) ((==_iff p q).0 e) gone in
      rw e (m ∙ rw none_there)
  | inr e ↦ rw e m
]

accepted-Member :
    (r : Room) (p q : ℕ) (ec : Option ErrorCode)
    → IsOnce r.shared.sessions
    → Member r q
    → r.life p ≡ live
    → Member (accept p ec r) q
unfolding accept join_if on_accept async_read is_present
accepted-Member r p q none h m alive = elim (Bool-cases (p == q)) [
  | inl e ↦
      let here = subst (λ x. r.life x ≡ live) ((==_iff p q).0 e) alive in
      contains-join p q r.shared h ∙ rw (e, here) ground arith
  | inr e ↦ contains-join p q r.shared h ∙ rw e (ground (arith, m))
]
accepted-Member r p q (some ec) h m alive = elim (Bool-cases (p == q)) [
  | inl e ↦
      rw e (
        m ∙ ap (λ j. is_present (r.life q) && j) (sym (fail-joined ec (text "accept") (r.store q))))
  | inr e ↦ rw e m
]

handled-Member : (r : Room) (p q : ℕ) (e : Event) → Member r q → Member (handle p e r) q
unfolding handle
handled-Member r p q e m = elim (Bool-cases (p == q)) [
  | inl same ↦
      rw same (m ∙ ap (λ j. is_present (r.life q) && j) (sym (on_event-joined e (r.store q))))
  | inr other ↦ rw other m
]

released-Member : (r : Room) (p q : ℕ) → Member r q → r.life p ≡ live → Member (release p r) q
unfolding release is_present
released-Member r p q m alive = elim (Bool-cases (p == q)) [
  | inl e ↦ let here = subst (λ x. r.life x ≡ live) ((==_iff p q).0 e) alive in rw e (m ∙ rw here)
  | inr e ↦ rw e m
]

destroyed-Member :
    (r : Room) (p q : ℕ) → IsOnce r.shared.sessions → Member r q → Member (destroy p r) q
unfolding destroy is_present
destroyed-Member r p q h m = elim (Bool-cases (p == q)) [
  | inl e ↦ contains-leave p q r.shared h ∙ rw e (ground arith)
  | inr e ↦ contains-leave p q r.shared h ∙ rw e (ground (arith, m))
]

-- In every order of openings, handlers, messages and destructions, the set of the shared state holds
-- each pointer at most once, and exactly those of the sessions that have joined and whose destructor
-- has not run.
pub Run-Listed : (r : Room) → Run r → Listed r
unfolding empty_room shared_state contains is_present open_session accept join_if handle release
    destroy broadcast
Run-Listed _ (start doc_root) = record { once = tt; members = λ q. refl }
Run-Listed _ (opened {r} p run gone) =
    let l = Run-Listed r run in
    record { once = l.once; members = λ q. opened-Member r p q (l.members q) gone }
Run-Listed _ (accepted {r} p none run alive) =
    let l = Run-Listed r run in
    record {
      once = join-IsOnce p r.shared l.once;
      members = λ q. accepted-Member r p q none l.once (l.members q) alive;
    }
Run-Listed _ (accepted {r} p (some ec) run alive) =
    let l = Run-Listed r run in
    record {
      once = l.once;
      members = λ q. accepted-Member r p q (some ec) l.once (l.members q) alive;
    }
Run-Listed _ (handled {r} p e run alive) =
    let l = Run-Listed r run in
    record { once = l.once; members = λ q. handled-Member r p q e (l.members q) }
Run-Listed _ (released {r} p run alive) =
    let l = Run-Listed r run in
    record { once = l.once; members = λ q. released-Member r p q (l.members q) alive }
Run-Listed _ (destroyed {r} p run gone) =
    let l = Run-Listed r run in
    record {
      once = leave-IsOnce p r.shared l.once;
      members = λ q. destroyed-Member r p q l.once (l.members q);
    }
Run-Listed _ (sent {r} message run) =
    let l = Run-Listed r run in
    record {
      once = l.once;
      members = λ q.
          l.members q
          ∙ ap (λ j. is_present (r.life q) && j)
              (sym (send-joined (λ p. is_live (r.life p)) message r.shared r.store q l.once));
    }

present : (l : Life) (j : Bool) → ((is_present l && j) && is_live l) ≡ (is_live l && j)
unfolding is_present is_live
present absent j = refl
present live true = refl
present live false = refl
present dying true = refl
present dying false = refl

-- In every order of openings, handlers, messages and destructions, the set of the shared state holds
-- each pointer at most once, and exactly those of the sessions that have joined and whose destructor
-- has not run. So a message that is sent now is handed once to each session that is owned and has
-- joined, and to nothing else: not to a session that is gone or whose last owner has gone.
pub broadcast-Run :
    (r : Room) (message : Str) (q : ℕ)
    → Run r
    → Listed r
      × ((broadcast message r).store q ≡ (
          if is_live (r.life q) && (r.store q).joined
          then WebSocketSession.send message (r.store q)
          else r.store q))
unfolding broadcast
broadcast-Run r message q run =
    let l = Run-Listed r run in
    let (_, _, _, _, posted_once) =
      send_lem (λ p. is_live (r.life p)) message r.shared 0 q r.store l.once in
    let reached =
      ap (λ b. b && is_live (r.life q)) (l.members q) ∙ present (r.life q) (r.store q).joined in
    (
      l,
      posted_once
          ∙ ap (λ b. if b then WebSocketSession.send message (r.store q) else r.store q) reached,
    )
