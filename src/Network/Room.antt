-- ===== src/Network/Room.antt =====
-- src/Network/WebSocketSession.cc with src/Network/SharedState.cc: the sessions and the set of pointers
-- to them, from the constructor of a session to its destructor.
pub mod Members
use ccfolio.Common.{
  ℕ, ◌≡◌, List, [], ◌∷◌, Bool, true, false, Option, none, some, if◌then◌else◌, ◌==◌, ◌++◌,
}
use ccfolio.Common.Text.{Str}
use ccfolio.External.Asio.{ErrorCode}
use ccfolio.Network.WebSocketSession
use ccfolio.Network.WebSocketSession.{Session, new_session}
use ccfolio.Network.SharedState.{SharedState, shared_state, join, leave, Store, update, send}

-- A pointer points to nothing, to a session that somebody owns, or to one whose last owner has gone
-- and whose destructor has not finished.
pub data Life : Type 0 where
  absent live dying : Life

unfoldable pub is_live : Life → Bool
is_live live = true
is_live _ = false

unfoldable pub is_present : Life → Bool
is_present absent = false
is_present _ = true

pub record Room : Type 0 where
  pub shared : SharedState
  pub store : Store
  pub life : ℕ → Life

abbrev pub put : ℕ → Life → (ℕ → Life) → ℕ → Life
put p l life q = if p == q then l else life q

unfoldable pub empty_room : Str → Room
empty_room doc_root = record {
  shared = shared_state doc_root;
  store = λ p. new_session;
  life = λ p. absent;
}

-- `make_shared<WebSocketSession>(…)->run(…)`
unfoldable pub open_session : ℕ → Room → Room
open_session p r = record r {
  store = update p (λ _. WebSocketSession.run new_session) r.store;
  life = put p live r.life;
}

unfoldable pub join_if : Option ErrorCode → ℕ → SharedState → SharedState
join_if none p s = join p s
join_if (some ec) p s = s

-- `on_accept` with its call of `state_->join(this)`
unfoldable pub accept : ℕ → Option ErrorCode → Room → Room
unfolding join_if
accept p ec r = record r {
  shared = join_if ec p r.shared;
  store = update p (WebSocketSession.on_accept ec) r.store;
}

-- The other handlers of a session.
pub data Event : Type 0 where
  read : Option ErrorCode → Event
  posted : Str → Event
  wrote : Option ErrorCode → Event

unfoldable pub on_event : Event → Session → Session
on_event (read ec) s = WebSocketSession.on_read ec s
on_event (posted m) s = WebSocketSession.on_send m s
on_event (wrote ec) s = WebSocketSession.on_write ec s

unfoldable pub handle : ℕ → Event → Room → Room
unfolding on_event
handle p e r = record r { store = update p (on_event e) r.store }

-- The last owner goes.
unfoldable pub release : ℕ → Room → Room
release p r = record r { life = put p dying r.life }

-- The destructor: `state_->leave(this)`.
unfoldable pub destroy : ℕ → Room → Room
destroy p r = record r { shared = leave p r.shared; life = put p absent r.life }

-- `SharedState::send`, where a weak pointer can be locked exactly if the session is owned.
unfoldable pub broadcast : Str → Room → Room
broadcast message r = record r { store = send (λ p. is_live (r.life p)) message r.shared r.store }

-- The runs. A handler runs only while the session is owned, since it holds an owning pointer itself.
pub data Run : Room → Type 0 where
  start : (doc_root : Str) → Run (empty_room doc_root)
  opened : {r : Room} (p : ℕ) → Run r → r.life p ≡ absent → Run (open_session p r)
  accepted :
      {r : Room} (p : ℕ) (ec : Option ErrorCode) → Run r → r.life p ≡ live → Run (accept p ec r)
  handled : {r : Room} (p : ℕ) (e : Event) → Run r → r.life p ≡ live → Run (handle p e r)
  released : {r : Room} (p : ℕ) → Run r → r.life p ≡ live → Run (release p r)
  destroyed : {r : Room} (p : ℕ) → Run r → r.life p ≡ dying → Run (destroy p r)
  sent : {r : Room} (message : Str) → Run r → Run (broadcast message r)
