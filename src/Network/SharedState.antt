-- ===== src/Network/SharedState.antt =====
-- src/Network/SharedState.cc: the set of sessions, and sending to all of them. Each function holds the
-- mutex where it touches the set, so calls come one after the other.
pub mod Broadcast
use ccfolio.Common.{ℕ, List, [], ◌∷◌, ◌++◌, Bool, true, false, if◌then◌else◌, ◌==◌}
use ccfolio.Common.Text.{Str}
use ccfolio.Network.WebSocketSession
use ccfolio.Network.WebSocketSession.{Session}

-- A pointer to a session is its number. `std::unordered_set` as the list of its elements.
pub record SharedState : Type 0 where
  pub doc_root : Str
  pub sessions : List ℕ

-- The constructor.
unfoldable pub shared_state : Str → SharedState
shared_state doc_root = record { doc_root = doc_root; sessions = [] }

unfoldable pub contains : List ℕ → ℕ → Bool
contains [] p = false
contains (q ∷ l) p = if q == p then true else contains l p

-- `sessions_.insert(session)`
unfoldable pub insert : ℕ → List ℕ → List ℕ
unfolding contains
insert p l = if contains l p then l else l ++ p ∷ []

-- `sessions_.erase(session)`
unfoldable pub erase : ℕ → List ℕ → List ℕ
erase p [] = []
erase p (q ∷ l) = if q == p then l else q ∷ erase p l

unfoldable pub join : ℕ → SharedState → SharedState
unfolding insert
join p s = record s { sessions = insert p s.sessions }

unfoldable pub leave : ℕ → SharedState → SharedState
unfolding erase
leave p s = record s { sessions = erase p s.sessions }

-- The sessions by number.
abbrev pub Store : Type 0
Store = ℕ → Session

abbrev pub update : ℕ → (Session → Session) → Store → Store
update p f store q = if p == q then f (store q) else store q

-- `for (auto const &wp : v) if (auto sp = wp.lock()) sp->send(ss);`, where `alive` says whose last
-- owner has not gone.
unfoldable pub send_each : (ℕ → Bool) → Str → List ℕ → Store → Store
send_each alive message [] store = store
send_each alive message (p ∷ v) store =
    let next = if alive p then update p (WebSocketSession.send message) store else store in
    send_each alive message v next

unfoldable pub send : (ℕ → Bool) → Str → SharedState → Store → Store
unfolding send_each
send alive message s store = send_each alive message s.sessions store
