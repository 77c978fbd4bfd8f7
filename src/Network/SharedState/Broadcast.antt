-- ===== src/Network/SharedState/Broadcast.antt =====
-- src/Network/SharedState.cc: who is in the set, and who gets a message.
use ccfolio.Common.{
  ℕ, ◌≡◌, refl, ap, ◌∙◌, sym, inl, inr, List, [], ◌∷◌, ◌++◌, Bool, true, false, ◌&&◌, ◌||◌, not,
  if◌then◌else◌, ◌==◌, arith, Bool-cases, ==_iff,
}
use ccfolio.Common.Text.{Str}
use ccfolio.Network.WebSocketSession
use ccfolio.Network.WebSocketSession.{Session}
use ccfolio.Network.SharedState.{
  SharedState, contains, insert, erase, join, leave, Store, send_each, send,
}

-- No pointer is twice in the set.
abbrev pub IsOnce : List ℕ → Type 0
IsOnce [] = Unit {0}
IsOnce (p ∷ l) = (contains l p ≡ false) × IsOnce l

contains-append : (l : List ℕ) (p q : ℕ) → contains (l ++ p ∷ []) q ≡ contains l q || (p == q)
unfolding contains
contains-append [] p q = ground arith
contains-append (r ∷ l) p q = ground (arith, contains-append l p q)

same_pointer : (l : List ℕ) (p q : ℕ) → (p == q) ≡ true → contains l p ≡ contains l q
same_pointer l p q e = ap (contains l) ((==_iff p q).0 e)

pub contains-insert : (l : List ℕ) (p q : ℕ) → contains (insert p l) q ≡ (contains l q || (p == q))
unfolding insert
contains-insert l p q = elim (Bool-cases (contains l p)) [
  | inl e ↦ rw e (ground (arith, same_pointer l p q, e))
  | inr e ↦ rw e (contains-append l p q)
]

append-IsOnce : (l : List ℕ) (p : ℕ) → IsOnce l → contains l p ≡ false → IsOnce (l ++ p ∷ [])
unfolding contains
append-IsOnce [] p h e = (refl, tt)
append-IsOnce (r ∷ l) p h e =
    (ground (arith, contains-append l p r, e, h.0), append-IsOnce l p h.1 (ground (arith, e)))

pub insert-IsOnce : (p : ℕ) (l : List ℕ) → IsOnce l → IsOnce (insert p l)
unfolding insert
insert-IsOnce p l h = elim (Bool-cases (contains l p)) [
  | inl e ↦ rw e h
  | inr e ↦ rw e (append-IsOnce l p h e)
]

pub contains-erase :
    (l : List ℕ) (p q : ℕ) → IsOnce l → contains (erase p l) q ≡ (contains l q && not (p == q))
unfolding contains erase
contains-erase [] p q h = refl
contains-erase (r ∷ l) p q h =
    let rest = contains-erase l p q h.1 in
    elim (Bool-cases (r == p)) [
      | inl e ↦ rw e (ground (arith, h.0, (==_iff r p).0 e, same_pointer l r q, rest))
      | inr e ↦ rw e (ground (arith, rest, e))
    ]

pub erase-IsOnce : (p : ℕ) (l : List ℕ) → IsOnce l → IsOnce (erase p l)
unfolding contains erase
erase-IsOnce p [] h = tt
erase-IsOnce p (r ∷ l) h = elim (Bool-cases (r == p)) [
  | inl e ↦ rw e h.1
  | inr e ↦ rw e (ground (arith, contains-erase l p r h.1, h.0), erase-IsOnce p l h.1)
]

pub send_each_lem :
    (alive : ℕ → Bool) (message : Str) (v : List ℕ) (store : Store) (q : ℕ)
    → IsOnce v
    → send_each alive message v store q
      ≡ (if contains v q && alive q then WebSocketSession.send message (store q) else store q)
unfolding send_each contains
send_each_lem alive message [] store q h = refl
send_each_lem alive message (p ∷ v) store q h =
    let rest = λ (s : Store). send_each_lem alive message v s q h.1 in
    elim (Bool-cases (p == q)) [
      | inl same ↦
          let equal = (==_iff p q).0 same in
          let gone = sym (same_pointer v p q same) ∙ h.0 in
          elim (Bool-cases (alive p)) [
            | inl live ↦
                let here = sym (ap alive equal) ∙ live in
                rw (live, same) (rest _ ∙ rw (gone, same, here))
            | inr dead ↦
                let here = sym (ap alive equal) ∙ dead in
                rw (dead, same) (rest store ∙ rw (gone, here))
          ]
      | inr other ↦ elim (Bool-cases (alive p)) [
        | inl live ↦ rw (live, other) (rest _ ∙ rw other)
        | inr dead ↦ rw (dead, other) (rest store)
      ]
    ]

-- In a set without repetitions: `join` adds one pointer and `leave` takes one out, both keep the
-- pointers distinct, and `send` posts the message once to each member whose owner is alive and touches
-- no other session.
pub send_lem :
    (alive : ℕ → Bool) (message : Str) (s : SharedState) (p q : ℕ) (store : Store)
    → IsOnce s.sessions
    → IsOnce (join p s).sessions
      × IsOnce (leave p s).sessions
      × (contains (join p s).sessions q ≡ (contains s.sessions q || (p == q)))
      × (contains (leave p s).sessions q ≡ (contains s.sessions q && not (p == q)))
      × (send alive message s store q ≡ (
          if contains s.sessions q && alive q
          then WebSocketSession.send message (store q)
          else store q))
unfolding join leave send
send_lem alive message s p q store h = (
  insert-IsOnce p s.sessions h,
  erase-IsOnce p s.sessions h,
  contains-insert s.sessions p q,
  contains-erase s.sessions p q h,
  send_each_lem alive message s.sessions store q h,
)
