-- ===== src/Network/WebSocketSession/Order.antt =====
-- src/Network/WebSocketSession.cc: the order in which messages leave a session.
use ccfolio.Common.{
  ℕ, suc, ◌+◌, ◌≤◌, ◌≡◌, refl, sym, ap, ◌∙◌, inl, inr, List, [], ◌∷◌, ◌++◌, true, none, some, arith,
  append_assoc, length, ltb, drop, Bool-cases, ◌||◌,
}
use ccfolio.Common.Text.{Str, text}
use ccfolio.External.Asio.{ErrorCode, is_aborted, is_closed}
use ccfolio.Network.WebSocketSession.{
  Session, fail, run, async_read, async_write, on_accept, on_read, send, write_front, on_send,
  on_write, History, Run, start, sends, sent_handler, accepted, read, written, write_failed,
}

-- The text under way is the front of the queue; after a failed write there is none.
pub data Writing : List Str → List Str → Type 0 where
  idle : Writing [] []
  front : (m : Str) (rest : List Str) → Writing (m ∷ rest) (m ∷ [])
  stuck : (m : Str) (rest : List Str) → Writing (m ∷ rest) []

pub record Ordered (h : History) (s : Session) : Type 0 where
  pub kept : h.delivered ++ s.queue ++ s.posted ≡ h.sent
  pub writing : Writing s.queue s.writes
  pub reading : s.accepts + s.reads ≤ 1

many : (n : ℕ) → ltb 1 (suc (suc n)) ≡ true
many n = ground arith

-- A handler that queues a text starts a write only if the queue was empty.
on_send-Writing :
    (m : Str) (s : Session) (q w : List Str)
    → Writing q w
    → let t = on_send m (record s { queue = q; writes = w }) in
      Writing t.queue t.writes × (t.queue ≡ q ++ m ∷ [])
unfolding on_send write_front async_write
on_send-Writing m s _ _ idle = (front m [], refl)
on_send-Writing m s _ _ (front x []) = (front x (m ∷ []), refl)
on_send-Writing m s _ _ (front x (y ∷ ys)) =
    rw (many (length (ys ++ m ∷ []))) (front x (y ∷ ys ++ m ∷ []), refl)
on_send-Writing m s _ _ (stuck x []) = (stuck x (m ∷ []), refl)
on_send-Writing m s _ _ (stuck x (y ∷ ys)) =
    rw (many (length (ys ++ m ∷ []))) (stuck x (y ∷ ys ++ m ∷ []), refl)

-- The end of a write starts that of the next text.
on_write-Writing :
    (s : Session) (q w : List Str) (m : Str) (rest : List Str)
    → Writing q w
    → w ≡ m ∷ rest
    → let t = on_write none (record s { queue = q; writes = rest }) in
      Writing t.queue t.writes × (q ≡ m ∷ t.queue)
unfolding on_write write_front async_write
on_write-Writing s _ _ m rest idle e = cc
on_write-Writing s _ _ m rest (front x q) e =
    let none_left : rest ≡ [] = cc in
    rw none_left ((after q).0, (ap (λ y. y ∷ q) cc) ∙ ap (λ l. m ∷ l) (sym (after q).1))
  where
    after :
        (l : List Str)
        → let t = write_front l (record s { queue = l; writes = [] }) in
          Writing t.queue t.writes × (t.queue ≡ l)
    after [] = (idle, refl)
    after (y ∷ l) = (front y l, refl)
on_write-Writing s _ _ m rest (stuck x q) e = cc

-- What starting a write does not change.
abbrev Frame : Session → Session → Type 0
Frame s t = (t.posted ≡ s.posted) × (t.accepts ≡ s.accepts) × (t.reads ≡ s.reads)

write_front-Frame : (l : List Str) (s : Session) → Frame s (write_front l s)
unfolding write_front async_write
write_front-Frame [] s = (refl, refl, refl)
write_front-Frame (x ∷ l) s = (refl, refl, refl)

on_send-Frame : (m : Str) (s : Session) → Frame s (on_send m s)
unfolding on_send
on_send-Frame m s = elim (Bool-cases (ltb 1 (length (s.queue ++ m ∷ [])))) [
  | inl e ↦ rw e (refl, refl, refl)
  | inr e ↦ rw e (write_front-Frame (s.queue ++ m ∷ []) (record s { queue = s.queue ++ m ∷ [] }))
]

on_write-Frame : (s : Session) → Frame s (on_write none s)
unfolding on_write
on_write-Frame s = write_front-Frame (drop 1 s.queue) (record s { queue = drop 1 s.queue })

-- A failed write leaves the queue as it is.
failed-Writing :
    (q w : List Str) (m : Str) (rest : List Str) → Writing q w → w ≡ m ∷ rest → Writing q rest
failed-Writing _ _ m rest idle e = cc
failed-Writing _ _ m rest (front x q) e = let none_left : rest ≡ [] = cc in rw none_left (stuck x q)
failed-Writing _ _ m rest (stuck x q) e = cc

-- A failure only writes to the log.
fail-Ordered :
    (h : History) (ec : ErrorCode) (what : Str) (s : Session)
    → Ordered h s
    → Ordered h (fail ec what s)
unfolding fail
fail-Ordered h ec what s o = elim (Bool-cases (is_aborted ec.kind || is_closed ec.kind)) [
  | inl e ↦ rw e o
  | inr e ↦ rw e (record { kept = o.kept; writing = o.writing; reading = o.reading })
]

-- A text that moves from the posted ones to the queue.
shift :
    (delivered queue : List Str) (m : Str) (rest : List Str)
    → delivered ++ (queue ++ m ∷ []) ++ rest ≡ delivered ++ queue ++ m ∷ rest
shift d q m rest =
    ap (λ l. l ++ rest) (sym (append_assoc d q (m ∷ []))) ∙ append_assoc (d ++ q) (m ∷ []) rest

-- Whatever the order in which the handlers run and whichever operations fail: what was delivered, the
-- queue and what is still posted make up what was sent, in that order, so texts are neither lost nor
-- swapped nor repeated; at most one write is under way, of the front of the queue; and at most one
-- accept or read is.
pub Run-Ordered : (h : History) (s : Session) → Run h s → Ordered h s
unfolding run send on_accept on_read on_write async_read
Run-Ordered _ _ start = record { kept = refl; writing = idle; reading = omega arith }
Run-Ordered _ _ (sends {h} {s} m r) =
    let o = Run-Ordered h s r in
    record {
      kept =
          sym (append_assoc (h.delivered ++ s.queue) s.posted (m ∷ []))
          ∙ ap (λ l. l ++ m ∷ []) o.kept;
      writing = o.writing;
      reading = o.reading;
    }
Run-Ordered _ _ (sent_handler {h} {s} m rest r e) =
    let o = Run-Ordered h s r in
    let (writing, queued) =
      on_send-Writing m (record s { posted = rest }) s.queue s.writes o.writing in
    let frame = on_send-Frame m (record s { posted = rest }) in
    record {
      kept =
          rw (queued, frame.0)
            (shift h.delivered s.queue m rest
              ∙ ap (λ l. h.delivered ++ s.queue ++ l) (sym e)
              ∙ o.kept);
      writing = writing;
      reading = rw (frame.1, frame.2) o.reading;
    }
Run-Ordered _ _ (accepted {h} {s} n none r e) =
    let o = Run-Ordered h s r in
    record { kept = o.kept; writing = o.writing; reading = omega (arith, o.reading, e) }
Run-Ordered _ _ (accepted {h} {s} n (some ec) r e) =
    let o = Run-Ordered h s r in
    fail-Ordered h ec (text "accept") _
      (record { kept = o.kept; writing = o.writing; reading = omega (arith, o.reading, e) })
Run-Ordered _ _ (read {h} {s} n none bytes r e) =
    let o = Run-Ordered h s r in
    record { kept = o.kept; writing = o.writing; reading = omega (arith, o.reading, e) }
Run-Ordered _ _ (read {h} {s} n (some ec) bytes r e) =
    let o = Run-Ordered h s r in
    fail-Ordered h ec (text "read") _
      (record { kept = o.kept; writing = o.writing; reading = omega (arith, o.reading, e) })
Run-Ordered _ _ (written {h} {s} m rest r e) =
    let o = Run-Ordered h s r in
    let (writing, erased) = on_write-Writing s s.queue s.writes m rest o.writing e in
    let frame = on_write-Frame (record s { writes = rest }) in
    record {
      kept = rw frame.0 (
          ap (λ l. l ++ s.posted)
            (append_assoc h.delivered (m ∷ []) _ ∙ ap (λ l. h.delivered ++ l) (sym erased))
          ∙ o.kept);
      writing = writing;
      reading = rw (frame.1, frame.2) o.reading;
    }
Run-Ordered _ _ (write_failed {h} {s} m rest ec r e) =
    let o = Run-Ordered h s r in
    fail-Ordered h ec (text "write") _ (record {
      kept = o.kept;
      writing = failed-Writing s.queue s.writes m rest o.writing e;
      reading = o.reading;
    })
