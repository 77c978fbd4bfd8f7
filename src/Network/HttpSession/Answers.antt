-- ===== src/Network/HttpSession/Answers.antt =====
-- src/Network/HttpSession.cc: which response answers which request of a connection.
use ccfolio.Common.{
  ◌≤◌, ◌≡◌, refl, sym, ap, subst, ◌∙◌, ◌⊎◌, inl, inr, List, [], ◌∷◌, ◌++◌, arith, length,
  append-nil, Bool-cases,
}
use ccfolio.Common.Text.{text}
use ccfolio.Common.Effect.{ok}
use ccfolio.External.World.{World}
use ccfolio.External.Asio.{is_end_of_stream}
use ccfolio.External.Beast.{Beast}
use ccfolio.Http.{HttpRequest, HttpResponse, empty_response}
use ccfolio.Router.{Routes}
use ccfolio.App.{handle_request}
use ccfolio.Network.HttpSession.{
  Operation, reading, writing, Connection, do_read, run, send_response, on_request, on_read,
  on_write, Talk, Run, start, elsewhere, read_failed, upgraded, requested, written, write_failed,
}
use ccfolio.Network.HttpSession.Turns.{fail-session}

-- The response that is being written, or that was lost when its write failed.
abbrev pub Pending : List Operation → List HttpResponse → Type 0
Pending operations pending =
    ((operations ≡ reading ∷ []) × (pending ≡ []))
    ⊎ ((res : HttpResponse) × (operations ≡ writing res ∷ []) × (pending ≡ res ∷ []))
    ⊎ ((operations ≡ []) × (length pending ≤ 1))

while_reading :
    {operations : List Operation} {pending : List HttpResponse} (rest : List Operation)
    → operations ≡ reading ∷ rest
    → Pending operations pending
    → (rest ≡ []) × (pending ≡ [])
while_reading rest e (inl (o, p)) = (cc, p)
while_reading rest e (inr (inl (res, o, p))) = cc
while_reading rest e (inr (inr (o, p))) = cc

while_writing :
    {operations : List Operation} {pending : List HttpResponse} (rest : List Operation)
    (res : HttpResponse)
    → operations ≡ writing res ∷ rest
    → Pending operations pending
    → (rest ≡ []) × (pending ≡ res ∷ [])
while_writing rest res e (inl (o, p)) = cc
while_writing rest res e (inr (inl (other, o, p))) = (cc, cc)
while_writing rest res e (inr (inr (o, p))) = cc

module _ {D : Type 0} (beast : Beast) (router : Routes D) where
  -- Responses that answer requests one by one, in order: each is what `handle_request` makes of its
  -- request in the world of that moment.
  pub data Answers : List HttpRequest → List HttpResponse → Type 0 where
    nothing : Answers [] []
    next :
        {asked : List HttpRequest} {answered : List HttpResponse} (req : HttpRequest) (w : World D)
        → Answers asked answered
        → (handle_request router req (w, empty_response)).0 ≡ ok tt
        → Answers
            (asked ++ req ∷ [])
            (answered ++ (handle_request router req (w, empty_response)).1.1 ∷ [])

  abbrev Held : Talk → List Operation → Type 0
  Held t operations =
      (pending : List HttpResponse) × Answers t.asked (t.answered ++ pending)
      × Pending operations pending

  -- Nothing is under way and nothing is pending.
  idle :
      (t : Talk) (operations : List Operation) (pending : List HttpResponse)
      → Answers t.asked (t.answered ++ pending)
      → length pending ≤ 1
      → operations ≡ []
      → Held t operations
  idle t operations pending answers few over = (pending, answers, inr (inr (over, few)))

  -- Over any run of a connection, with reads and writes that fail in any way and with whatever other
  -- connections do in between: the responses that were written, followed by at most one that is being
  -- written or was lost, answer the requests that were read one by one and in order, each by the
  -- response that `handle_request` makes of its request. While a response is under way no other
  -- operation is.
  pub Run-Answers :
      (t : Talk) (c : Connection D)
      → Run beast router t c
      → (pending : List HttpResponse) × Answers t.asked (t.answered ++ pending)
        × Pending c.1.operations pending
  unfolding run do_read on_read on_write on_request send_response
  Run-Answers _ _ (start w) = ([], nothing, inl (refl, refl))
  Run-Answers _ _ (elsewhere {t} {w} {s} w' r) = Run-Answers t (w, s) r
  Run-Answers _ _ (read_failed {t} {w} {s} rest ec r e) =
      let (pending, answers, state) = Run-Answers t (w, s) r in
      let (last, empty) = while_reading rest e state in
      let few : length pending ≤ 1 = rw empty (omega arith) in
      elim (Bool-cases (is_end_of_stream ec.kind)) [
        | inl over ↦ rw over (idle t rest pending answers few last)
        | inr failed ↦ rw failed (
            rw (fail-session ec (text "read") (w, record s { operations = rest }))
              (idle t rest pending answers few last))
      ]
  Run-Answers _ _ (upgraded {t} {w} {s} rest req r e up) =
      let (pending, answers, state) = Run-Answers t (w, s) r in
      let (last, empty) = while_reading rest e state in
      rw up (idle t rest pending answers (rw empty (omega arith)) last)
  Run-Answers _ _ (requested {t} {w} {s} rest req r e plain returned) =
      let (pending, answers, state) = Run-Answers t (w, s) r in
      let (last, empty) = while_reading rest e state in
      let before : Answers t.asked t.answered =
        subst (Answers t.asked) (ap (λ l. t.answered ++ l) empty ∙ append-nil t.answered) answers in
      let res = (handle_request router req (w, empty_response)).1.1 in
      rw (plain, returned)
        (
          res ∷ [],
          next req w before returned,
          inr (inl (res, ap (λ l. l ++ writing res ∷ []) last, refl)),
        )
  Run-Answers _ _ (written {t} {w} {s} rest res r e) =
      let (pending, answers, state) = Run-Answers t (w, s) r in
      let (last, sent) = while_writing rest res e state in
      let after : Answers t.asked ((t.answered ++ res ∷ []) ++ []) =
        subst (Answers t.asked)
          (ap (λ l. t.answered ++ l) sent ∙ sym (append-nil (t.answered ++ res ∷ []))) answers in
      elim (Bool-cases (beast.need_eof res)) [
        | inl close ↦ rw close (idle _ rest [] after (omega arith) last)
        | inr again ↦ rw again ([], after, inl (ap (λ l. l ++ reading ∷ []) last, refl))
      ]
  Run-Answers _ _ (write_failed {t} {w} {s} rest res ec r e) =
      let (pending, answers, state) = Run-Answers t (w, s) r in
      let (last, sent) = while_writing rest res e state in
      rw (fail-session ec (text "write") (w, record s { operations = rest }))
        (idle t rest pending answers (rw sent (omega arith)) last)
