-- ===== src/Logging/Macro.antt =====
-- The macro `LOG` of src/Utility/LogService.h on a text that a client may have sent: the entry is
-- printed as JSON before it is queued, and that throws where the text is not UTF-8.
use ccfolio.Common.{◌≡◌, refl, ◌⊎◌, inl, inr}
use ccfolio.Common.Text.{Str, text}
use ccfolio.Common.Effect.{Exception, json_error, what, M, ◌>>=◌, Outcome, ok, throw}
use ccfolio.Logging.{LogLevel, error}
use ccfolio.External.World.{World}
use ccfolio.External.World as Queue
use ccfolio.External.Json.{JsonLib, or_json_error}

Sum-cases : (s : Str ⊎ Str) → ((a : Str) × (s ≡ inl a)) ⊎ ((b : Str) × (s ≡ inr b))
Sum-cases (inl a) = inl (a, refl)
Sum-cases (inr b) = inr (b, refl)

module _ (json : JsonLib) where
  -- `logJson`; its other members are texts of the source, of the clock and numbers.
  abbrev pub log_json : Str → json.Json
  log_json message = json.assign json.null (text "message") (json.of_string message)

  unfoldable pub log : {D : Type 0} → LogLevel → Str → M (World D) (Unit {0})
  log level message = do
    printed ← or_json_error (json.dump (log_json message))
    Queue.log level message

  -- `LOG(LogService::LogLevel::ERROR, e.what())`
  abbrev pub log_error : {D : Type 0} → Exception → M (World D) (Unit {0})
  log_error e = log error (what e)

  -- An exception that the printing of an entry has thrown.
  abbrev pub Unprinted : {A : Type 0} → Outcome A → Type 0
  Unprinted o =
      (m message : Str) × (o ≡ throw (json_error m)) × (json.dump (log_json message) ≡ inl m)

  abbrev pub Returned : Outcome (Unit {0}) → Type 0
  Returned o = (o ≡ ok tt) ⊎ Unprinted o

  -- The entry is queued, or its printing throws and the world stays as it is.
  pub log-cases :
      {D : Type 0} (level : LogLevel) (message : Str) (w : World D)
      → ((body : Str) × (json.dump (log_json message) ≡ inr body)
          × (log level message w ≡ Queue.log level message w))
        ⊎ ((m : Str) × (json.dump (log_json message) ≡ inl m)
            × (log level message w ≡ (throw (json_error m), w)))
  unfolding log
  log-cases level message w = elim (Sum-cases (json.dump (log_json message))) [
    | inl (m, e) ↦ inr (m, e, rw e refl)
    | inr (body, e) ↦ inl (body, e, rw e refl)
  ]

  pub log-Returned :
      {D : Type 0} (level : LogLevel) (message : Str) (w : World D)
      → Returned (log level message w).0
  log-Returned level message w = elim (log-cases level message w) [
    | inl (_, _, e) ↦ rw e (inl refl)
    | inr (m, p, e) ↦ rw e (inr (m, message, refl, p))
  ]
