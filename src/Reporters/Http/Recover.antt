-- ===== src/Reporters/Http/Recover.antt =====
-- `Recover` of reporter.go: the outermost handler. What it recovers from is a panic of the handler
-- behind it, with the response as the panic left it.
use health.Base.{String, Option, none, some, ◌≡◌, ℕ, refl, ◌≢◌}
use health.Reporters.Http.Middleware.{Handler, http_error}
use health.Reporters.Http.Writer.{Writer, write, write_header, set_header, fresh_writer}
use health.Reporters.Http.Probes.{Body, Request}
use health.Reporters.Http.Answers.{code_of}
use health.Base.Assoc.{Assoc}

-- A handler that may panic, with the text of the panic.
abbrev pub RiskyHandler : Type 0
RiskyHandler = Request → Writer Body → Writer Body × Option String

after_handler : Writer Body × Option String → Writer Body
after_handler (w, none) = w
after_handler (w, some r) = http_error "Service Unavailable" 503 w

unfoldable pub recover : RiskyHandler → Handler
unfolding after_handler
recover next rq w = after_handler (next rq w)

http_error-sent :
    (w : Writer Body)
    → (w.sent ≡ none → code_of (http_error "Service Unavailable" 503 w) ≡ 503)
      × ((s : ℕ × Assoc String String)
          → w.sent ≡ some s
          → (http_error "Service Unavailable" 503 w).sent ≡ some s)
unfolding http_error write write_header set_header
http_error-sent w = (λ e. rw e refl, λ s e. rw e refl)

-- `Recover` makes a handler that does not panic. Without a panic behind it, the answer is that of
-- the handler behind it. After a panic it is 503 if no status went out before, and else the status
-- and the headers that went out stay.
pub recover_lem :
    (next : RiskyHandler) (rq : Request) (w : Writer Body) (o : Option String)
    → next rq fresh_writer ≡ (w, o)
    → (o ≡ none → recover next rq fresh_writer ≡ w)
      × (o ≢ none → w.sent ≡ none → code_of (recover next rq fresh_writer) ≡ 503)
      × ((s : ℕ × Assoc String String)
          → o ≢ none
          → w.sent ≡ some s
          → (recover next rq fresh_writer).sent ≡ some s)
unfolding recover after_handler
recover_lem next rq w none e = (λ _. rw e refl, λ h. absurd (h refl), λ s h. absurd (h refl))
recover_lem next rq w (some r) e =
    let (fresh, kept) = http_error-sent w in
    (λ h. absurd (cc), λ _. rw e fresh, λ s _. rw e (kept s))
