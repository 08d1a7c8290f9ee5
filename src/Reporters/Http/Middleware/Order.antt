-- ===== src/Reporters/Http/Middleware/Order.antt =====
-- The chain of middleware, and who passes basic authentication.
use health.Base.{
  ap, arith, Bool-cases, eq_iff, inl, inr, length, List, none, Option, refl, some, String,
  string_eq, suc, true, zero, ℕ, =?_refl, [], ◌∙◌, ◌∷◌, ◌≡◌, ◌≢◌,
}
use health.Reporters.Http.Middleware.{
  apply_middleware, basic_auth, Handler, http_error, is_authorized, Middleware, wrap_at, wrap_down,
}
use health.Reporters.Http.Probes.{Body, Request}
use health.Reporters.Http.Writer.{fresh_writer, set_header, write, write_header, Writer}
use health.Reporters.Http.Answers.{code_of, headers_of}
use health.Base.Assoc.{insert, lookup}

-- The first of a list is the outermost.
abbrev outermost_first : List Middleware → Middleware
outermost_first [] h = h
outermost_first (mw ∷ mws) h = mw (outermost_first mws h)

wrap_down-cons :
    (n : ℕ) (mw : Middleware) (mws : List Middleware) (h : Handler)
    → wrap_down (suc n) (mw ∷ mws) h ≡ mw (wrap_down n mws h)
unfolding wrap_down wrap_at
wrap_down-cons zero mw mws h = refl
wrap_down-cons (suc n) mw mws h = wrap_down-cons n mw mws (wrap_at n mws h)

apply_middleware-cons :
    (mw : Middleware) (mws : List Middleware) (h : Handler)
    → apply_middleware (mw ∷ mws) h ≡ mw (apply_middleware mws h)
unfolding apply_middleware
apply_middleware-cons mw mws h = wrap_down-cons (length mws) mw mws h

-- The loop from the last middleware to the first gives a handler in which each middleware of the
-- list has all later ones and the inner handler behind it.
apply_middleware_order :
    (mws : List Middleware) (h : Handler) → apply_middleware mws h ≡ outermost_first mws h
unfolding apply_middleware wrap_down
apply_middleware_order [] h = refl
apply_middleware_order (mw ∷ mws) h =
    apply_middleware-cons mw mws h ∙ ap mw (apply_middleware_order mws h)

is_authorized_accepts : (u p : String) → is_authorized u p (some (u, p)) ≡ true
unfolding is_authorized
is_authorized_accepts u p = ground (arith, =?_refl u, =?_refl p)

is_authorized_only :
    (u p : String) (o : Option (String × String)) → is_authorized u p o ≡ true → o ≡ some (u, p)
unfolding is_authorized
is_authorized_only u p none h = absurd (cc)
is_authorized_only u p (some c) h = ground (arith, eq_iff c.0 u, eq_iff c.1 p)

basic_auth-accepts :
    (u p : String) (h : Handler) (rq : Request) (w : Writer Body)
    → rq.auth ≡ some (u, p)
    → basic_auth u p h rq w ≡ h rq w
unfolding basic_auth
basic_auth-accepts u p h rq w e = rw (e, is_authorized_accepts u p)

basic_auth-refuses :
    (u p : String) (h : Handler) (rq : Request)
    → rq.auth ≢ some (u, p)
    → (code_of (basic_auth u p h rq fresh_writer) ≡ 401)
      × (lookup "WWW-Authenticate" (headers_of (basic_auth u p h rq fresh_writer))
          ≡ some "Basic realm=\"health\"")
unfolding basic_auth http_error write write_header set_header lookup insert
basic_auth-refuses u p h rq ne = elim (Bool-cases (is_authorized u p rq.auth)) [
  | inl valid ↦ absurd (ne (is_authorized_only u p rq.auth valid))
  | inr wrong ↦ rw wrong (refl, refl)
]

-- With `BasicAuth` in front of a chain, a request with the right name and password gets what the
-- rest of the chain answers, whatever that is; any other request gets 401 and a challenge, whatever
-- the rest of the chain would do.
pub apply_middleware-basic_auth :
    (username password : String) (mws : List Middleware) (h : Handler) (rq : Request)
    → (rq.auth ≡ some (username, password)
        → apply_middleware (basic_auth username password ∷ mws) h rq fresh_writer
          ≡ apply_middleware mws h rq fresh_writer)
      × (rq.auth ≢ some (username, password)
          → (code_of (apply_middleware (basic_auth username password ∷ mws) h rq fresh_writer)
              ≡ 401)
            × (lookup "WWW-Authenticate" (
                  headers_of
                    (apply_middleware (basic_auth username password ∷ mws) h rq fresh_writer))
                ≡ some "Basic realm=\"health\""))
apply_middleware-basic_auth username password mws h rq =
    let rest = apply_middleware mws h in
    let front = apply_middleware-cons (basic_auth username password) mws h in
    (
      λ e. rw (front, basic_auth-accepts username password rest rq fresh_writer e),
      λ ne. rw front (basic_auth-refuses username password rest rq ne),
    )
