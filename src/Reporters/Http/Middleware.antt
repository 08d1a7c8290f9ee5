-- ===== src/Reporters/Http/Middleware.antt =====
-- middleware.go, and the chain of middleware that newFromConfig of reporter.go builds. The base64
-- decoding of the authentication header is outside: a request carries what it gave.
pub mod Order
use health.Reporters.Http.Probes.{Body, Request, text}
use health.Base.{
  Bool, false, if◌then◌else◌, length, List, none, not, Option, some, String, string_eq, suc, zero,
  ℕ, [], ◌&&◌, ◌=?◌, ◌∷◌,
}
use health.Reporters.Http.Writer.{set_header, write, write_header, Writer}
use health.Errors.{concat}

-- An `http.Handler`: what it does with a request and a response.
abbrev pub Handler : Type 0
Handler = Request → Writer Body → Writer Body

abbrev pub Middleware : Type 0
Middleware = Handler → Handler

-- `http.Error`.
unfoldable pub http_error : String → ℕ → Writer Body → Writer Body
http_error message code w = write (text (concat message "\n")) (
    write_header code (
      set_header "X-Content-Type-Options" "nosniff"
        (set_header "Content-Type" "text/plain; charset=utf-8" w)))

-- Both comparisons in constant time, as equality of the texts.
unfoldable pub is_authorized : String → String → Option (String × String) → Bool
is_authorized username password none = false
is_authorized username password (some c) = c.0 =? username && c.1 =? password

unfoldable pub basic_auth : String → String → Middleware
unfolding is_authorized http_error
basic_auth username password next rq w =
    if not (is_authorized username password rq.auth)
    then http_error "Unauthorized" 401 (set_header "WWW-Authenticate" "Basic realm=\"health\"" w)
    else next rq w

-- `cfg.Middleware[i](handler)`.
unfoldable pub wrap_at : ℕ → List Middleware → Middleware
wrap_at i [] h = h
wrap_at zero (mw ∷ mws) h = mw h
wrap_at (suc i) (mw ∷ mws) h = wrap_at i mws h

-- The loop with `i` counting down to 0; the argument is `i + 1`.
unfoldable pub wrap_down : ℕ → List Middleware → Middleware
unfolding wrap_at
wrap_down zero mws h = h
wrap_down (suc i) mws h = wrap_down i mws (wrap_at i mws h)

unfoldable pub apply_middleware : List Middleware → Middleware
unfolding wrap_down
apply_middleware mws h = wrap_down (length mws) mws h
