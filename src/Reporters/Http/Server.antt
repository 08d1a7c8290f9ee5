-- ===== src/Reporters/Http/Server.antt =====
-- The router and the handler of the server that newFromConfig of reporter.go builds. The router
-- (`http.ServeMux`) and the time limit (`http.TimeoutHandler`) of net/http are arguments.
pub mod Served
use health.Base.{
  All, Option, ◌≤◌, Bool, false, if◌then◌else◌, List, none, some, String, true, ℕ, [], ◌&&◌, ◌*◌,
  ◌==◌, ◌||◌, ◌∷◌, ◌≡◌, string_eq,
}
use Prim.Native.Char.{code}
use health.Base.Assoc.{Assoc, IsDistinct, lookup}
use health.Base.Int.{pos, ℤ}
use health.Errors.{concat}
use health.Reporters.Http.Answers.{code_of}
use health.Reporters.Http.Checks.{report_individual_check}
use health.Reporters.Http.Config.{ConfigOption, new}
use health.Reporters.Http.Middleware.{Handler}
use health.Reporters.Http.Probes.{
  report_liveness, report_manifest, report_readiness, report_startup, Request,
}
use health.Reporters.Http.Recover.{recover, RiskyHandler}
use health.Reporters.Http.State.{HttpReporter, TimeText}
use health.Reporters.Http.Writer.{fresh_writer}

-- The patterns and handlers that are registered with the router, in the order of the calls. `now`
-- is the instant at which a request is handled, and `r` the reporter at that instant.
unfoldable pub routes : TimeText → ℤ → HttpReporter → Assoc String Handler
routes tt' now r =
    (r.live_path, λ rq. report_liveness rq r)
    ∷ (r.ready_path, λ rq. report_readiness rq r)
    ∷ (r.startup_path, λ rq. report_startup rq r)
    ∷ (concat r.live_path "/", λ rq. report_individual_check rq r)
    ∷ (concat r.ready_path "/", λ rq. report_individual_check rq r)
    ∷ (concat r.startup_path "/", λ rq. report_individual_check rq r)
    ∷ ("/.well-known/health", λ rq. report_manifest tt' now r)
    ∷ []

-- The router that is made of a table, and the handler with a time limit.
pub record ServerLibrary : Type 0 where
  pub mux : Assoc String Handler → Handler
  pub timeout_handler : Handler → ℤ → String → Handler

-- No handler behind `Recover` panics.
abbrev pub calm : Handler → RiskyHandler
calm h rq w = (h rq w, none)

-- The handler of the server of a reporter that `New` made with the options `os`.
unfoldable pub server_handler :
    ServerLibrary → List ConfigOption → TimeText → ℤ → HttpReporter → Handler
unfolding routes
server_handler lib os tt' now r =
    let limited =
      lib.timeout_handler (lib.mux (routes tt' now r)) (pos 60000000000) "the request timed out" in
    recover (calm (new os limited).1)

-- Where the next character of a path stands: at the start, behind a slash, behind a slash and a
-- dot, or elsewhere.
pub data Place : Type 0 where
  start : Place
  behind_slash : Place
  behind_dot : Place
  inside : Place

-- The characters that have a meaning of their own in a pattern: blanks, braces and percent signs.
has_meaning : ℕ → Bool
has_meaning c = c == 9 || c == 32 || c == 37 || c == 123 || c == 125

next_place : Place → ℕ → Option Place
unfolding has_meaning
next_place start c = if c == 47 then some behind_slash else none
next_place behind_slash c =
    if c == 47 || has_meaning c then none else if c == 46 then some behind_dot else some inside
next_place behind_dot c = if c == 47 || c == 46 || has_meaning c then none else some inside
next_place inside c =
    if has_meaning c then none else if c == 47 then some behind_slash else some inside

is_literal : Option Place → String → Bool
unfolding next_place
is_literal none s = false
is_literal (some start) String.[] = false
is_literal (some behind_slash) String.[] = true
is_literal (some behind_dot) String.[] = false
is_literal (some inside) String.[] = true
is_literal (some p) (String.◌∷◌ c s) = is_literal (next_place p (code c)) s

-- A path that the router takes as it stands: it starts with a slash, and has no blank, no brace, no
-- percent sign, no empty segment but the last, and no segment that is a dot or starts with two.
unfoldable pub is_plain : String → Bool
unfolding is_literal
is_plain s = is_literal (some start) s

-- A table that the router accepts: distinct patterns, all of them plain.
abbrev pub IsTable : Assoc String Handler → Type 0
IsTable t = IsDistinct t × All (λ p. is_plain p.0 ≡ true) t

-- What net/http documents: a plain pattern that is the path of the request is preferred to all
-- others, and the handler with a time limit calls the one behind it and relays its answer unless
-- the limit passes. `Unescaped` says of a request that its path was sent without escapes, and
-- `InTime` of a handler and a request that the limit does not pass.
pub record IsServerLibrary (lib : ServerLibrary) (Unescaped : Request → Type 0)
    (InTime : Handler → Request → Type 0) : Type 0 where
  pub exact :
      (t : Assoc String Handler) (rq : Request) (h : Handler)
      → IsTable t
      → Unescaped rq
      → lookup rq.path t ≡ some h
      → lib.mux t rq fresh_writer ≡ h rq fresh_writer
  pub relays :
      (h : Handler) (limit : ℤ) (message : String) (rq : Request)
      → InTime h rq
      → 200 ≤ code_of (h rq fresh_writer)
      → code_of (lib.timeout_handler h limit message rq fresh_writer) ≡ code_of (h rq fresh_writer)
