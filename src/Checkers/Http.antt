-- ===== src/Checkers/Http.antt =====
-- checker/http/checker.go: the checker, its options and its constructor. The client is outside: a
-- request with a client, a deadline, a method and an address has an answer.
use health.Base.{apply_all, String, ℕ, Option, none, some, List}
use health.Base.Int.{ℤ, pos}
use health.Checkers.{Response, http_check}
use health.Options.{Outcome, panicked, returned}

-- A nil client is `none`.
pub record HttpChecker (C : Type 0) : Type 0 where
  pub name : String
  pub url : String
  pub client : Option C
  pub timeout : ℤ
  pub expected_status : ℕ
  pub method : String

-- `&http.Client{Timeout: d}`, a request, and the decimal text of a number (%d).
pub record Web (C : Type 0) : Type 0 where
  pub client_of : ℤ → C
  pub ask : C → ℤ → String → String → Response
  pub decimal : ℕ → String

abbrev pub default_timeout : ℤ
default_timeout = pos 5000000000

abbrev pub HttpOption : Type 0 → Type 0
HttpOption C = HttpChecker C → HttpChecker C

module _ {C : Type 0} where
  unfoldable pub with_timeout : ℤ → HttpOption C
  with_timeout d c = record c { timeout = d }

  unfoldable pub with_expected_status : ℕ → HttpOption C
  with_expected_status code c = record c { expected_status = code }

  unfoldable pub with_method : String → HttpOption C
  with_method method c = record c { method = method }

  unfoldable pub with_client : Option C → HttpOption C
  with_client client c = record c { client = client }

  abbrev pub default_checker : String → String → HttpChecker C
  default_checker name url = record {
    name = name;
    url = url;
    client = none;
    timeout = default_timeout;
    expected_status = 200;
    method = "GET";
  }

module _ {C : Type 0} (web : Web C) where
  unfoldable pub client_or_new : Option C → ℤ → Option C
  client_or_new none timeout = some (web.client_of timeout)
  client_or_new (some client) timeout = some client

  unfoldable pub new_checker : String → String → List (HttpOption C) → HttpChecker C
  unfolding client_or_new
  new_checker name url opts =
      let c = apply_all opts (default_checker name url) in
      record c { client = client_or_new c.client c.timeout }

  unfoldable pub check_with : Option C → HttpChecker C → ℤ → ℤ → Outcome
  check_with none c start now = panicked "invalid memory address or nil pointer dereference"
  check_with (some client) c start now = returned (
      some (
        http_check web.decimal c.name c.expected_status (web.ask client c.timeout c.method c.url)
          start now))

  -- `Check`; a nil client panics.
  unfoldable pub check : HttpChecker C → ℤ → ℤ → Outcome
  unfolding check_with
  check c start now = check_with c.client c start now
