-- ===== src/Checkers/Setup.antt =====
-- The checkers as their constructors make them, with any options.
use health.Checkers.{Call, command_check, http_check}
use health.Checkers.Reports.{call_ok, checks_IsReport, db_ok, IsReport, lookup_ok, response_ok}
use health.Checkers.Http.{
  client_or_new, check_with, default_checker, HttpChecker, HttpOption, new_checker, Web,
}
use health.Checkers.Dns.{DnsChecker, Names}
use health.Checkers.Tcp.{TcpChecker}
use health.Checkers.Db.{CtxPinger, DbChecker}
use health.Base.Int.{ℤ}
use health.Errors.{Error}
use health.Options.{returned}
use health.Base.{String, List, Option, ◌≡◌, is_none, some, apply_all, none, refl}
use health.Check.{CheckResult}

module _ {C : Type 0} (web : Web C) where
  -- The constructor leaves no nil client.
  pub has_client :
      (o : Option C) (timeout : ℤ) → (client : C) × (client_or_new web o timeout ≡ some client)
  unfolding client_or_new
  has_client none timeout = (web.client_of timeout, refl)
  has_client (some client) timeout = (client, refl)

  -- What `Check` of an HTTP checker gives that has a client.
  abbrev pub GivesReport : HttpChecker C → C → ℤ → ℤ → Type 0
  GivesReport h client start now =
      (hc : CheckResult) × (h.client ≡ some client)
      × (health.Checkers.Http.check web h start now ≡ returned (some hc))
      × IsReport h.name start
          (response_ok h.expected_status (web.ask client h.timeout h.method h.url)) hc

  with_client-GivesReport :
      (h : HttpChecker C) (client : C) (start now : ℤ)
      → h.client ≡ some client
      → IsReport h.name start
          (response_ok h.expected_status (web.ask client h.timeout h.method h.url))
          (http_check web.decimal h.name h.expected_status
            (web.ask client h.timeout h.method h.url)
            start
            now)
      → GivesReport h client start now
  unfolding health.Checkers.Http.check check_with
  with_client-GivesReport h client start now e r = (
    http_check web.decimal h.name h.expected_status (web.ask client h.timeout h.method h.url) start
        now,
    e,
    rw e refl,
    r,
  )

-- The checks of any command, TCP, DNS and database checkers, and of an HTTP checker that its
-- constructor makes with any options, whatever the outside world answers: each gives a result under
-- the checker's name from the instant of its start, healthy without an error exactly where the
-- command, the dial, the lookup with an address, the ping of a live context's pinger, and the
-- answer with the expected code succeeded, and else unhealthy with an error. The outside world is
-- asked with the checker's own settings, and the HTTP checker has a client, so that its check does
-- not panic.
pub new_checkers-IsReport :
    {C V : Type 0} (web : Web C) (names : Names V) (dial : ℤ → String → Option Error) (c : Call)
    (t : TcpChecker) (d : DnsChecker V) (b : DbChecker) (name url : String)
    (opts : List (HttpOption C)) (ctx : Option Error) (start now end_at : ℤ)
    → IsReport name start (call_ok c) (command_check name c start now)
      × IsReport t.name start
          (is_none (dial t.timeout t.addr))
          (health.Checkers.Tcp.check dial t start now)
      × IsReport d.name start
          (lookup_ok (names.lookup_host d.resolver d.timeout d.hostname))
          (health.Checkers.Dns.check names d start now)
      × IsReport b.name start
          (db_ok ctx (mathlib.Core.Option.map (λ ping. ping b.timeout) b.pinger))
          (health.Checkers.Db.check b ctx start now end_at)
      × ((client : C) × GivesReport web (new_checker web name url opts) client start now)
unfolding health.Checkers.Tcp.check health.Checkers.Dns.check health.Checkers.Db.check new_checker
new_checkers-IsReport web names dial c t d b name url opts ctx start now end_at =
    let h = new_checker web name url opts in
    let made = apply_all opts (default_checker name url) in
    let (client, e) = has_client web made.client made.timeout in
    let ping = mathlib.Core.Option.map (λ (ping : CtxPinger). ping b.timeout) b.pinger in
    let r = web.ask client h.timeout h.method h.url in
    let found = names.lookup_host d.resolver d.timeout d.hostname in
    let report = λ (n a : String).
      checks_IsReport n a c (dial t.timeout t.addr) found web.decimal h.expected_status r ctx ping
        start now end_at in
    (
      (report name "").0,
      (report t.name t.addr).1,
      (report d.name d.hostname).2,
      (report b.name "").4,
      (client, with_client-GivesReport web h client start now e (report h.name "").3),
    )
