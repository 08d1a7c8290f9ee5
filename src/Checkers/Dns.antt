-- ===== src/Checkers/Dns.antt =====
-- checker/dns/checker.go: the checker, its options and its constructor. The resolver is outside.
use health.Base.{apply_all, String, Option, none, some, List}
use health.Base.Int.{ℤ, pos}
use health.Check.{CheckResult}
use health.Checkers.{Lookup, dns_check}

pub record DnsChecker (V : Type 0) : Type 0 where
  pub name : String
  pub hostname : String
  pub resolver : Option V
  pub timeout : ℤ

-- `net.DefaultResolver`, and a lookup within a time limit.
pub record Names (V : Type 0) : Type 0 where
  pub default_resolver : V
  pub lookup_host : Option V → ℤ → String → Lookup

abbrev pub default_timeout : ℤ
default_timeout = pos 5000000000

abbrev pub DnsOption : Type 0 → Type 0
DnsOption V = DnsChecker V → DnsChecker V

module _ {V : Type 0} where
  unfoldable pub with_timeout : ℤ → DnsOption V
  with_timeout d c = record c { timeout = d }

  unfoldable pub with_resolver : Option V → DnsOption V
  with_resolver r c = record c { resolver = r }

module _ {V : Type 0} (names : Names V) where
  resolver_or_default : Option V → Option V
  resolver_or_default none = some names.default_resolver
  resolver_or_default (some r) = some r

  unfoldable pub new_checker : String → String → List (DnsOption V) → DnsChecker V
  unfolding resolver_or_default
  new_checker name hostname opts =
      let c =
        apply_all opts (record {
          name = name;
          hostname = hostname;
          resolver = none;
          timeout = default_timeout;
        }) in
      record c { resolver = resolver_or_default c.resolver }

  unfoldable pub check : DnsChecker V → ℤ → ℤ → CheckResult
  check c start now =
      dns_check c.name c.hostname (names.lookup_host c.resolver c.timeout c.hostname) start now
