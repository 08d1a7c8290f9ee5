-- ===== src/Discovery/Types.antt =====
-- discovery/manifest.go.
use health.Base.{Bool, List, String}
use health.Base.Assoc.{Assoc}
use health.Base.Int.{ℤ}

pub record CheckEntry : Type 0 where
  pub name : String
  pub status : String
  pub group : String
  pub component_type : String
  pub affects_liveness : Bool
  pub affects_readiness : Bool
  pub affects_startup : Bool
  pub depends_on : List String
  pub duration : String
  pub last_check : String
  pub error : String

pub record Manifest : Type 0 where
  pub service : String
  pub version : String
  pub status : String
  pub checks : List CheckEntry
  pub timestamp : ℤ

pub record Node : Type 0 where
  pub service : String
  pub url : String
  pub status : String
  pub checks : List CheckEntry
  pub dependencies : List String

pub record Graph : Type 0 where
  pub root : String
  pub nodes : Assoc String Node
  pub timestamp : ℤ
