-- ===== src/Examples/Programs.antt =====
-- The services of e2e/cmd in a world where everything answers.
use health.Base.{false, inr, none, refl, String, string_eq, [], ◌∷◌, List, arith, inl}
use health.Base.Int.{pos}
use health.Checkers.{answered, found}
use health.Checkers.Redis.{Conn, ping_command}
use health.Programs.{World}
use health.Programs.Cascade.{Answers200, gateway-cascade, WasReady}
use health.Programs.Ready.{PostgresDialled, RedisAnswered}
use health.Programs.Services.{gateway, orders, payments}
use health.Programs.Serving.{GetsReady, services-GetsReady}
use health.Programs.Works.{Works}
use health.Reporters.Http.Middleware.{Handler}
use health.Reporters.Http.Probes.{Request}
use health.Reporters.Http.State.{HttpReporter, TimeText}
use health.System.Setup.{Registration}

abbrev pong_conn : Conn String
pong_conn = record { write = λ text s. (text, none); read_line = λ s. (s, inr "+PONG\r\n") }

abbrev good_world : World String String String
good_world = record {
  end_of = λ now. now;
  client_of = λ d. "client";
  ask = λ now client d method url. answered 200;
  decimal = λ n. "200";
  names = λ now. record {
    default_resolver = "resolver";
    lookup_host = λ r d host. found ("10.0.0.1" ∷ []);
  };
  dial = λ now d addr. none;
  texts = record { len = λ s. 7; decimal = λ n. "7" };
  conn = pong_conn;
  dial_redis = λ now d addr. inr "";
}

good_world-Works : Works good_world
good_world-Works = record {
  postgres = (pos 0, refl);
  redis = (
    pos 0,
    "",
    refl,
    (
      "",
      inl (refl, refl),
      (ping_command, (ping_command, "+PONG\r\n", refl, refl, (omega arith, refl))),
    ),
  );
  payments_api = (pos 0, refl);
  orders_api = (pos 0, refl);
  dns_at = pos 0;
  address = "10.0.0.1";
  addresses = [];
  resolved = refl;
}

abbrev no_router : Handler
no_router rq w = w

abbrev plain_text : TimeText
plain_text = record { rfc3339 = λ t. ""; duration_text = λ d. "" }

services-GetsReady_example :
    GetsReady plain_text none (payments good_world no_router)
    × GetsReady plain_text none (orders good_world no_router)
    × GetsReady plain_text none (gateway good_world no_router)
services-GetsReady_example =
    services-GetsReady good_world no_router plain_text none good_world-Works

all_ready :
    GetsReady plain_text none (payments good_world no_router)
    × GetsReady plain_text none (orders good_world no_router)
    × GetsReady plain_text none (gateway good_world no_router)
all_ready = services-GetsReady good_world no_router plain_text none good_world-Works

abbrev plain_request : Request
plain_request = record { path = "/readyz"; verbose = false; exclude = []; auth = none }

GetsReady-Answers200 :
    (xs : List (Registration HttpReporter))
    → GetsReady plain_text none xs
    → Answers200 plain_text none none xs
GetsReady-Answers200 xs (_, s, reach, up, (r, p, ok)) = record {
  state = s;
  reached = reach;
  name = "http";
  reporter = r;
  there = p;
  request = plain_request;
  plain = refl;
  ok = ok plain_request refl;
}

gateway-cascade_example :
    WasReady plain_text none none (orders good_world no_router)
    × WasReady plain_text none none (payments good_world no_router)
    × PostgresDialled good_world
    × RedisAnswered good_world
gateway-cascade_example =
    gateway-cascade plain_text none none good_world no_router no_router no_router all_ready.2.1
      (λ now e. GetsReady-Answers200 (payments good_world no_router) all_ready.0)
      (λ now e. GetsReady-Answers200 (orders good_world no_router) all_ready.1) all_ready.2.2
      all_ready.2.3.1
