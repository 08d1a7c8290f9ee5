-- ===== src/Examples/Fetch.antt =====
-- A fetch from the HTTP reporter, and the drawing of what was found.
use mathlib.Core.List.{Memᴰ}
use health.Base.{String, List, ◌≡◌, ◌⊎◌, inl, inr, refl, some, [], ◌∷◌}
use health.Base.Int.{pos}
use health.Discovery.Fetch.{Net, fetch_manifest}
use health.Discovery.Fetch.Roundtrip.{Reaches, fetch-report_manifest, response_of}
use health.Discovery.Types.{Manifest, Node}
use health.Reporters.Http.State.{HttpReporter}
use health.Reporters.Http.Probes.{Body, encoded, manifest_of, report_manifest}
use health.Reporters.Http.Writer.{fresh_writer}
use health.SyncMap.{made}
use health.Errors.{concat, Error, sentinel}
use health.Text.Trim.{trim_right}
use health.Discovery.Render.Ids.{IsPlain}
use health.Base.Assoc.{Assoc}
use health.Discovery.Render.Edges.{shown_as, Contains, renderings_complete}
use health.Examples.Data.{result_of, plain_text}
use health.Discovery.Render.{sanitize_id, mermaid, dot}
use health.Check.{healthy}

abbrev shop : HttpReporter
shop = record {
  running = 1;
  live = 1;
  ready = 1;
  startup = 1;
  hc_cache = some [];
  hcs = made (("db", result_of "db" healthy) ∷ []);
  service_name = "shop";
  service_ver = "1";
  live_path = "/livez";
  ready_path = "/readyz";
  startup_path = "/healthz";
}

abbrev decoded : List Body → Error ⊎ Manifest
decoded (encoded m ∷ bs) = inr m
decoded _ = inl (sentinel "unexpected end of JSON input")

-- A network on which a reporter answers every request.
abbrev pub net_to : HttpReporter → Net Unit Unit String (List Body)
net_to r = record {
  client_of = λ d. tt;
  with_deadline = λ x d. x;
  new_request = λ x url. inr url;
  do_request = λ c q. inr (response_of (report_manifest plain_text (pos 9) r fresh_writer));
  decode = decoded;
  decimal = λ n. "503";
}

pub net_to-Reaches : (r : HttpReporter) → Reaches (net_to r) "http://shop" plain_text (pos 9) r
unfolding trim_right
net_to-Reaches r = record {
  trimmed = refl;
  request_for = λ x. "http://shop/.well-known/health";
  makes = λ x. refl;
  delivers = λ c x. refl;
  decodes = λ m e. refl;
}

fetch-report_manifest_example :
    fetch_manifest (net_to shop) tt "http://shop//" [] ≡ inr (manifest_of plain_text (pos 9) shop)
fetch-report_manifest_example =
    fetch-report_manifest (net_to shop) "http://shop" 2 plain_text (pos 9) shop tt []
      (net_to-Reaches shop)

abbrev shop_node : Node
shop_node = record {
  service = "shop";
  url = "http://shop";
  status = "pass";
  checks = [];
  dependencies = "http://pay" ∷ [];
}

abbrev drawn : Assoc String Node
drawn = ("http://shop", shop_node) ∷ []

renderings_complete_example :
    let from = sanitize_id "http://shop" in
    let to = sanitize_id "http://pay" in
    Contains (mermaid drawn) (
      concat "    "
        (concat from (concat "[\"" (concat (shown_as "http://shop" shop_node) "\"]\n"))))
    × Contains (mermaid drawn) (concat "    " (concat from (concat " --> " (concat to "\n"))))
    × Contains (dot drawn drawn) (
        concat "    " (
          concat from
            (concat " [label=\"" (concat (shown_as "http://shop" shop_node) "\", fillcolor=\""))))
    × Contains (dot drawn drawn) (concat "    " (concat from (concat " -> " (concat to ";\n"))))
    × IsPlain from
    × IsPlain to
renderings_complete_example =
    renderings_complete drawn drawn drawn "http://shop" shop_node "http://pay" (Memᴰ.head refl)
      (Memᴰ.head refl) (Memᴰ.head refl) (Memᴰ.head refl)
