-- ===== src/Discovery/Fetch.antt =====
-- discovery/discover.go: the options, `FetchManifest`, and `DiscoverGraph` with its options. The
-- HTTP client, the context, the JSON decoder and the decimal text of a number (%d) are outside, and
-- so are parameters. That bodies are closed and contexts are cancelled is left out.
pub mod Results
pub mod Roundtrip
use health.Base.{String, Option, none, some, List, [], ◌∷◌, ℕ, ◌⊎◌, inl, inr, if◌then◌else◌, ◌==◌}
use health.Base.Int.{ℤ, pos}
use health.Errors.{Error, concat, wrapped, error_text, also, end}
use health.Discovery.Types.{Manifest, Graph}
use health.Discovery.Traverse.{Fetch, discover_graph}
use health.Text.Trim.{trim_right}

-- `http.Response`, with a body of type B.
pub record Response (B : Type 0) : Type 0 where
  pub status_code : ℕ
  pub body : B

-- Clients C, contexts X, requests Q and bodies B.
pub record Net (C X Q B : Type 0) : Type 0 where
  -- `&http.Client{Timeout: d}`.
  pub client_of : ℤ → C
  -- `context.WithTimeout`.
  pub with_deadline : X → ℤ → X
  -- `http.NewRequestWithContext` for a GET without a body.
  pub new_request : X → String → Error ⊎ Q
  -- `Do`.
  pub do_request : C → Q → Error ⊎ Response B
  -- `json.NewDecoder(…).Decode(&m)`.
  pub decode : B → Error ⊎ Manifest
  pub decimal : ℕ → String

abbrev pub well_known_path : String
well_known_path = "/.well-known/health"

-- In nanoseconds.
abbrev pub default_timeout : ℤ
default_timeout = pos 5000000000

abbrev pub default_max_depth : ℤ
default_max_depth = pos 10

-- A nil client is `none`.
pub record DiscoverConfig (C : Type 0) : Type 0 where
  pub client : Option C
  pub timeout : ℤ
  pub max_depth : ℤ

abbrev pub DiscoverOption : Type 0 → Type 0
DiscoverOption C = DiscoverConfig C → DiscoverConfig C

-- `if err != nil { return nil, fmt.Errorf(…) }`.
pub and_then : {A B : Type 0} → String → (A → Error ⊎ B) → Error ⊎ A → Error ⊎ B
and_then what k (inl e) = inl (wrapped (concat what (error_text e)) (also e end))
and_then what k (inr a) = k a

pub manifest_or_none : Error ⊎ Manifest → Option Manifest
manifest_or_none (inl e) = none
manifest_or_none (inr m) = some m

module _ {C : Type 0} where
  -- `&discoverConfig{timeout: DefaultTimeout}`.
  abbrev pub start_config : DiscoverConfig C
  start_config = record { client = none; timeout = default_timeout; max_depth = pos 0 }

  unfoldable pub with_client : Option C → DiscoverOption C
  with_client c cfg = record cfg { client = c }

  unfoldable pub with_timeout : ℤ → DiscoverOption C
  with_timeout d cfg = record cfg { timeout = d }

  unfoldable pub with_max_depth : ℤ → DiscoverOption C
  with_max_depth n cfg = record cfg { max_depth = n }

  -- The loop over the options.
  unfoldable pub configure : List (DiscoverOption C) → DiscoverConfig C → DiscoverConfig C
  configure [] cfg = cfg
  configure (o ∷ os) cfg = configure os (o cfg)

module _ {C X Q B : Type 0} (net : Net C X Q B) where
  -- `if cfg.client == nil`.
  pub client_or_new : Option C → ℤ → C
  client_or_new none timeout = net.client_of timeout
  client_or_new (some c) timeout = c

  unfoldable pub manifest_from : String → Response B → Error ⊎ Manifest
  unfolding and_then
  manifest_from url resp =
      if resp.status_code == 200
      then and_then (concat "decode " (concat url ": ")) (λ m. inr m) (net.decode resp.body)
      else inl (
          wrapped (concat "fetch " (concat url (concat ": status " (net.decimal resp.status_code))))
            end)

  -- What follows the options.
  unfoldable pub fetch_with : C → ℤ → X → String → Error ⊎ Manifest
  unfolding and_then manifest_from
  fetch_with client timeout ctx url =
      and_then "create request: "
        (λ req.
          and_then (concat "fetch " (concat url ": ")) (manifest_from url)
            (net.do_request client req))
        (net.new_request (net.with_deadline ctx timeout) url)

  unfoldable pub fetch_manifest : X → String → List (DiscoverOption C) → Error ⊎ Manifest
  unfolding client_or_new fetch_with configure trim_right
  fetch_manifest ctx base_url opts =
      let cfg = configure opts start_config in
      fetch_with (client_or_new cfg.client cfg.timeout) cfg.timeout ctx
        (concat (trim_right base_url 47) well_known_path)

  -- The call that the traversal makes for an address.
  unfoldable pub fetch_for : X → C → ℤ → Fetch
  unfolding fetch_manifest manifest_or_none with_client with_timeout
  fetch_for ctx client timeout url =
      manifest_or_none
        (fetch_manifest ctx url (with_client (some client) ∷ with_timeout timeout ∷ []))

  -- `DiscoverGraph` with its options, on fuel, at the instant `now`.
  unfoldable pub discover : ℕ → X → String → ℤ → List (DiscoverOption C) → Option Graph
  unfolding fetch_for client_or_new discover_graph configure
  discover fuel ctx root_url now opts =
      let cfg =
        configure opts
          (record { client = none; timeout = default_timeout; max_depth = default_max_depth }) in
      discover_graph (fetch_for ctx (client_or_new cfg.client cfg.timeout) cfg.timeout)
        cfg.max_depth fuel root_url now
