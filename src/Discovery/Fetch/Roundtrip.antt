-- ===== src/Discovery/Fetch/Roundtrip.antt =====
-- A manifest from the HTTP reporter that serves it to the client that fetches it.
use health.Discovery.Fetch.{
  Net, Response, and_then, manifest_from, fetch_with, fetch_manifest, well_known_path,
  DiscoverOption, configure, start_config, client_or_new,
}
use health.Base.Int.{ℤ}
use health.Errors.{concat, wrapped, end}
use health.Reporters.Http.Writer.{Writer, write, write_header, set_header, fresh_writer}
use health.Base.{List, String, ◌≡◌, inr, ℕ, if◌then◌else◌, ◌∷◌, ◌==◌, [], inl, Bool-cases, refl}
use health.Reporters.Http.Probes.{Body, report_manifest, report_not_running, manifest_of, encoded}
use health.Reporters.Http.Answers.{code_of}
use health.Reporters.Http.State.{TimeText, HttpReporter}
use health.Text.Trim.{trim_right, slashes, trim_right-concat}
use health.Discovery.Types.{Manifest}

-- The response that a handler leaves behind.
abbrev pub response_of : Writer Body → Response (List Body)
response_of w = record { status_code = code_of w; body = w.body }

module _ {C X Q : Type 0} (net : Net C X Q (List Body)) where
  -- The network takes a request for the well-known path under the address to the handler of the
  -- reporter, and takes the answer back; JSON gives back what it was made from.
  pub record Reaches (base : String) (tt' : TimeText) (now : ℤ) (r : HttpReporter) : Type 0 where
    pub trimmed : trim_right base 47 ≡ base
    pub request_for : X → Q
    pub makes :
        (ctx : X) → net.new_request ctx (concat base well_known_path) ≡ inr (request_for ctx)
    pub delivers :
        (client : C) (ctx : X)
        → net.do_request client (request_for ctx)
          ≡ inr (response_of (report_manifest tt' now r fresh_writer))
    pub decodes : (m : Manifest) → m.timestamp ≡ now → net.decode (encoded m ∷ []) ≡ inr m

  manifest_from_handler :
      (url : String) (tt' : TimeText) (now : ℤ) (r : HttpReporter)
      → net.decode (encoded (manifest_of tt' now r) ∷ []) ≡ inr (manifest_of tt' now r)
      → manifest_from net url (response_of (report_manifest tt' now r fresh_writer)) ≡ (
          if r.running == 0
          then inl
              (wrapped (concat "fetch " (concat url (concat ": status " (net.decimal 503)))) end)
          else inr (manifest_of tt' now r))
  unfolding manifest_from and_then report_manifest report_not_running write write_header set_header
      manifest_of
  manifest_from_handler url tt' now r e = elim (Bool-cases (r.running == 0)) [
    | inl off ↦ rw off refl
    | inr on ↦ rw (on, e) refl
  ]

  -- A fetch from an address, with any number of slashes after it, where a reporter is reached whose
  -- manifests JSON gives back, returns the manifest that this reporter makes of its state, with
  -- any client, timeout and context. While the reporter does not run, it returns the error for
  -- status 503.
  pub fetch-report_manifest :
      (base : String) (n : ℕ) (tt' : TimeText) (now : ℤ) (r : HttpReporter) (ctx : X)
      (opts : List (DiscoverOption C))
      → Reaches base tt' now r
      → fetch_manifest net ctx (concat base (slashes n)) opts ≡ (
          if r.running == 0
          then inl (
              wrapped
                (concat "fetch "
                  (concat (concat base well_known_path) (concat ": status " (net.decimal 503))))
                end)
          else inr (manifest_of tt' now r))
  unfolding fetch_manifest fetch_with and_then manifest_of
  fetch-report_manifest base n tt' now r ctx opts h =
      let cfg = configure opts start_config in
      let client = client_or_new net cfg.client cfg.timeout in
      let x = net.with_deadline ctx cfg.timeout in
      rw (trim_right-concat base n, h.trimmed, h.makes x, h.delivers client x)
        (manifest_from_handler (concat base well_known_path) tt' now r
          (h.decodes (manifest_of tt' now r) refl))
