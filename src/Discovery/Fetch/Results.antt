-- ===== src/Discovery/Fetch/Results.antt =====
-- When a fetch gives a manifest, and which one.
use health.Discovery.Fetch.{Net, Response}
use health.Base.Int.{ℤ}
use health.Base.{none, Option, some, string_eq, String, ◌≡◌, inr}
use health.Discovery.Types.{Manifest}

abbrev pub given_or : {C : Type 0} → C → Option C → C
given_or fresh none = fresh
given_or fresh (some c) = c

module _ {C X Q B : Type 0} (net : Net C X Q B) where
  -- The request can be made, is answered with 200, and the answer decodes to the manifest.
  abbrev pub Answers : C → ℤ → X → String → Manifest → Type 0
  Answers client timeout ctx url m =
      (req : Q) × (net.new_request (net.with_deadline ctx timeout) url ≡ inr req)
      × ((resp : Response B) × (net.do_request client req ≡ inr resp)
          × ((resp.status_code ≡ 200) × (net.decode resp.body ≡ inr m)))
