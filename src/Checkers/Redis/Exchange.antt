-- ===== src/Checkers/Redis/Exchange.antt =====
-- When the checker calls a Redis server healthy.
use text.Mathlib.Text.{starts_with}
use health.Checkers.Redis.{
  Texts, Conn, after_write, after_read, auth_reply, ping_reply, request, ping, authenticate,
  then_ping, exchange, redis_check, ping_command, auth_command, unhealthy_result,
}
use health.Base.{
  String, ◌≡◌, ◌≤◌, Option, none, inr, some, ◌⊎◌, ◌↔◌, arith, refl, inl, true, ◌≢◌, Bool-cases, ap,
  ◌=?◌, Bool, eq_iff, subst, false, string_eq, Option-cases, sym,
}
use health.Errors.{Error}
use health.Base.Int.{ℤ, ◌-ℤ◌}
use health.Checkers.Reports.{IsReport, passing-IsReport}
use health.Checkers.{result_at}

module _ {S : Type 0} (texts : Texts) (conn : Conn S) where
  -- The command was written, and a line was read that the test accepts.
  abbrev pub Answered : String → (String → Type 0) → S → S → Type 0
  Answered command Good s s' =
      (s1 : S) × (line : String) × (conn.write command s ≡ (s1, none))
      × (conn.read_line s1 ≡ (s', inr line))
      × Good line

  abbrev pub AuthAccepted : String → Type 0
  AuthAccepted line = (3 ≤ texts.len line) × (starts_with line "+" ≡ true)

  abbrev pub Pong : String → Type 0
  Pong line = (5 ≤ texts.len line) × (starts_with line "+PONG" ≡ true)

  after_write-none :
      (what : String) (k : S → S × Option Error) (p : S × Option Error) (s' : S)
      → after_write what k p ≡ (s', none)
      → (s1 : S) × (p ≡ (s1, none)) × (k s1 ≡ (s', none))
  unfolding after_write
  after_write-none what k (s1, none) s' h = (s1, refl, h)
  after_write-none what k (s1, some e) s' h = absurd (ground arith)

  after_read-none :
      (what : String) (test : String → Option Error) (p : S × (Error ⊎ String)) (s' : S)
      → after_read what test p ≡ (s', none)
      → (line : String) × (p ≡ (s', inr line)) × (test line ≡ none)
  unfolding after_read
  after_read-none what test (s1, inr line) s' h = (line, ground arith, ground arith)
  after_read-none what test (s1, inl e) s' h = absurd (ground arith)

  auth_reply_iff : (line : String) → (auth_reply texts line ≡ none) ↔ AuthAccepted line
  unfolding auth_reply
  auth_reply_iff line = (λ h. (ground arith, ground arith), λ h. ground arith)

  ping_reply_iff : (line : String) → (ping_reply texts line ≡ none) ↔ Pong line
  unfolding ping_reply
  ping_reply_iff line = (λ h. (ground arith, ground arith), λ h. ground arith)

  request_iff :
      (writing reading command : String) (test : String → Option Error) (s s' : S)
      → (request texts conn writing reading command test s ≡ (s', none))
        ↔ Answered command (λ line. test line ≡ none) s s'
  unfolding request after_write after_read
  request_iff writing reading command test s s' = (
    λ h.
        let (s1, w, r) =
          after_write-none writing (λ t. after_read reading test (conn.read_line t))
            (conn.write command s) s' h in
        let (line, got, ok) = after_read-none reading test (conn.read_line s1) s' r in
        (s1, line, w, got, ok),
    λ a. let (s1, line, w, got, good) = a in rw (w, got, good),
  )

  ping_iff : (s : S) → ((ping texts conn s).1 ≡ none) ↔ ((s2 : S) × Answered ping_command Pong s s2)
  unfolding ping
  ping_iff s = (
    λ h.
        let done : ping texts conn s ≡ ((ping texts conn s).0, none) =
          ap {B = S × Option Error} (λ (o : Option Error). ((ping texts conn s).0, o)) h in
        let (s1, line, w, got, ok) =
          (request_iff "write PING: " "read PING response: " ping_command (ping_reply texts) s
              (ping texts conn s).0).0
            done in
        ((ping texts conn s).0, (s1, line, w, got, (ping_reply_iff line).0 ok)),
    λ a.
        let (s2, (s1, line, w, got, good)) = a in
        ap {B = Option Error} (λ (p : S × Option Error). p.1)
          ((request_iff "write PING: " "read PING response: " ping_command (ping_reply texts) s
              s2).1
            (s1, line, w, got, (ping_reply_iff line).1 good)),
  )

  authenticate_iff :
      (password : String) (s s' : S)
      → (authenticate texts conn password s ≡ (s', none))
        ↔ Answered (auth_command texts password) AuthAccepted s s'
  unfolding authenticate
  authenticate_iff password s s' =
      let (f, g) =
        request_iff "write AUTH: " "read AUTH response: " (auth_command texts password)
          (auth_reply texts) s s' in
      (
        λ h. let (s1, line, w, got, ok) = f h in (s1, line, w, got, (auth_reply_iff line).0 ok),
        λ a. let (s1, line, w, got, good) = a in g (s1, line, w, got, (auth_reply_iff line).1 good),
      )

  -- With no password, or after an accepted AUTH, the server answers PING with PONG.
  abbrev pub Serves : String → S → Type 0
  Serves password s =
      (s1 : S) × (((password ≡ "") × (s1 ≡ s))
        ⊎ ((password ≢ "") × Answered (auth_command texts password) AuthAccepted s s1))
      × ((s2 : S) × Answered ping_command Pong s1 s2)

  then_ping-none :
      (p : S × Option Error)
      → then_ping texts conn p ≡ none
      → (p ≡ (p.0, none)) × ((ping texts conn p.0).1 ≡ none)
  unfolding then_ping
  then_ping-none (s, none) h = (refl, h)
  then_ping-none (s, some e) h = absurd (ground arith)

  exchange_iff :
      (password : String) (s : S) → (exchange texts conn password s ≡ none) ↔ Serves password s
  unfolding exchange
  exchange_iff password s = elim (Bool-cases (password =? "")) [
    | inl empty ↦ rw empty (
      λ h. (s, inl ((eq_iff password "").0 empty, refl), (ping_iff s).0 h),
      λ a.
          let (s1, first, pong) = a in
          elim first [
            | inl (e, same) ↦
                (ping_iff s).1 (subst (λ x. (s2 : S) × Answered ping_command Pong x s2) same pong)
            | inr (ne, _) ↦ absurd (ne ((eq_iff password "").0 empty))
          ],
    )
    | inr given ↦ rw given (
      λ h.
          let (ok, pong) = then_ping-none (authenticate texts conn password s) h in
          let s1 = (authenticate texts conn password s).0 in
          (
            s1,
            inr (
              λ e. absurd (ground (arith, eq_iff password "")),
              (authenticate_iff password s s1).0 ok,
            ),
            (ping_iff s1).0 pong,
          ),
      λ a.
          let (s1, first, pong) = a in
          elim first [
            | inl (e, same) ↦ absurd (ground (arith, eq_iff password ""))
            | inr (ne, ok) ↦
                rw ((authenticate_iff password s s1).1 ok)
                  (unfold then_ping in (ping_iff s1).1 pong)
          ],
    )
  ]

  unhealthy_result-IsReport :
      (name : String) (e : Error) (start now : ℤ)
      → IsReport name start false (unhealthy_result name start now e)
  unfolding unhealthy_result result_at
  unhealthy_result-IsReport name e start now = record {
    named = refl;
    at_start = refl;
    judged = refl;
    explained = refl;
  }

  -- The result stands under the checker's name, from the instant of its start, and is healthy
  -- without an error exactly if the dial gave a connection over which AUTH, if there is a password,
  -- was answered by a line of three bytes at least that starts with "+", and then PING by a line
  -- that starts with "+PONG" and has five bytes at least. Else it is unhealthy with an error.
  pub redis_check-healthy_iff :
      (name addr password : String) (dial : Error ⊎ S) (start now : ℤ)
      → (ok : Bool) × IsReport name start ok
          (redis_check texts conn name addr password dial start now)
        × ((ok ≡ true) ↔ ((s : S) × (dial ≡ inr s) × Serves password s))
  unfolding redis_check
  redis_check-healthy_iff name addr password (inl e) start now = (
    false,
    unhealthy_result-IsReport name _ start now,
    (λ h. absurd (cc), λ a. absurd (let (s, d, _) = a in ground arith)),
  )
  redis_check-healthy_iff name addr password (inr s) start now =
      elim (Option-cases (exchange texts conn password s)) [
        | inl well ↦ (
          true,
          rw well (passing-IsReport name (now -ℤ start) start),
          (λ _. (s, refl, (exchange_iff password s).0 well), λ _. refl),
        )
        | inr ill ↦ (
          false,
          rw ill.1 (unhealthy_result-IsReport name ill.0 start now),
          (
            λ h. absurd (cc),
            λ a. absurd (
                let (s', d, ok) = a in
                ground (
                  arith,
                  (exchange_iff password s).1 (subst (Serves password) (sym (ground arith)) ok),
                )),
          ),
        )
      ]
