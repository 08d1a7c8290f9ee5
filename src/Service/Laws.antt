-- ===== src/Service/Laws.antt =====
-- What holds of the promised service after any number of steps.
use health.Base.{
  arith, Bool-cases, eq_iff, inl, inr, none, Option, refl, some, String, string_eq, subst, true,
  false, [], ◌&&◌, ◌=?◌, ◌||◌, ◌∷◌, ◌≡◌,
}
use health.Base.Assoc.{Assoc}
use health.Check.{CheckResult}
use health.Manager.State.{Wrapper}
use health.Service.{
  all_heard, downs_live, downs_ready, hear, judge, none_downs_live, none_downs_ready, Service,
  update, revive, new_service, unless_heard, every, startup_passes,
}
use health.Service.Every.{every_mono}

all_heard-update :
    (hc : CheckResult) (latest : String → Option CheckResult) (l : Assoc String Wrapper)
    → all_heard l latest ≡ true
    → all_heard l (update hc latest) ≡ true
unfolding every
all_heard-update hc latest [] h = refl
all_heard-update hc latest ((k, w) ∷ l) h = ground (arith, all_heard-update hc latest l)

module _ (checks : Assoc String Wrapper) where
  -- One step: `Run`, its last lines, a report of which `Made` holds, a verdict without one, `Stop`.
  pub data Move (Made : CheckResult → Type 0) (s : Service) : Service → Type 0 where
    rest : Move Made s s
    start : Move Made s (record s { on = true })
    alive : Move Made s (revive checks s)
    heard : (hc : CheckResult) → Made hc → Move Made s (hear checks hc s)
    judged : Move Made s (judge checks s)
    halt : Move Made s (record s { on = false; ready = false })

  pub data Moves (Made : CheckResult → Type 0) (s : Service) : Service → Type 0 where
    here : Moves Made s s
    next : {t u : Service} → Moves Made s t → Move Made t u → Moves Made s u

  -- A service that is ready runs, is live and started, has heard every check, and no latest report
  -- speaks against readiness.
  pub record IsSound (Made : CheckResult → Type 0) (s : Service) : Type 0 where
    pub up : s.ready ≡ true → (s.on ≡ true) × (s.live ≡ true) × (s.started ≡ true)
    pub full : s.complete ≡ true → all_heard checks s.latest ≡ true
    pub fine : s.ready ≡ true → (s.complete ≡ true) × (none_downs_ready checks s.latest ≡ true)
    pub made :
        (name : String) (hc : CheckResult) → s.latest name ≡ some hc → (hc.name ≡ name) × Made hc

  downs_ready-of_live :
      (w : Wrapper) (o : Option CheckResult)
      → unless_heard downs_ready o ≡ true
      → unless_heard downs_live o ≡ true
  downs_ready-of_live w none h = refl
  downs_ready-of_live w (some hc) h = ground arith

  pub none_downs_live-of_ready :
      (latest : String → Option CheckResult)
      → none_downs_ready checks latest ≡ true
      → none_downs_live checks latest ≡ true
  none_downs_live-of_ready latest h =
      every_mono (λ w o. unless_heard downs_ready o) (λ w o. unless_heard downs_live o) latest
        checks downs_ready-of_live h

  module _ (Made : CheckResult → Type 0) where
    judge-IsSound : (s : Service) → IsSound Made s → IsSound Made (judge checks s)
    unfolding judge
    judge-IsSound s h = elim (Bool-cases (s.on && s.complete)) [
      | inr waits ↦ rw waits h
      | inl ran ↦ rw ran (elim (Bool-cases (s.started || startup_passes checks s.latest)) [
        | inr pending ↦ rw pending h
        | inl passed ↦ rw passed (record {
          up = λ e. (ground arith, none_downs_live-of_ready s.latest e, refl);
          full = h.full;
          fine = λ e. (ground arith, e);
          made = h.made;
        })
      ])
    ]

    made_update :
        (hc : CheckResult) (s : Service)
        → Made hc
        → IsSound Made s
        → (name : String) (o : CheckResult) → update hc s.latest name ≡ some o
        → (o.name ≡ name) × Made o
    made_update hc s k h name o p = elim (Bool-cases (hc.name =? name)) [
      | inl same ↦
          let e : hc ≡ o = ground arith in
          subst (λ (x : CheckResult). (x.name ≡ name) × Made x) e ((eq_iff hc.name name).0 same, k)
      | inr other ↦ h.made name o (ground arith)
    ]

    full_update :
        (hc : CheckResult) (s : Service)
        → IsSound Made s
        → (s.complete || all_heard checks (update hc s.latest)) ≡ true
        → all_heard checks (update hc s.latest) ≡ true
    full_update hc s h p = elim (Bool-cases s.complete) [
      | inl old ↦ all_heard-update hc s.latest checks (h.full old)
      | inr new ↦ ground arith
    ]

    hear-IsSound :
        (hc : CheckResult) (s : Service)
        → Made hc
        → IsSound Made s
        → IsSound Made (hear checks hc s)
    unfolding hear judge
    hear-IsSound hc s k h =
        let latest' = update hc s.latest in
        let complete' = s.complete || all_heard checks latest' in
        elim (Bool-cases (s.on && complete')) [
          | inr waits ↦ rw waits (record {
            up = λ e. absurd (ground (arith, h.up e, h.fine e));
            full = full_update hc s h;
            fine = λ e. absurd (ground (arith, h.up e, h.fine e));
            made = made_update hc s k h;
          })
          | inl ran ↦ rw ran (elim (Bool-cases (s.started || startup_passes checks latest')) [
            | inr pending ↦ rw pending (record {
              up = λ e. absurd (ground (arith, h.up e));
              full = full_update hc s h;
              fine = λ e. absurd (ground (arith, h.up e));
              made = made_update hc s k h;
            })
            | inl passed ↦ rw passed (record {
              up = λ e. (ground arith, none_downs_live-of_ready latest' e, refl);
              full = full_update hc s h;
              fine = λ e. (ground arith, e);
              made = made_update hc s k h;
            })
          ])
        ]

    Move-IsSound : {s t : Service} → Move Made s t → IsSound Made s → IsSound Made t
    unfolding revive
    Move-IsSound rest h = h
    Move-IsSound start h = record {
      up = λ e. (refl, (h.up e).1, (h.up e).2);
      full = h.full;
      fine = h.fine;
      made = h.made;
    }
    Move-IsSound alive h = record {
      up = λ e. ((h.up e).0, refl, rw ((h.up e).2) refl);
      full = h.full;
      fine = h.fine;
      made = h.made;
    }
    Move-IsSound {s} (heard hc k) h = hear-IsSound hc s k h
    Move-IsSound {s} judged h = judge-IsSound s h
    Move-IsSound halt h = record {
      up = λ e. absurd (cc);
      full = h.full;
      fine = λ e. absurd (cc);
      made = h.made;
    }

    pub Moves-IsSound : {s t : Service} → IsSound Made s → Moves Made s t → IsSound Made t
    Moves-IsSound h here = h
    Moves-IsSound h (next r st) = Move-IsSound st (Moves-IsSound h r)

    pub new_service-IsSound : IsSound Made new_service
    new_service-IsSound = record {
      up = λ e. absurd (cc);
      full = λ e. absurd (cc);
      fine = λ e. absurd (cc);
      made = λ name hc e. absurd (cc);
    }
