-- ===== src/Execution/Check/Verified.antt =====
-- What `check` of backend/app/execution_authorization.py has verified where it allows an execution.
use ai_trading_platform_mobi.Prelude.{
  ◌≡◌, refl, sym, ap, ◌∙◌, ◌⊎◌, inl, inr, true, false, not, Option, none, some, arith, Bool-cases,
  Option-cases, Result, ok, err, ◌>>=◌, raise_if, Ensures, Text, text_eq, text_eq_iff, lookup,
  Ensures-mono, Ensures-then, Ensures-ok, Ensures-guard, Ensures-got,
}
use ai_trading_platform_mobi.Safety.State.{AccountRecord, SafetyState, Outcome}
use ai_trading_platform_mobi.Execution.Check.{
  account_reconciliation, AuthorizationCode, taken, SessionAnswer, session_check, is_raised,
  Answers, RiskGate, Reads, joined, reconciled_fingerprint, check_account, check_safety,
  check_snapshots, check_risk, check,
}

Ensures-taken {ℓ κ ν} :
    {A : Type ℓ} {B : Type κ} (Q : B → Type ν) (o : Option A) (code : AuthorizationCode)
    (f : A → Result AuthorizationCode B)
    → ((a : A) → o ≡ some a → Ensures (f a) Q)
    → Ensures (taken o code >>= f) Q
Ensures-taken Q none code f k = tt
Ensures-taken Q (some a) code f k = k a refl

-- The fingerprint of the last reconciliation that the state has for the account of a request: of the
-- store without an account, otherwise of the account's record, and, where it has none, of the store if
-- that was reconciled for the account.
pub data IsReconciledAs (account : Option Text) (read : Outcome SafetyState)
    (fingerprint : Option Text) : Type 0 where
  of_store :
      {s : SafetyState}
      → account ≡ none
      → read ≡ ok s
      → s.broker_snapshot_fingerprint ≡ fingerprint
      → IsReconciledAs account read fingerprint
  of_record :
      {s : SafetyState} {a : Text} {r : AccountRecord}
      → account ≡ some a
      → read ≡ ok s
      → lookup a s.reconciliation_by_account ≡ some r
      → some r.broker_snapshot_fingerprint ≡ fingerprint
      → IsReconciledAs account read fingerprint
  of_last :
      {s : SafetyState} {a : Text}
      → account ≡ some a
      → read ≡ ok s
      → lookup a s.reconciliation_by_account ≡ none
      → s.reconciliation_account_id ≡ some a
      → s.broker_snapshot_fingerprint ≡ fingerprint
      → IsReconciledAs account read fingerprint

account_reconciliation-IsReconciledAs :
    (a : Text) (s : SafetyState) (f : Option Text)
    → account_reconciliation a s ≡ some f
    → IsReconciledAs (some a) (ok s) f
unfolding account_reconciliation
account_reconciliation-IsReconciledAs a s f h =
    elim (Option-cases (lookup a s.reconciliation_by_account)) [
      | inr (r, at) ↦
          IsReconciledAs.of_record refl refl at
            (ground (arith, rw (account_reconciliation, at) at h))
      | inl at ↦ elim (Option-cases s.reconciliation_account_id) [
        | inl nobody ↦ absurd (ground (arith, rw (account_reconciliation, at, nobody) at h))
        | inr (own, is_own) ↦ elim (Bool-cases (text_eq own a)) [
          | inl same ↦
              IsReconciledAs.of_last refl refl at (is_own ∙ ap some ((text_eq_iff own a).0 same))
                (ground (arith, rw (account_reconciliation, at, is_own, same) at h))
          | inr differs ↦
              absurd (ground (arith, rw (account_reconciliation, at, is_own, differs) at h))
        ]
      ]
    ]

reconciled_fingerprint-IsReconciledAs :
    (account : Option Text) (read : Outcome SafetyState) (f : Text)
    → reconciled_fingerprint account read ≡ ok f
    → IsReconciledAs account read (some f)
reconciled_fingerprint-IsReconciledAs account (err _) f h = absurd (ground arith)
reconciled_fingerprint-IsReconciledAs none (ok s) f h =
    elim (Option-cases s.broker_snapshot_fingerprint) [
      | inl e ↦ absurd (ground (arith, rw e at h))
      | inr (g, e) ↦ IsReconciledAs.of_store refl refl (e ∙ ap some (ground (arith, rw e at h)))
    ]
reconciled_fingerprint-IsReconciledAs (some a) (ok s) f h =
    account_reconciliation-IsReconciledAs a s (some f) (found (account_reconciliation a s) h)
  where
    found :
        (o : Option (Option Text))
        → taken (joined o) AuthorizationCode.reconciliation_context_unavailable ≡ ok f
        → o ≡ some (some f)
    found none k = absurd (ground arith)
    found (some none) k = absurd (ground arith)
    found (some (some g)) k = ground arith

-- Trading is not halted at the first read, and at the second read the account of the request, if it
-- has one, has been reconciled.
pub record IsRunning (account : Option Text) (reads : Reads) : Type 0 where
  pub state : SafetyState
  pub state_is : reads.halt ≡ ok state
  pub not_halted : state.trading_halted ≡ false
  pub account_known :
      (account ≡ none) ⊎ ((f : Option Text) × IsReconciledAs account reads.account f)

check_account-known :
    (account : Option Text) (read : Outcome SafetyState)
    → Ensures (check_account account read) (λ v.
      Ensures v (λ _. (account ≡ none) ⊎ ((f : Option Text) × IsReconciledAs account read f)))
check_account-known none read = inl refl
check_account-known (some a) (err _) = tt
check_account-known (some a) (ok s) = elim (Option-cases (account_reconciliation a s)) [
  | inl e ↦ rw e tt
  | inr (f, e) ↦ rw e (inr (f, account_reconciliation-IsReconciledAs a s f e))
]

check_safety-IsRunning :
    (account : Option Text) (reads : Reads)
    → Ensures (check_safety account reads) (λ v. Ensures v (λ _. IsRunning account reads))
unfolding check_safety
check_safety-IsRunning account reads =
    Ensures-got (λ v. Ensures v (λ _. IsRunning account reads)) reads.halt _
      (λ s at. elim (Bool-cases s.trading_halted) [
        | inl e ↦ rw e tt
        | inr e ↦ rw e (
            Ensures-mono (check_account account reads.account)
              (λ v known.
                Ensures-mono v
                  (λ _ k. record { state = s; state_is = at; not_halted = e; account_known = k })
                  known)
              (check_account-known account reads.account))
      ])

-- No session gate, or one that allows
abbrev pub IsInSession : Option SessionAnswer → Type 0
IsInSession session = (session ≡ none) ⊎ (session ≡ some (SessionAnswer.evaluated true))

session_check-IsInSession :
    (session : Option SessionAnswer) → session_check session ≡ ok tt → IsInSession session
session_check-IsInSession none h = inl refl
session_check-IsInSession (some SessionAnswer.clock_missing) h = absurd (ground arith)
session_check-IsInSession (some SessionAnswer.gate_raised) h = absurd (ground arith)
session_check-IsInSession (some (SessionAnswer.evaluated true)) h = inr refl
session_check-IsInSession (some (SessionAnswer.evaluated false)) h = absurd (ground arith)

module _ {Snapshot : Type 0} (snapshot_fingerprint : Snapshot → Option Text) where
  -- Two snapshots with the fingerprint that was reconciled, and both allowed
  pub record IsVerified (account : Option Text) (read : Outcome SafetyState) (p : Answers Snapshot)
      (authorized : Option Snapshot) : Type 0 where
    pub first : Snapshot
    pub second : Snapshot
    pub fingerprint : Text
    pub first_is : p.first_snapshot ≡ some first
    pub second_is : p.second_snapshot ≡ some second
    pub first_allowed : p.first_decision first ≡ some true
    pub second_allowed : p.second_decision second ≡ some true
    pub first_fingerprint : snapshot_fingerprint first ≡ some fingerprint
    pub second_fingerprint : snapshot_fingerprint second ≡ some fingerprint
    pub reconciled : IsReconciledAs account read (some fingerprint)
    pub authorized_is : authorized ≡ some second

  check_snapshots-IsVerified :
      (account : Option Text) (read : Outcome SafetyState) (p : Answers Snapshot)
      → Ensures (check_snapshots snapshot_fingerprint account read p) (IsVerified account read p)
  unfolding check_snapshots
  check_snapshots-IsVerified account read p =
      Ensures-taken (IsVerified account read p) p.first_snapshot _ _ (λ first at_first.
        Ensures-taken (IsVerified account read p) (p.first_decision first) _ _ (λ a decided.
          Ensures-guard (IsVerified account read p) (not a) _ _ (λ allowed.
            Ensures-taken (IsVerified account read p) p.second_snapshot _ _ (λ second at_second.
              Ensures-taken (IsVerified account read p) (snapshot_fingerprint first) _ _ (λ f at_f.
                Ensures-taken (IsVerified account read p) (snapshot_fingerprint second) _ _
                  (λ g at_g.
                    Ensures-guard (IsVerified account read p) (not (text_eq f g)) _ _ (λ same.
                      Ensures-got (IsVerified account read p) (reconciled_fingerprint account read)
                        _
                        (λ h at_h.
                          Ensures-guard (IsVerified account read p) (not (text_eq g h)) _ _
                            (λ still.
                              Ensures-taken (IsVerified account read p) (p.second_decision second) _
                                _
                                (λ c decided_again.
                                  Ensures-guard (IsVerified account read p) (not c) _ _ (λ again.
                                    record {
                                      first = first;
                                      second = second;
                                      fingerprint = g;
                                      first_is = at_first;
                                      second_is = at_second;
                                      first_allowed = decided ∙ ap some (ground arith);
                                      second_allowed = decided_again ∙ ap some (ground arith);
                                      first_fingerprint =
                                          at_f ∙ ap some ((text_eq_iff f g).0 (ground arith));
                                      second_fingerprint = at_g;
                                      reconciled =
                                          reconciled_fingerprint-IsReconciledAs account read g (
                                            at_h
                                            ∙ ap ok (sym ((text_eq_iff g h).0 (ground arith))));
                                      authorized_is = refl;
                                    })))))))))))

  -- What holds of a check that allows
  pub record IsAllowed (account : Option Text) (reads : Reads) (session : Option SessionAnswer)
      (gate : RiskGate Snapshot) (authorized : Option Snapshot) : Type 0 where
    pub is_running : IsRunning account reads
    pub in_session : IsInSession session
    pub answers : Answers Snapshot
    pub answers_are : gate.provider ≡ some answers
    pub verified : IsVerified account reads.fingerprint answers authorized

  check-Ensures :
      (account : Option Text) (reads : Reads) (session : Option SessionAnswer)
      (gate : RiskGate Snapshot)
      → Ensures
          (check snapshot_fingerprint account reads session (some gate))
          (λ v. Ensures v (IsAllowed account reads session gate))
  unfolding check check_risk
  check-Ensures account reads session gate =
      Ensures-got (λ v. Ensures v (IsAllowed account reads session gate))
        (check_safety account reads) _
        (λ safety at. Ensures-got (IsAllowed account reads session gate) safety _ (λ u passed.
          Ensures-got (IsAllowed account reads session gate) (session_check session) _
            (λ v session_passes.
              Ensures-then (IsAllowed account reads session gate)
                (raise_if (is_raised gate.binding) _) _
                (λ _.
                  Ensures-taken (IsAllowed account reads session gate) gate.provider _ _ (λ p at_p.
                    Ensures-mono (check_snapshots snapshot_fingerprint account reads.fingerprint p)
                      (λ r verified. record {
                        is_running =
                            Ensures-ok (λ _. IsRunning account reads) safety
                              (Ensures-ok (λ v. Ensures v (λ _. IsRunning account reads))
                                (check_safety account reads) (check_safety-IsRunning account reads)
                                at)
                              passed;
                        in_session = session_check-IsInSession session session_passes;
                        answers = p;
                        answers_are = at_p;
                        verified = verified;
                      })
                      (check_snapshots-IsVerified account reads.fingerprint p))))))

  -- A check with a risk gate allows only where trading is not halted, the account of the request has
  -- been reconciled, the session gate is missing or allows, the risk gate allows two snapshots, and
  -- both have the fingerprint that was reconciled for the account. It authorizes the second one.
  pub check-IsAllowed :
      (account : Option Text) (reads : Reads) (session : Option SessionAnswer)
      (gate : RiskGate Snapshot) (authorized : Option Snapshot)
      → check snapshot_fingerprint account reads session (some gate) ≡ ok (ok authorized)
      → IsAllowed account reads session gate authorized
  check-IsAllowed account reads session gate authorized allowed =
      Ensures-ok (λ v. Ensures v (IsAllowed account reads session gate))
        (check snapshot_fingerprint account reads session (some gate))
        (check-Ensures account reads session gate) allowed
