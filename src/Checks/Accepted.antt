-- ===== src/Checks/Accepted.antt =====
-- internal/checks/http.go and internal/hub/monitor.go: which answers count as a success of a monitor.
use whatsupp.Base.{
  ℕ, ◌<◌, ◌≡◌, ◌⊎◌, ◌↔◌, refl, sym, subst, ◌∙◌, String, Bool, true, false, List, [], ◌∷◌, arith,
  ◌==◌, str_eq, Bool-cases, inl, inr,
}
use whatsupp.Monitor.{MonitorState, CheckResult, record_result}
use whatsupp.Checks.{
  Outcome, failed, answered, HttpChecker, HttpResponse, timeout_of, contains_code, is_up_code,
  check_http,
}

abbrev pub Among : ℕ → List ℕ → Type 0
Among code [] = ⊥
Among code (c ∷ cs) = (code ≡ c) ⊎ Among code cs

-- The code is among the accepted ones, or there are none of these and it is no server error.
abbrev pub Accepts : List ℕ → ℕ → Type 0
Accepts codes code = ((codes ≡ []) × (code < 500)) ⊎ Among code codes

contains_code-Among : (code : ℕ) (cs : List ℕ) → (contains_code code cs ≡ true) ↔ Among code cs
contains_code-Among code [] = ((λ e. cc), λ h. absurd h)
contains_code-Among code (c ∷ cs) =
    let (to, from) = contains_code-Among code cs in
    (
      λ e. elim (Bool-cases (code == c)) [
        | inl here ↦ inl (ground (arith, here))
        | inr other ↦ inr (to (rw other at e))
      ],
      λ h. elim h [ inl here ↦ ground (arith, here) | inr there ↦ ground (arith, from there) ],
    )

is_up_code-Accepts :
    (codes : List ℕ) (code : ℕ) → (is_up_code codes code ≡ true) ↔ Accepts codes code
unfolding is_up_code
is_up_code-Accepts [] code = (
  λ e. inl (refl, ground (arith, e)),
  λ h. elim h [ inl none_given ↦ ground (arith, none_given.1) | inr there ↦ absurd there ],
)
is_up_code-Accepts (c ∷ cs) code =
    let (to, from) = contains_code-Among code (c ∷ cs) in
    (
      λ e. inr (to e),
      λ h. elim h [
        | inl none_given ↦ absurd (ground (arith, none_given.0))
        | inr there ↦ from there
      ],
    )

Outcome-cases :
    {A : Type 0} (o : Outcome A) → ((e : String) × (o ≡ failed e)) ⊎ ((a : A) × (o ≡ answered a))
Outcome-cases (failed e) = inl (e, refl)
Outcome-cases (answered a) = inr (a, refl)

record_result-failures :
    (ms : MonitorState) (r : CheckResult)
    → ((record_result ms r).0.consecutive_failures ≡ 0) ↔ (str_eq r.status "up" ≡ true)
unfolding record_result
record_result-failures ms r = elim (Bool-cases (str_eq r.status "up")) [
  | inl good ↦ ((λ e. good), λ e. ground (arith, good))
  | inr bad ↦ ((λ e. absurd (ground (arith, bad, e))), λ e. absurd (cc (sym bad ∙ e)))
]

-- The result of an HTTP check leaves its monitor without failures exactly if the request was answered
-- with a status code among the accepted ones, or, where none are given, with one below 500.
pub check_http_lem :
    (http_error : ℕ → String) (c : HttpChecker) (get : String → Bool → ℕ → Outcome HttpResponse)
    (latency : ℕ) (ms : MonitorState)
    → ((record_result ms (check_http http_error c get latency ms.name)).0.consecutive_failures ≡ 0)
      ↔ ((resp : HttpResponse) × (get c.url c.insecure_skip_verify (timeout_of c.timeout)
            ≡ answered resp)
          × Accepts c.accepted_codes resp.status_code)
unfolding check_http
check_http_lem http_error c get latency ms =
    let r = check_http http_error c get latency ms.name in
    let (to, from) = record_result-failures ms r in
    elim (Outcome-cases (get c.url c.insecure_skip_verify (timeout_of c.timeout))) [
      | inl (e, lost) ↦
          let is_down : str_eq r.status "up" ≡ false = rw (lost, check_http) refl in
          (
            (λ h. absurd (cc (sym (to h) ∙ is_down))),
            λ (resp, got, ok). absurd (ground (arith, lost, got)),
          )
      | inr (resp, got) ↦
          let up = is_up_code c.accepted_codes resp.status_code in
          let status : str_eq r.status "up" ≡ up =
            rw (got, check_http) (elim (Bool-cases up) [ inl y ↦ rw y refl | inr n ↦ rw n refl ]) in
          let (accepted, is_up) = is_up_code-Accepts c.accepted_codes resp.status_code in
          (
            λ h. (resp, got, accepted (sym status ∙ to h)),
            λ (other, got', ok).
                let same : resp ≡ other = cc (sym got ∙ got') in
                from (
                  status
                  ∙ is_up (subst (λ x. Accepts c.accepted_codes x.status_code) (sym same) ok)),
          )
    ]
