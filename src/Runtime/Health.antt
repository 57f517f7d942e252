-- ===== src/Runtime/Health.antt =====
-- runtime/src/lib.rs: health statuses, checks and reports.
use composable_rust.Prelude.{
  ℕ, ◌≤◌, ◌≡◌, refl, sym, ◌∙◌, ◌⊎◌, inl, inr, Bool, true, false, String, Option, none, some, List,
  [], ◌∷◌, ◌++◌, map, arith, All,
}
use mathlib.Core.List.{foldl}

pub data HealthStatus : Type 0 where
  healthy degraded unhealthy : HealthStatus

-- The derived order: `Healthy < Degraded < Unhealthy`.
abbrev pub severity : HealthStatus → ℕ
severity healthy = 0
severity degraded = 1
severity unhealthy = 2

abbrev pub is_healthy : HealthStatus → Bool
is_healthy healthy = true
is_healthy _ = false

unfoldable pub worst : HealthStatus → HealthStatus → HealthStatus
worst unhealthy _ = unhealthy
worst _ unhealthy = unhealthy
worst degraded _ = degraded
worst _ degraded = degraded
worst _ _ = healthy

pub record HealthCheck : Type 0 where
  pub component : String
  pub status : HealthStatus
  pub message : Option String
  pub metadata : List (String × String)

unfoldable pub healthy_check : String → HealthCheck
healthy_check component = record {
  component = component;
  status = healthy;
  message = none;
  metadata = [];
}

unfoldable pub degraded_check : String → String → HealthCheck
degraded_check component message = record {
  component = component;
  status = degraded;
  message = some message;
  metadata = [];
}

unfoldable pub unhealthy_check : String → String → HealthCheck
unhealthy_check component message = record {
  component = component;
  status = unhealthy;
  message = some message;
  metadata = [];
}

unfoldable pub with_metadata : HealthCheck → String → String → HealthCheck
with_metadata c key value = record c { metadata = c.metadata ++ (key, value) ∷ [] }

pub record HealthReport : Type 0 where
  pub status : HealthStatus
  pub checks : List HealthCheck
  pub timestamp : ℕ

-- `HealthReport::new`; the time is an argument.
unfoldable pub new_report : List HealthCheck → ℕ → HealthReport
unfolding worst
new_report checks now = record {
  status = foldl worst healthy (map (λ c. HealthCheck.status c) checks);
  checks = checks;
  timestamp = now;
}

severity-worst :
    (a b : HealthStatus)
    → (severity a ≤ severity (worst a b))
      × (severity b ≤ severity (worst a b))
      × ((worst a b ≡ a) ⊎ (worst a b ≡ b))
unfolding worst
severity-worst a b = ground arith

-- Some element of the list satisfies the predicate.
abbrev pub Any {ℓ} : {A : Type ℓ} → (A → Type 0) → List A → Type 0
Any P [] = ⊥
Any P (x ∷ xs) = P x ⊎ Any P xs

-- The fold from `acc`: an upper bound that is `acc` or one of the list.
foldl-worst :
    (acc : HealthStatus) (cs : List HealthCheck)
    → let result = foldl worst acc (map (λ c. HealthCheck.status c) cs) in
      (severity acc ≤ severity result)
      × All (λ c. severity c.status ≤ severity result) cs
      × ((result ≡ acc) ⊎ Any (λ c. c.status ≡ result) cs)
foldl-worst acc [] = (omega arith, tt, inl refl)
foldl-worst acc (c ∷ cs) =
    let (above_acc, above_rest, reached) = foldl-worst (worst acc c.status) cs in
    let (left, right, one) = severity-worst acc c.status in
    (
      omega (arith, above_acc, left),
      (omega (arith, above_acc, right), above_rest),
      elim reached [
        | inl e ↦ elim one [ inl p ↦ inl (e ∙ p) | inr q ↦ inr (inl (sym (e ∙ q))) ]
        | inr any ↦ inr (inr any)
      ],
    )

-- A report is as severe as its worst check: no check is more severe than it, and it is healthy or
-- some check has its status.
pub new_report-worst :
    (checks : List HealthCheck) (now : ℕ)
    → let r = new_report checks now in
      All (λ c. severity c.status ≤ severity r.status) checks
      × ((r.status ≡ healthy) ⊎ Any (λ c. c.status ≡ r.status) checks)
unfolding new_report
new_report-worst checks now =
    let (_, above, reached) = foldl-worst healthy checks in (above, reached)
