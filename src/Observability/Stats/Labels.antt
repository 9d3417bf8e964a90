-- ===== src/Observability/Stats/Labels.antt =====
-- The status labels of the request counter, as they are written and as the summary reads them.
use x_beacon.Prelude.{
  ℕ, ◌+◌, ◌≡◌, refl, ◌∙◌, Bool, true, false, ◌&&◌, not, List, [], ◌∷◌, String, ltb, leb, ◌==◌,
  if◌then◌else◌, count_if, if-cases, arith,
}
use x_beacon.Prelude.Maps.{contains}
use x_beacon.Observability.Metrics.{
  Metrics, no_metrics, client_label, server_label, status_label, observe_request,
}
use x_beacon.Observability.Stats.{label_value, is_4xx, is_5xx}

-- what a label is counted as
abbrev pub Counted : Bool → Bool → String → Type 0
Counted client server label = (is_4xx label ≡ client) × (is_5xx label ≡ server)

client_label-Counted : (s : ℕ) → Counted true false (client_label s)
unfolding client_label is_4xx is_5xx contains
client_label-Counted s =
    let P : String → Type 0 = Counted true false in
    let r : P "4xx" = (refl, refl) in
    if-cases P (s == 401) (λ h. (refl, refl))
      (λ h.
        if-cases P (s == 403) (λ h. (refl, refl))
          (λ h.
            if-cases P (s == 404) (λ h. (refl, refl))
              (λ h.
                if-cases P (s == 413) (λ h. (refl, refl))
                  (λ h. if-cases P (s == 429) (λ h. (refl, refl)) (λ h. (refl, refl))))))

server_label-Counted : (s : ℕ) → Counted false true (server_label s)
unfolding server_label is_4xx is_5xx contains
server_label-Counted s =
    let P : String → Type 0 = Counted false true in
    if-cases P (s == 502) (λ h. (refl, refl))
      (λ h.
        if-cases P (s == 503) (λ h. (refl, refl))
          (λ h. if-cases P (s == 504) (λ h. (refl, refl)) (λ h. (refl, refl))))

status_label-Counted :
    (s : ℕ) → Counted (leb 400 s && ltb s 500) (leb 500 s && ltb s 600) (status_label s)
unfolding status_label is_4xx is_5xx contains
status_label-Counted s =
    let goal : String → Type 0 = Counted (leb 400 s && ltb s 500) (leb 500 s && ltb s 600) in
    if-cases goal (leb 200 s && ltb s 300) (λ h. (ground arith, ground arith))
      (λ h2.
        if-cases goal (leb 300 s && ltb s 400) (λ h. (ground arith, ground arith))
          (λ h3.
            if-cases goal (leb 400 s && ltb s 500)
              (λ h. let c = client_label-Counted s in (c.0 ∙ ground arith, c.1 ∙ ground arith))
              (λ h4.
                if-cases goal (leb 500 s && ltb s 600)
                  (λ h. let c = server_label-Counted s in (c.0 ∙ ground arith, c.1 ∙ ground arith))
                  (λ h5. (ground arith, ground arith)))))

other_class :
    (s : ℕ) → (not (leb 400 s && ltb s 500) && (leb 500 s && ltb s 600)) ≡ (leb 500 s && ltb s 600)
other_class s = ground arith

-- a response as it is observed
pub record Observation : Type 0 where
  pub at : ℕ
  pub provider : String
  pub model : String
  pub status : ℕ

-- the newest first
abbrev pub observe_all : List Observation → Metrics
observe_all [] = no_metrics
observe_all (o ∷ history) = observe_request o.at o.provider o.model o.status (observe_all history)

abbrev pub between : ℕ → ℕ → Observation → Bool
between low high o = leb low o.status && ltb o.status high

abbrev pub anything : (String → String) → Bool
anything label = true

abbrev pub client_error : (String → String) → Bool
client_error label = is_4xx (label "status")

abbrev pub server_error : (String → String) → Bool
server_error label = not (is_4xx (label "status")) && is_5xx (label "status")

-- the increments that pass a test are the observations that pass another
incs-count :
    (P : (String → String) → Bool) (Q : Observation → Bool)
    → ((o : Observation) (m : Metrics)
        → count_if
            (λ labels. P (label_value labels))
            (observe_request o.at o.provider o.model o.status m).requests_total
          ≡ (if Q o then 1 else 0) + count_if (λ labels. P (label_value labels)) m.requests_total)
    → (history : List Observation)
    → count_if (λ labels. P (label_value labels)) (observe_all history).requests_total
      ≡ count_if Q history
incs-count P Q step [] = refl
incs-count P Q step (o ∷ history) =
    let ih = incs-count P Q step history in
    let now = step o (observe_all history) in omega (arith, ih, now)

pub incs-client :
    (history : List Observation)
    → count_if (λ labels. client_error (label_value labels)) (observe_all history).requests_total
      ≡ count_if (between 400 500) history
unfolding observe_request label_value
incs-client =
    incs-count client_error (between 400 500) (λ o m. rw (status_label-Counted o.status).0 refl)

pub incs-server :
    (history : List Observation)
    → count_if (λ labels. server_error (label_value labels)) (observe_all history).requests_total
      ≡ count_if (between 500 600) history
unfolding observe_request label_value
incs-server =
    incs-count server_error (between 500 600)
      (λ o m. let c = status_label-Counted o.status in rw (c.0, c.1, other_class o.status) refl)
