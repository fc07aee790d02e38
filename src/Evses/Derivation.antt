-- ===== src/Evses/Derivation.antt =====
-- What the operational status of a charger says of its connectors.
use forgeos_web.Base.{
  ℕ, ◌+◌, ◌≡◌, refl, ◌∙◌, Bool, true, false, ◌&&◌, ◌||◌, not, List, [], ◌∷◌, ◌++◌, arith, length,
  if◌then◌else◌,
}
use forgeos_web.Domain.Station.{ConnectivityStatus, ConnectorStatus}
use forgeos_web.Evses.{
  OperationalStatus, available, in_use, partially_available, unavailable, offline, unknown,
  ConnectorEvidence, ConnectorSummary, count_one, count_all, zero_of, summarize, is_faulted,
  mismatches, Evidence, observe, observe_all, no_evidence, effective_available, effective_in_use,
  derive_online_status, compute_evse_operational_status, is_empty, reasons_of,
}

abbrev pub some_of {ℓ} : {A : Type ℓ} → (A → Bool) → List A → Bool
some_of p [] = false
some_of p (x ∷ xs) = p x || some_of p xs

abbrev pub counted : ConnectorSummary → ℕ
counted s = s.available + s.in_use + s.unavailable + s.faulted

count_one-counted :
    (s : ConnectorSummary) (c : ConnectorStatus) → (counted (count_one s c) ≡ 1 + counted s)
count_one-counted s c = ground arith

count_all-counted :
    (s : ConnectorSummary) (cs : List ConnectorEvidence)
    → counted (count_all s cs) ≡ length cs + counted s
unfolding count_all
count_all-counted s [] = omega arith
count_all-counted s (c ∷ cs) =
    ground (arith, count_all-counted (count_one s c.status) cs, count_one-counted s c.status)

count_one-total : (s : ConnectorSummary) (c : ConnectorStatus) → (count_one s c).total ≡ s.total
count_one-total s c = ground arith

count_all-total :
    (s : ConnectorSummary) (cs : List ConnectorEvidence) → (count_all s cs).total ≡ s.total
unfolding count_all
count_all-total s [] = refl
count_all-total s (c ∷ cs) = count_all-total (count_one s c.status) cs ∙ count_one-total s c.status

-- Every connector is counted in exactly one of the four classes: the summary's total is the number
-- of connectors and is the sum of the classes.
pub summarize_total :
    (cs : List ConnectorEvidence)
    → let s = summarize cs in
      (s.total ≡ length cs) × (s.total ≡ s.available + s.in_use + s.unavailable + s.faulted)
unfolding summarize
summarize_total cs =
    let total = count_all-total (zero_of (length cs)) cs in
    (total, omega (arith, total, count_all-counted (zero_of (length cs)) cs))

observe_all-available :
    (e : Evidence) (cs : List ConnectorEvidence)
    → (observe_all e cs).has_available ≡ (e.has_available || some_of effective_available cs)
unfolding observe_all
observe_all-available e [] = ground arith
observe_all-available e (c ∷ cs) = observe_all-available (observe e c) cs ∙ ground arith

observe_all-in_use :
    (e : Evidence) (cs : List ConnectorEvidence)
    → (observe_all e cs).has_in_use ≡ (e.has_in_use || some_of effective_in_use cs)
unfolding observe_all
observe_all-in_use e [] = ground arith
observe_all-in_use e (c ∷ cs) = observe_all-in_use (observe e c) cs ∙ ground arith

abbrev pub has_fault : ConnectorEvidence → Bool
has_fault c = is_faulted c.status

observe_all-faulted :
    (e : Evidence) (cs : List ConnectorEvidence)
    → (observe_all e cs).has_faulted ≡ (e.has_faulted || some_of has_fault cs)
unfolding observe_all
observe_all-faulted e [] = ground arith
observe_all-faulted e (c ∷ cs) = observe_all-faulted (observe e c) cs ∙ ground arith

abbrev pub needs_attention : ConnectorEvidence → Bool
needs_attention c = mismatches c || is_faulted c.status

is_empty-append : {A : Type 0} (xs ys : List A) → is_empty (xs ++ ys) ≡ (is_empty xs && is_empty ys)
is_empty-append [] ys = refl
is_empty-append (x ∷ xs) ys = refl

reasons_of-is_empty : (c : ConnectorEvidence) → is_empty (reasons_of c) ≡ not (needs_attention c)
reasons_of-is_empty c = ground arith

observe_all-reasons :
    (e : Evidence) (cs : List ConnectorEvidence)
    → not (is_empty (observe_all e cs).attention_reasons)
      ≡ (not (is_empty e.attention_reasons) || some_of needs_attention cs)
unfolding observe_all
observe_all-reasons e [] = ground arith
observe_all-reasons e (c ∷ cs) =
    observe_all-reasons (observe e c) cs
    ∙ rw (is_empty-append e.attention_reasons (reasons_of c), reasons_of-is_empty c) (ground arith)

-- The rule of the operational status: by what some connector is, not by the order of a loop.
abbrev pub expected_status : ConnectivityStatus → List ConnectorEvidence → OperationalStatus
expected_status ConnectivityStatus.offline cs = offline
expected_status ConnectivityStatus.unknown cs = unknown
expected_status ConnectivityStatus.online [] = unknown
expected_status ConnectivityStatus.online (c ∷ cs) =
    if some_of effective_available (c ∷ cs)
    then (if some_of effective_in_use (c ∷ cs) || some_of has_fault (c ∷ cs)
        then partially_available
        else available)
    else (if some_of effective_in_use (c ∷ cs) then in_use else unavailable)

-- The computed status is the one the rule gives: OFFLINE and UNKNOWN follow the connectivity; a
-- connected charger without connectors is UNKNOWN; else, with some connector free of a session and
-- AVAILABLE, it is PARTIALLY_AVAILABLE when another is in use, has a session or is FAULTED and
-- AVAILABLE when none is; without, IN_USE when some is in use and UNAVAILABLE when none is.
pub compute_evse_operational_status_rule :
    (connectivity : ConnectivityStatus) (cs : List ConnectorEvidence)
    → (compute_evse_operational_status connectivity cs).operational_status
      ≡ expected_status connectivity cs
unfolding compute_evse_operational_status derive_online_status
compute_evse_operational_status_rule ConnectivityStatus.offline cs = refl
compute_evse_operational_status_rule ConnectivityStatus.unknown cs = refl
compute_evse_operational_status_rule ConnectivityStatus.online [] = refl
compute_evse_operational_status_rule ConnectivityStatus.online (c ∷ cs) =
    rw
      (
        observe_all-available no_evidence (c ∷ cs),
        observe_all-in_use no_evidence (c ∷ cs),
        observe_all-faulted no_evidence (c ∷ cs),
      )
      (ground arith)

abbrev pub is_online : ConnectivityStatus → Bool
is_online ConnectivityStatus.online = true
is_online _ = false

-- A charger requires attention exactly when its station is online and some connector is FAULTED or
-- has a session while its status is not in use.
pub compute_evse_operational_status_attention :
    (connectivity : ConnectivityStatus) (cs : List ConnectorEvidence)
    → (compute_evse_operational_status connectivity cs).requires_attention
      ≡ (is_online connectivity && some_of needs_attention cs)
unfolding compute_evse_operational_status derive_online_status
compute_evse_operational_status_attention ConnectivityStatus.offline cs = refl
compute_evse_operational_status_attention ConnectivityStatus.unknown cs = refl
compute_evse_operational_status_attention ConnectivityStatus.online [] = refl
compute_evse_operational_status_attention ConnectivityStatus.online (c ∷ cs) =
    observe_all-reasons no_evidence (c ∷ cs)
