-- ===== src/Commands/Confirmation/Timers.antt =====
-- The timers of the confirmation windows, apart from the commands.
use forgeos_web.Base.{
  ◌∙◌, ◌<◌, ℕ, ◌≡◌, ◌≢◌, refl, sym, inl, inr, none, some, ◌==◌, arith, Bool-cases, Option-cases,
  ==_iff, ==_self,
}
use forgeos_web.Base.JsMap
use forgeos_web.Base.JsMap.{JsMap, nat_eq, string_eq, get-put, get-remove}
use forgeos_web.Domain.Confirmation.{Confirmations}
use forgeos_web.Commands.Confirmation.{start_window, clear, fired}

-- A timer in the map runs for the command it is filed under, if it runs, and new timers are new.
pub record IsSound (c : Confirmations) : Type 0 where
  pub linked : (i t j : ℕ) → JsMap.get c.timers i ≡ some t → JsMap.get c.running t ≡ some j → j ≡ i
  pub filed_below : (i t : ℕ) → JsMap.get c.timers i ≡ some t → t < c.next_timer
  pub running_below : (t i : ℕ) → JsMap.get c.running t ≡ some i → t < c.next_timer

abbrev pub RunsFor : ℕ → Confirmations → Type 0
RunsFor k c = (t : ℕ) × (JsMap.get c.running t ≡ some k)

pub start_window-IsSound : (i : ℕ) (c : Confirmations) → IsSound c → IsSound (start_window i c)
unfolding start_window
start_window-IsSound i c h = record {
  linked = λ j t k filed runs. ground (
    arith,
    filed,
    runs,
    h.linked j t k,
    h.filed_below j t,
    h.running_below t k,
    get-put c.timers i c.next_timer j,
    get-put c.running c.next_timer i t,
  );
  filed_below =
      λ j t filed. ground (arith, filed, h.filed_below j t, get-put c.timers i c.next_timer j);
  running_below =
      λ t j runs. ground (arith, runs, h.running_below t j, get-put c.running c.next_timer i t);
}

pub drop-IsSound : (i t : ℕ) (c : Confirmations) → IsSound c → IsSound (fired t i c)
unfolding fired
drop-IsSound i t c h = record {
  linked = λ j u k filed runs.
      ground
        (arith, filed, runs, h.linked j u k, get-remove c.timers i j, get-remove c.running t u);
  filed_below = λ j u filed. ground (arith, filed, h.filed_below j u, get-remove c.timers i j);
  running_below = λ u j runs. ground (arith, runs, h.running_below u j, get-remove c.running t u);
}

-- `clear` either finds nothing or does what the firing of the timer would.
clear_filed :
    (i t : ℕ) (c : Confirmations) → JsMap.get c.timers i ≡ some t → clear i c ≡ fired t i c
unfolding clear fired
clear_filed i t c e = rw (e, clear) refl

clear_unfiled : (i : ℕ) (c : Confirmations) → JsMap.get c.timers i ≡ none → clear i c ≡ c
unfolding clear
clear_unfiled i c e = rw (e, clear) refl

pub clear-IsSound : (i : ℕ) (c : Confirmations) → IsSound c → IsSound (clear i c)
clear-IsSound i c h = elim (Option-cases (JsMap.get c.timers i)) [
  | inl unfiled ↦ rw (clear_unfiled i c unfiled) h
  | inr (t, filed) ↦ rw (clear_filed i t c filed) (drop-IsSound i t c h)
]

pub start_window-RunsFor_new : (i : ℕ) (c : Confirmations) → RunsFor i (start_window i c)
unfolding start_window
start_window-RunsFor_new i c = (
  c.next_timer,
  ground (arith, get-put c.running c.next_timer i c.next_timer, ==_self c.next_timer),
)

pub start_window-RunsFor :
    (i k : ℕ) (c : Confirmations) → IsSound c → RunsFor k c → RunsFor k (start_window i c)
unfolding start_window
start_window-RunsFor i k c h (t, runs) =
    (t, ground (arith, runs, h.running_below t k, get-put c.running c.next_timer i t))

pub fired-RunsFor :
    (i k t : ℕ) (c : Confirmations)
    → i ≢ k
    → ((j : ℕ) → JsMap.get c.running t ≡ some j → j ≡ i)
    → RunsFor k c
    → RunsFor k (fired t i c)
unfolding fired
fired-RunsFor i k t c differ mine (u, runs) = elim (Bool-cases (t == u)) [
  | inl e ↦
      let here : JsMap.get c.running t ≡ some k = rw ((==_iff t u).0 e) runs in
      absurd (differ (sym (mine k here)))
  | inr e ↦ (u, get-remove c.running t u ∙ rw e runs)
]

pub clear-RunsFor :
    (i k : ℕ) (c : Confirmations) → IsSound c → i ≢ k → RunsFor k c → RunsFor k (clear i c)
clear-RunsFor i k c h differ there = elim (Option-cases (JsMap.get c.timers i)) [
  | inl unfiled ↦ rw (clear_unfiled i c unfiled) there
  | inr (t, filed) ↦
      rw (clear_filed i t c filed) (fired-RunsFor i k t c differ (λ j. h.linked i t j filed) there)
]
