-- ===== src/Dashboard/Resume/Asks.antt =====
-- How often one visit resumes its project, and says so.
use corebase.Base.{
  ℕ, ◌+◌, ◌≤◌, ◌≡◌, String, refl, Bool, true, false, not, ◌&&◌, Option, List, [], ◌∷◌, arith,
  if◌then◌else◌,
}
use corebase.Dashboard.Resume.{
  ResumeState, initial_resume_state, on_status, on_resume_settled, is_status, Settled, settled_ok,
  conflict, error,
}

-- What happens during a visit.
pub data Event : Type 0 where
  polled : Option String → Event
  answered : Settled → Event

abbrev pub one_if : Bool → ℕ
one_if b = if b then 1 else 0

abbrev pub is_error : Event → Bool
is_error (answered error) = true
is_error _ = false

abbrev pub is_resuming : Event → Bool
is_resuming (polled status) = is_status "resuming" status
is_resuming (answered _) = false

unfoldable pub asks : List Event → ResumeState → ℕ
asks [] s = 0
asks (polled status ∷ events) s = let d = on_status s status in one_if d.ask + asks events d.next
asks (answered outcome ∷ events) s = asks events (on_resume_settled s outcome)

unfoldable pub toasts : List Event → ResumeState → ℕ
toasts [] s = 0
toasts (polled status ∷ events) s =
    let d = on_status s status in one_if d.toast_resumed + toasts events d.next
toasts (answered outcome ∷ events) s = toasts events (on_resume_settled s outcome)

abbrev pub how_many : (Event → Bool) → List Event → ℕ
how_many test [] = 0
how_many test (e ∷ events) = one_if (test e) + how_many test events

abbrev may_ask : ResumeState → ℕ
may_ask s = one_if (not s.asked && not s.saw_ready)

asks_step :
    (s : ResumeState) (status : Option String)
    → one_if (on_status s status).ask + may_ask (on_status s status).next ≤ may_ask s
unfolding on_status
asks_step s status = ground arith

asks_at_most :
    (events : List Event) (s : ResumeState) → asks events s ≤ how_many is_error events + may_ask s
unfolding asks on_resume_settled
asks_at_most [] s = omega arith
asks_at_most (polled status ∷ events) s =
    let once = asks_step s status in
    let ih = asks_at_most events (on_status s status).next in omega arith
asks_at_most (answered settled_ok ∷ events) s = let ih = asks_at_most events s in omega arith
asks_at_most (answered conflict ∷ events) s = let ih = asks_at_most events s in omega arith
asks_at_most (answered error ∷ events) s =
    let ih = asks_at_most events (record s { asked = false }) in ground arith

toasts_step :
    (s : ResumeState) (status : Option String)
    → one_if (on_status s status).toast_resumed + one_if (on_status s status).next.saw_resuming
      ≤ one_if s.saw_resuming + one_if (is_status "resuming" status)
unfolding on_status
toasts_step s status = ground arith

toasts_at_most :
    (events : List Event) (s : ResumeState)
    → toasts events s ≤ how_many is_resuming events + one_if s.saw_resuming
unfolding toasts on_resume_settled
toasts_at_most [] s = omega arith
toasts_at_most (polled status ∷ events) s =
    let once = toasts_step s status in
    let ih = toasts_at_most events (on_status s status).next in omega arith
toasts_at_most (answered settled_ok ∷ events) s = let ih = toasts_at_most events s in omega arith
toasts_at_most (answered conflict ∷ events) s = let ih = toasts_at_most events s in omega arith
toasts_at_most (answered error ∷ events) s =
    let ih = toasts_at_most events (record s { asked = false }) in omega arith

-- A visit, whatever statuses are polled and however its requests end, asks for a resume at most
-- once and once more for each request that failed, and says "Resumed" at most as often as the
-- project was seen resuming.
pub visit_asks_once :
    (events : List Event)
    → (asks events initial_resume_state ≤ how_many is_error events + 1)
      × (toasts events initial_resume_state ≤ how_many is_resuming events)
visit_asks_once events =
    let a = asks_at_most events initial_resume_state in
    let t = toasts_at_most events initial_resume_state in (omega arith, omega arith)

stays_ready :
    (s : ResumeState) (status : Option String)
    → s.saw_ready ≡ true
    → ((on_status s status).ask ≡ false) × ((on_status s status).next.saw_ready ≡ true)
unfolding on_status
stays_ready s status e = ground arith

-- Once the project has been seen ready, the visit never asks for a resume: a pause after that is
-- a deliberate one.
asks_none_after_ready :
    (events : List Event) (s : ResumeState) → s.saw_ready ≡ true → asks events s ≡ 0
unfolding asks on_resume_settled
asks_none_after_ready [] s e = refl
asks_none_after_ready (polled status ∷ events) s e =
    let (quiet, still) = stays_ready s status e in
    let ih = asks_none_after_ready events (on_status s status).next still in rw quiet (omega arith)
asks_none_after_ready (answered settled_ok ∷ events) s e = asks_none_after_ready events s e
asks_none_after_ready (answered conflict ∷ events) s e = asks_none_after_ready events s e
asks_none_after_ready (answered error ∷ events) s e =
    asks_none_after_ready events (record s { asked = false }) e
