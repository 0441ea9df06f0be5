-- ===== src/Dashboard/Resume.antt =====
-- apps/dashboard/src/lib/resume-machine.ts: when opening a paused project resumes it.
pub mod Asks
use corebase.Base.{
  ℕ, ◌+◌, String, Bool, true, false, not, ◌&&◌, ◌||◌, Option, none, some, List, [], ◌∷◌, str_eq,
  if◌then◌else◌,
}

pub record ResumeState : Type 0 where
  pub asked : Bool
  pub saw_resuming : Bool
  pub saw_ready : Bool

abbrev pub initial_resume_state : ResumeState
initial_resume_state = record { asked = false; saw_resuming = false; saw_ready = false }

pub record ResumeDecision : Type 0 where
  pub next : ResumeState
  pub ask : Bool
  pub toast_resumed : Bool

-- `status === '…'`
abbrev pub is_status : String → Option String → Bool
is_status name none = false
is_status name (some status) = str_eq status name

unfoldable pub on_status : ResumeState → Option String → ResumeDecision
on_status state status =
    let saw_resuming = state.saw_resuming || is_status "resuming" status in
    let saw_ready = state.saw_ready || is_status "ready" status in
    if is_status "paused" status && not state.asked && not state.saw_ready
    then record {
      next = record { asked = true; saw_resuming = saw_resuming; saw_ready = saw_ready };
      ask = true;
      toast_resumed = false;
    }
    else if is_status "ready" status && state.saw_resuming
    then record {
      next = record { asked = false; saw_resuming = false; saw_ready = true };
      ask = false;
      toast_resumed = true;
    }
    else record {
      next = record state { saw_resuming = saw_resuming; saw_ready = saw_ready };
      ask = false;
      toast_resumed = false;
    }

unfoldable pub is_deliberately_paused : ResumeState → Option String → Bool
is_deliberately_paused state status = is_status "paused" status && not state.asked

pub data Settled : Type 0 where
  settled_ok conflict error : Settled

unfoldable pub on_resume_settled : ResumeState → Settled → ResumeState
on_resume_settled state error = record state { asked = false }
on_resume_settled state _ = state
