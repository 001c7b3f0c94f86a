-- ===== src/Session.antt =====
-- `SessionManager` (src/agentvm/session/manager.py).
use agent_vm.Base.{ℤ, pos, Bool, false}

pub record DrainResult : Type 0 where
  pub incomplete : Bool
  pub remaining : ℤ

-- `drain_all_sessions` drains nothing.
unfoldable pub drain_all_sessions : ℤ → DrainResult
drain_all_sessions timeout = record { incomplete = false; remaining = pos 0 }
