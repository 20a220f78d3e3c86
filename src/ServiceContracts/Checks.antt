-- ===== src/ServiceContracts/Checks.antt =====
-- The constructors of dispatch results and intents return their argument or raise ValueError.
use healthassure_messaging.Errors.Checks.{Checks, check_rules}
use healthassure_messaging.ServiceContracts.{
  DispatchResult, MessageIntent, check_dispatch_result, check_intent,
}

pub check_dispatch_result-Checks : (r : DispatchResult) → Checks r (check_dispatch_result r)
unfolding check_dispatch_result
check_dispatch_result-Checks r = search check_rules depth 12

pub check_intent-Checks : (i : MessageIntent) → Checks i (check_intent i)
unfolding check_intent
check_intent-Checks i = search check_rules depth 14
