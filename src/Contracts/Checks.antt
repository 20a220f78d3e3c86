-- ===== src/Contracts/Checks.antt =====
-- The constructors of send results and normalized errors return their argument or raise ValueError.
use healthassure_messaging.Errors.Checks.{Checks, check_rules}
use healthassure_messaging.Contracts.{NormalizedError, SendResult, check_error, check_send_result}

pub check_error-Checks : (e : NormalizedError) → Checks e (check_error e)
unfolding check_error
check_error-Checks e = search check_rules depth 12

pub check_send_result-Checks : (r : SendResult) → Checks r (check_send_result r)
unfolding check_send_result
check_send_result-Checks r = search check_rules depth 12
