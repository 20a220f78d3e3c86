-- ===== src/InMemory/Port.antt =====
-- The in-memory objects of src/healthassure_messaging/testing.py and templates.py as the service's
-- ports: an exception of theirs is one that the service catches.
use healthassure_messaging.Base.{String}
use healthassure_messaging.Errors.{Result, ok, err}
use healthassure_messaging.Templates
use healthassure_messaging.Templates.{TemplateCatalog}
use healthassure_messaging.Provider.{Reply}
use healthassure_messaging.Service.{Ports}
use healthassure_messaging.InMemory
use healthassure_messaging.InMemory.{
  Repository, InMemoryRecipientEligibilityPolicy, InMemoryTextSessionPolicy,
}

abbrev pub reply_of {ℓ} : {A : Type ℓ} → Result A → Reply A
reply_of (ok a) = Reply.value a
reply_of (err e) = Reply.raised e

-- The identifiers that the two factories give are arguments.
abbrev pub in_memory_ports :
    TemplateCatalog
    → InMemoryRecipientEligibilityPolicy
    → InMemoryTextSessionPolicy
    → String
    → String
    → Ports Repository
in_memory_ports catalog recipients sessions correlation_id intent_id = record {
  find_template = λ key e. (reply_of (Templates.get catalog key), e);
  evaluate = λ recipient e. (reply_of (InMemory.evaluate recipients recipient), e);
  has_active_session =
      λ recipient purpose e. (reply_of (InMemory.has_active_session sessions recipient purpose), e);
  find_intent = λ f k e. let (r, e') = InMemory.get f k e in (reply_of r, e');
  create_if_absent = λ i e. let (r, e') = InMemory.create_if_absent i e in (reply_of r, e');
  claim = λ id e. let (r, e') = InMemory.claim id e in (reply_of r, e');
  complete = λ id st d e. let (r, e') = InMemory.complete id st d e in (reply_of r, e');
  new_correlation_id = λ e. (Reply.value correlation_id, e);
  new_intent_id = λ e. (Reply.value intent_id, e);
}
