-- ===== src/Execution/Intents/Calls.antt =====
-- The calls of backend/app/submission_intent_store.py, and histories of them.
use ai_trading_platform_mobi.Prelude.{ℕ, Option, List, [], ◌∷◌, ok, err, Text}
use ai_trading_platform_mobi.Execution.Intents.{Intent, Request, IntentError, Outcome}
use ai_trading_platform_mobi.Execution.Intents.Backends.{
  Backend, create, get_unresolved, record_broker_order, resolve, unresolved,
}

-- The calls of the store, and what they return.
pub data Call : Type 0 where
  creating : Request → ℕ → Call
  getting : Text → Call
  recording : Text → Text → Text → ℕ → Call
  resolving : Text → ℕ → Call
  listing : Call

pub data Reply : Type 0 where
  made : Intent → Reply
  found : Option Intent → Reply
  listed : List Intent → Reply
  done : Reply
  raised : IntentError → Reply

unfoldable pub or_raised : {A : Type 0} → (A → Reply) → Outcome A → Reply
or_raised f (ok a) = f a
or_raised f (err e) = Reply.raised e

abbrev pub changed : {A : Type 0} → Backend → (A → Reply × Backend) → Outcome A → Reply × Backend
changed b f (ok a) = f a
changed b f (err e) = (Reply.raised e, b)

unfoldable pub execute : Call → Backend → Reply × Backend
unfolding or_raised
execute (Call.creating r now) b = changed b (λ x. (Reply.made x.0, x.1)) (create r now b)
execute (Call.getting id) b = (or_raised Reply.found (get_unresolved id b), b)
execute (Call.recording id broker status now) b =
    changed b (λ x. (Reply.done, x)) (record_broker_order id broker status now b)
execute (Call.resolving id now) b = changed b (λ x. (Reply.done, x)) (resolve id now b)
execute Call.listing b = (or_raised Reply.listed (unresolved b), b)

unfoldable pub replies : List Call → Backend → List Reply
replies [] b = []
replies (c ∷ cs) b = (execute c b).0 ∷ replies cs (execute c b).1
