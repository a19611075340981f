-- ===== src/Webhooks/Processor/Labeled.antt =====
-- A contact with a label, under `processMessage`: its messages answer requests of the queue and
-- are not for the agent.
use f_chat_backend.Prelude.{Text, List}
use f_chat_backend.Messaging.{Tables, State}
use f_chat_backend.Messaging.Events.{AppEvent}
use f_chat_backend.Webhooks.Processor.Quiet

module _ (t : Tables) (number : Text) (old : List AppEvent) where
  abbrev IsQuiet : State t → Type 0
  IsQuiet = Quiet.IsQuiet t number old
