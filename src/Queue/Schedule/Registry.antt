-- ===== src/Queue/Schedule/Registry.antt =====
-- What the registry holds once the crons of a tenant were registered (queue-scheduler.service.ts,
-- registerCronsForUser).
use f_chat_backend.Prelude.{Text, List, keep, not}
use f_chat_backend.Queue.Schedule.{Cron, is_cron_of, State}

-- The registry holds the crons of the tenant and those of the others.
unfoldable pub crons_held : Text → State → List Cron
crons_held tenant_id s = keep (λ c. is_cron_of tenant_id c.name) s.crons

unfoldable pub other_crons : Text → State → List Cron
other_crons tenant_id s = keep (λ c. not (is_cron_of tenant_id c.name)) s.crons
