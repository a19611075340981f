-- ===== src/Queue/Schedule.antt =====
-- queue-scheduler.service.ts: the crons that pause and resume the queue of a tenant by its work
-- schedule, as they are handed to the registry. A day is the number that `parseInt` reads of its
-- key, and the entries come in the order of Object.entries. The constructor of the package `cron`,
-- which throws on an expression that it does not read, is a parameter.
pub mod Cover
pub mod Registry
mod Tests
use f_chat_backend.Memory.{next_index}
use f_chat_backend.Prelude.{
  ℕ, Text, text, starts_with, ◌==◌, any, Option, none, some, List, [], ◌∷◌, ◌++◌, keep, Bool, true,
  false, not, ◌||◌, nat_eq, ltb, leb, if◌then◌else◌, find,
}
use mathlib.Core.List.{reverse}
use f_chat_backend.Prelude.Actions.{
  Action, error, remote, done, reads, stored, refuse, when◌then◌else◌, ◌>>=◌, ◌>>◌,
}

pub record DaySchedule : Type 0 where
  pub start : ℕ
  pub end : ℕ

abbrev pub WorkSchedule : Type 0
WorkSchedule = List (ℕ × DaySchedule)

pub data CronKind : Type 0 where
  resume pause : CronKind

-- `0 ${hour} * * ${days}` under its name
pub record Cron : Type 0 where
  pub name : Text
  pub kind : CronKind
  pub hour : ℕ
  pub days : List ℕ

abbrev pub Groups : Type 0
Groups = List (ℕ × List ℕ)

-- groups.get(hour) ?? [], with the day pushed, set again
unfoldable pub push_day : Groups → ℕ → ℕ → Groups
push_day [] hour day = (hour, day ∷ []) ∷ []
push_day ((h, days) ∷ groups) hour day =
    if nat_eq h hour then (h, days ++ day ∷ []) ∷ groups else (h, days) ∷ push_day groups hour day

-- The loop over the days, by the hour that it takes of each.
unfoldable pub group_from : (DaySchedule → ℕ) → Groups → WorkSchedule → Groups
unfolding push_day
group_from hour_of groups [] = groups
group_from hour_of groups ((day, hours) ∷ schedule) =
    group_from hour_of (push_day groups (hour_of hours) day) schedule

unfoldable pub prefix_of : CronKind → Text → Text
prefix_of resume tenant_id = text "queue-resume-" ++ tenant_id ++ text "-"
prefix_of pause tenant_id = text "queue-pause-" ++ tenant_id ++ text "-"

-- The crons of the groups, from an index on, whose digits stand last one first.
unfoldable pub crons_from : CronKind → Text → List ℕ → Groups → List Cron
unfolding prefix_of next_index
crons_from kind tenant_id index [] = []
crons_from kind tenant_id index ((hour, days) ∷ groups) =
    record {
      name = prefix_of kind tenant_id ++ reverse index;
      kind = kind;
      hour = hour;
      days = days;
    }
    ∷ crons_from kind tenant_id (next_index index) groups

unfoldable pub index_after : List ℕ → Groups → List ℕ
unfolding next_index
index_after index [] = index
index_after index (g ∷ groups) = index_after (next_index index) groups

-- The crons that registerCronsForUser adds, those that resume first.
unfoldable pub crons_of : Text → WorkSchedule → List Cron
unfolding group_from crons_from index_after
crons_of tenant_id schedule =
    let resumes = group_from (λ h. h.start) [] schedule in
    let pauses = group_from (λ h. h.end) [] schedule in
    crons_from resume tenant_id (48 ∷ []) resumes
    ++ crons_from pause tenant_id (index_after (48 ∷ []) resumes) pauses

-- clearCronsForUser: whether it deletes the cron of a name.
unfoldable pub is_cron_of : Text → Text → Bool
unfolding prefix_of
is_cron_of tenant_id name =
    starts_with name (prefix_of resume tenant_id) || starts_with name (prefix_of pause tenant_id)

-- schedule[currentDay], and whether the queue is paused at once.
unfoldable pub is_outside : Option (ℕ × DaySchedule) → ℕ → Bool
is_outside none hour = true
is_outside (some (day, hours)) hour = ltb hour hours.start || leb hours.end hour

unfoldable pub pauses_now : WorkSchedule → ℕ → ℕ → Bool
unfolding is_outside
pauses_now schedule day hour = is_outside (find (λ e. nat_eq e.0 day) schedule) hour

-- The registry, and the tenants whose queue was paused by a registration.
pub record State : Type 0 where
  pub crons : List Cron
  pub pauses : List Text

unfoldable pub has_name : Text → Cron → Bool
has_name name c = c.name == name

unfoldable pub without_crons_of : Text → State → State
unfolding is_cron_of
without_crons_of tenant_id s = record s {
  crons = keep (λ c. not (is_cron_of tenant_id c.name)) s.crons;
}

-- clearCronsForUser
unfoldable pub clear_crons : Text → Action State Unit
unfolding without_crons_of
clear_crons tenant_id = stored (λ s. some (without_crons_of tenant_id s))

module _ (parses : Cron → Bool) where
  -- new CronJob, then addCronJob, which throws on a name that is taken
  unfoldable pub add_cron : Cron → Action State Unit
  unfolding has_name
  add_cron c = do
    refuse (not (parses c)) remote
    taken ← reads (λ s. any (has_name c.name) s.crons)
    refuse taken (error c.name)
    stored (λ s. some (record s { crons = s.crons ++ c ∷ [] }))

  unfoldable pub add_crons : List Cron → Action State Unit
  unfolding add_cron
  add_crons [] = done tt
  add_crons (c ∷ cs) = add_cron c >> add_crons cs

  unfoldable pub pause_user : Text → Action State Unit
  pause_user tenant_id = stored (λ s. some (record s { pauses = s.pauses ++ tenant_id ∷ [] }))

  unfoldable pub register_crons : Text → WorkSchedule → ℕ → ℕ → Action State Unit
  unfolding clear_crons add_crons crons_of pauses_now pause_user
  register_crons tenant_id schedule day hour = do
    clear_crons tenant_id
    add_crons (crons_of tenant_id schedule)
    (when pauses_now schedule day hour then pause_user tenant_id else done tt)
