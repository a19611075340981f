-- ===== src/Queue/Schedule/Tests.antt =====
-- A week with two days that start at one hour and end at two.
use f_chat_backend.Memory.{next_index}
use f_chat_backend.Prelude.{text, starts_with, [], ◌∷◌, Bool, true, ◌≡◌, refl, find, keep, leb}
use f_chat_backend.Queue.Schedule.{
  Cron, State, register_crons, clear_crons, without_crons_of, is_cron_of, add_crons, add_cron,
  WorkSchedule, resume, pause, push_day, group_from, prefix_of, crons_from, index_after, crons_of,
  is_outside, pauses_now,
}
use f_chat_backend.Prelude.Actions.{
  failed, remote, stored, refuse, result_of, continue, ◌>>=◌, ◌>>◌,
}

abbrev week : WorkSchedule
week = (1, record { start = 8; end = 18 }) ∷ (6, record { start = 8; end = 13 }) ∷ []

three_crons :
    crons_of (text "t") week
    ≡ record { name = text "queue-resume-t-0"; kind = resume; hour = 8; days = 1 ∷ 6 ∷ [] }
      ∷ record { name = text "queue-pause-t-1"; kind = pause; hour = 18; days = 1 ∷ [] }
      ∷ record { name = text "queue-pause-t-2"; kind = pause; hour = 13; days = 6 ∷ [] }
      ∷ []
unfolding crons_of crons_from group_from push_day index_after next_index prefix_of
three_crons = refl

-- In the afternoon of the short day the queue is paused at once, and on a day with no entry.
paused : pauses_now week 6 14 ≡ true
unfolding pauses_now is_outside find
paused = refl

paused_sunday : pauses_now week 0 10 ≡ true
unfolding pauses_now is_outside find
paused_sunday = refl

abbrev parses : Cron → Bool
parses c = leb c.hour 23

abbrev stale : Cron
stale = record { name = text "queue-pause-t-0"; kind = pause; hour = 3; days = 2 ∷ [] }

abbrev foreign : Cron
foreign = record { name = text "queue-resume-v-0"; kind = resume; hour = 9; days = 1 ∷ [] }

abbrev before : State
before = record { crons = stale ∷ foreign ∷ []; pauses = [] }

abbrev after : State
after = record { crons = foreign ∷ crons_of (text "t") week; pauses = text "t" ∷ [] }

-- An hour that no clock has stops the registration, with the old crons gone.
stopped :
    register_crons parses (text "t") ((1, record { start = 24; end = 25 }) ∷ []) 1 9 before
    ≡ (failed remote, record { crons = foreign ∷ []; pauses = [] })
unfolding register_crons clear_crons without_crons_of is_cron_of starts_with add_crons add_cron
    crons_of crons_from group_from push_day index_after prefix_of keep stored refuse result_of
    continue ◌>>=◌ ◌>>◌
stopped = refl

-- The entry of Sunday is 7, and Sunday is the day 0 of the clock: the queue is paused in its hours.
paused_in_hours : pauses_now ((7, record { start = 8; end = 18 }) ∷ []) 0 10 ≡ true
unfolding pauses_now is_outside find
paused_in_hours = refl
