-- ===== src/Queue/Schedule/Cover.antt =====
-- When the crons of a work schedule run (queue-scheduler.service.ts, registerCronsForUser).
use f_chat_backend.Memory.{next_index}
use f_chat_backend.Prelude.{
  ℕ, Text, starts_with, List, [], ◌∷◌, ◌++◌, any, every, Bool, true, false, ◌&&◌, ◌||◌, nat_eq, ◌%◌,
  ◌≡◌, refl, arith,
}
use mathlib.Core.List.{reverse}
use f_chat_backend.Queue.Schedule.{
  DaySchedule, WorkSchedule, CronKind, resume, pause, Cron, Groups, push_day, group_from, prefix_of,
  crons_from, index_after, crons_of, is_cron_of,
}

unfoldable pub is_kind : CronKind → CronKind → Bool
is_kind resume resume = true
is_kind pause pause = true
is_kind _ _ = false

-- Some cron of the kind runs at the hour of the day: Sunday is the day 0 and the day 7 of a cron.
unfoldable pub runs_at : CronKind → ℕ → ℕ → List Cron → Bool
unfolding is_kind any
runs_at kind hour day =
    any (λ c. is_kind c.kind kind && (nat_eq c.hour hour && any (λ d. nat_eq (d % 7) day) c.days))

unfoldable covers : ℕ → ℕ → Groups → Bool
unfolding any
covers hour day = any (λ g. nat_eq g.0 hour && any (λ d. nat_eq (d % 7) day) g.1)

any-append :
    {A : Type 0} (p : A → Bool) (xs ys : List A) → any p (xs ++ ys) ≡ (any p xs || any p ys)
unfolding any
any-append p [] ys = refl
any-append p (x ∷ xs) ys = ground (arith, any-append p xs ys)

covers-push_day :
    (hour day h d : ℕ) (groups : Groups)
    → covers hour day (push_day groups h d)
      ≡ (covers hour day groups || (nat_eq h hour && nat_eq (d % 7) day))
unfolding covers push_day any
covers-push_day hour day h d [] = ground arith
covers-push_day hour day h d ((k, days) ∷ groups) =
    ground (
      arith,
      any-append (λ x. nat_eq (x % 7) day) days (d ∷ []),
      covers-push_day hour day h d groups,
    )

covers-group_from :
    (hour_of : DaySchedule → ℕ) (hour day : ℕ) (groups : Groups) (schedule : WorkSchedule)
    → covers hour day (group_from hour_of groups schedule) ≡ (
        covers hour day groups
        || any (λ e. nat_eq (hour_of e.1) hour && nat_eq (e.0 % 7) day) schedule)
unfolding group_from any
covers-group_from hour_of hour day groups [] = ground arith
covers-group_from hour_of hour day groups ((d, hours) ∷ schedule) = ground (
  arith,
  covers-group_from hour_of hour day (push_day groups (hour_of hours) d) schedule,
  covers-push_day hour day (hour_of hours) d groups,
)

-- The crons of groups run when the groups say so, and those of the other kind never do.
runs_at-crons_from :
    (kind : CronKind) (tenant_id : Text) (hour day : ℕ) (index : List ℕ) (groups : Groups)
    → runs_at kind hour day (crons_from kind tenant_id index groups) ≡ covers hour day groups
unfolding runs_at crons_from covers any is_kind
runs_at-crons_from kind tenant_id hour day index [] = refl
runs_at-crons_from resume tenant_id hour day index (g ∷ groups) =
    ground (arith, runs_at-crons_from resume tenant_id hour day (next_index index) groups)
runs_at-crons_from pause tenant_id hour day index (g ∷ groups) =
    ground (arith, runs_at-crons_from pause tenant_id hour day (next_index index) groups)

never_runs :
    (kind other : CronKind) (tenant_id : Text) (hour day : ℕ) (index : List ℕ) (groups : Groups)
    → is_kind other kind ≡ false
    → runs_at kind hour day (crons_from other tenant_id index groups) ≡ false
unfolding runs_at crons_from any
never_runs kind other tenant_id hour day index [] h = refl
never_runs kind other tenant_id hour day index (g ∷ groups) h =
    rw (h, never_runs kind other tenant_id hour day (next_index index) groups h) refl

runs_at-append :
    (kind : CronKind) (hour day : ℕ) (xs ys : List Cron)
    → runs_at kind hour day (xs ++ ys) ≡ (runs_at kind hour day xs || runs_at kind hour day ys)
unfolding runs_at
runs_at-append kind hour day xs ys =
    any-append
      (λ c. is_kind c.kind kind && (nat_eq c.hour hour && any (λ d. nat_eq (d % 7) day) c.days)) xs
      ys

starts_with-append : (p x : Text) → starts_with (p ++ x) p ≡ true
unfolding starts_with
starts_with-append [] [] = refl
starts_with-append [] (c ∷ x) = refl
starts_with-append (c ∷ p) x = ground (arith, starts_with-append p x)

is_cron_of-prefix :
    (kind : CronKind) (tenant_id x : Text)
    → is_cron_of tenant_id (prefix_of kind tenant_id ++ x) ≡ true
unfolding is_cron_of
is_cron_of-prefix resume tenant_id x = rw (starts_with-append (prefix_of resume tenant_id) x) refl
is_cron_of-prefix pause tenant_id x =
    ground (arith, starts_with-append (prefix_of pause tenant_id) x)

unfoldable pub are_cleared : Text → List Cron → Bool
are_cleared tenant_id = every (λ c. is_cron_of tenant_id c.name)

every-append :
    {A : Type 0} (p : A → Bool) (xs ys : List A) → every p (xs ++ ys) ≡ (every p xs && every p ys)
unfolding every
every-append p [] ys = refl
every-append p (x ∷ xs) ys = ground (arith, every-append p xs ys)

cleared_from :
    (kind : CronKind) (tenant_id : Text) (index : List ℕ) (groups : Groups)
    → are_cleared tenant_id (crons_from kind tenant_id index groups) ≡ true
unfolding are_cleared every crons_from
cleared_from kind tenant_id index [] = refl
cleared_from kind tenant_id index (g ∷ groups) =
    rw (is_cron_of-prefix kind tenant_id (reverse index))
      (cleared_from kind tenant_id (next_index index) groups)

cleared-append :
    (tenant_id : Text) (xs ys : List Cron)
    → are_cleared tenant_id (xs ++ ys) ≡ (are_cleared tenant_id xs && are_cleared tenant_id ys)
unfolding are_cleared
cleared-append tenant_id xs ys = every-append (λ c. is_cron_of tenant_id c.name) xs ys

covers-all :
    (hour_of : DaySchedule → ℕ) (hour day : ℕ) (schedule : WorkSchedule)
    → covers hour day (group_from hour_of [] schedule)
      ≡ any (λ e. nat_eq (hour_of e.1) hour && nat_eq (e.0 % 7) day) schedule
unfolding covers any
covers-all hour_of hour day schedule = covers-group_from hour_of hour day [] schedule

-- The crons of a schedule run by its entries, and the tenant's names are theirs.
pub crons_of-runs_at :
    (tenant_id : Text) (schedule : WorkSchedule) (hour day : ℕ)
    → (runs_at resume hour day (crons_of tenant_id schedule)
        ≡ any (λ e. nat_eq e.1.start hour && nat_eq (e.0 % 7) day) schedule)
      × (runs_at pause hour day (crons_of tenant_id schedule)
          ≡ any (λ e. nat_eq e.1.end hour && nat_eq (e.0 % 7) day) schedule)
      × (are_cleared tenant_id (crons_of tenant_id schedule) ≡ true)
unfolding crons_of is_kind
crons_of-runs_at tenant_id schedule hour day =
    let resumes = group_from (λ h. h.start) [] schedule in
    let pauses = group_from (λ h. h.end) [] schedule in
    let index = index_after (48 ∷ []) resumes in
    let first = crons_from resume tenant_id (48 ∷ []) resumes in
    let second = crons_from pause tenant_id index pauses in
    (
      ground (
        arith,
        runs_at-append resume hour day first second,
        runs_at-crons_from resume tenant_id hour day (48 ∷ []) resumes,
        never_runs resume pause tenant_id hour day index pauses refl,
        covers-all (λ h. h.start) hour day schedule,
      ),
      ground (
        arith,
        runs_at-append pause hour day first second,
        never_runs pause resume tenant_id hour day (48 ∷ []) resumes refl,
        runs_at-crons_from pause tenant_id hour day index pauses,
        covers-all (λ h. h.end) hour day schedule,
      ),
      ground (
        arith,
        cleared-append tenant_id first second,
        cleared_from resume tenant_id (48 ∷ []) resumes,
        cleared_from pause tenant_id index pauses,
      ),
    )
