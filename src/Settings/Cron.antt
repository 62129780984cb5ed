-- ===== src/Settings/Cron.antt =====
-- `CronManager` of backend/core/cron_manager.py: the jobs by name, and those that were stopped.
use tugtainer.Base.{
  Option, none, some, List, [], ◌∷◌, ◌++◌, Text, Dict, codes, lookup, put, elem, ◌==◌,
  if◌then◌else◌,
}

-- What `aiocron.crontab` is given; the function is that of the name.
pub record Job : Type 0 where
  pub cron_expr : Option Text
  pub tz : Option Text

pub record Jobs : Type 0 where
  pub jobs : Dict Job
  pub stopped : List Job

-- `del d[name]`
unfoldable pub delete : Text → Dict Job → Dict Job
delete name [] = []
delete name ((n, job) ∷ d) = let rest = delete name d in if n == name then d else (n, job) ∷ rest

abbrev cancelled : Text → Option Job → Jobs → Jobs
cancelled name none j = j
cancelled name (some job) j = record { jobs = delete name j.jobs; stopped = j.stopped ++ job ∷ [] }

unfoldable pub cancel_job : Text → Jobs → Jobs
unfolding lookup delete
cancel_job name j = cancelled name (lookup name j.jobs) j

-- `ZoneInfo(tz) if tz in VALID_TIMEZONES else None`
abbrev zone_of : (valid_timezones : List Text) → Option Text → Option Text
zone_of valid_timezones none = none
zone_of valid_timezones (some tz) = if elem tz valid_timezones then some tz else none

unfoldable pub schedule_job :
    (valid_timezones : List Text) → (name : Text) → (cron_expr tz : Option Text) → Jobs → Jobs
unfolding cancel_job put
schedule_job valid_timezones name cron_expr tz j =
    let cancelled_jobs = cancel_job name j in
    record cancelled_jobs {
      jobs =
          put name (record { cron_expr = cron_expr; tz = zone_of valid_timezones tz })
            cancelled_jobs.jobs;
    }

abbrev values_of : Dict Job → List Job
values_of [] = []
values_of ((name, job) ∷ d) = job ∷ values_of d

unfoldable pub cancel_all : Jobs → Jobs
cancel_all j = record { jobs = []; stopped = j.stopped ++ values_of j.jobs }

abbrev if_some : Option Text → Jobs → Jobs → Jobs
if_some none scheduled j = j
if_some (some expr) scheduled j = scheduled

abbrev pub check_job : Text
check_job = codes "CHECK_CONTAINERS"

abbrev pub update_job : Text
update_job = codes "UPDATE_CONTAINERS"

-- `schedule_actions_on_init`; an expression that is empty is none.
unfoldable pub schedule_actions_on_init :
    (valid_timezones : List Text) → (tz check_crontab update_crontab : Option Text) → Jobs → Jobs
unfolding schedule_job
schedule_actions_on_init valid_timezones tz check_crontab update_crontab j =
    let checking =
      if_some check_crontab (schedule_job valid_timezones check_job check_crontab tz j) j in
    if_some update_crontab (schedule_job valid_timezones update_job update_crontab tz checking)
      checking
