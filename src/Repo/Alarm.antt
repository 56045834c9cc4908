-- ===== src/Repo/Alarm.antt =====
-- src/worker/do/repo/scheduler.ts, repoConfig.ts and repoDO/access.ts: the alarm.
-- Calls of the storage are taken to succeed.
use gitedge.Shared.{
  ℕ, ◌+◌, ◌*◌, Bool, true, false, ◌||◌, Option, none, some, ltb, leb, ◌==◌, if◌then◌else◌, or_else,
  or_number, min, max,
}
use gitedge.Repo.State.{RepoStateSchema}
use gitedge.Repo.Metadata.{active_lease_or_undefined, compaction_rearm_delay_ms}

-- `getConfig`. The argument is the floor of the configured number (0 if it is negative), or `none`
-- if it is not finite.
unfoldable pub idle_ms_of : Option ℕ → ℕ
idle_ms_of none = 1 * 60 * 1000
idle_ms_of (some minutes) = max 1 (min (60 * 24 * 7) minutes) * 60 * 1000

pub data AlarmReason : Type 0 where
  compaction idle : AlarmReason

unfoldable pub plan_next_alarm : ℕ → ℕ → RepoStateSchema → ℕ × AlarmReason
unfolding active_lease_or_undefined
plan_next_alarm idle_ms now s = elim (active_lease_or_undefined s.receive_lease now) [
  | some lease ↦ (lease.expires_at, compaction)
  | none ↦ elim (active_lease_or_undefined s.compact_lease now) [
    | some lease ↦ (lease.expires_at, compaction)
    | none ↦ elim s.compaction_wanted_at [
      | some wanted_at ↦ (now + compaction_rearm_delay_ms, compaction)
      | none ↦
          let next_idle_at = or_else s.last_access_ms now + idle_ms in
          (if leb next_idle_at now then now + idle_ms else next_idle_at, idle)
    ]
  ]
]

pub record Scheduled : Type 0 where
  pub scheduled : Bool
  pub prev : Option ℕ
  pub next : ℕ

abbrev alarm_set : ℕ → Option ℕ → Scheduled
alarm_set when prev = record { scheduled = true; prev = prev; next = when }

abbrev alarm_kept : ℕ → Scheduled
alarm_kept prev = record { scheduled = false; prev = some prev; next = prev }

-- An alarm at time 0 counts as none.
unfoldable pub schedule_alarm_if_sooner : ℕ → ℕ → RepoStateSchema → RepoStateSchema × Scheduled
schedule_alarm_if_sooner when now s = elim s.alarm [
  | none ↦ (record s { alarm = some when }, alarm_set when none)
  | some prev ↦
      if prev == when
      then (s, alarm_kept prev)
      else if prev == 0 || (ltb prev now || ltb when prev)
      then (record s { alarm = some when }, alarm_set when (some prev))
      else (s, alarm_kept prev)
]

pub record Ensured : Type 0 where
  pub scheduled : Bool
  pub when : ℕ
  pub reason : AlarmReason

unfoldable pub ensure_scheduled : ℕ → ℕ → RepoStateSchema → RepoStateSchema × Ensured
unfolding plan_next_alarm schedule_alarm_if_sooner
ensure_scheduled idle_ms now s =
    let (planned, reason) = plan_next_alarm idle_ms now s in
    let (s', res) = schedule_alarm_if_sooner (max planned (now + 5)) now s in
    (s', record { scheduled = res.scheduled; when = res.next; reason = reason })

-- The access time is written at most once a minute.
unfoldable pub touch : ℕ → RepoStateSchema → RepoStateSchema
touch now s =
    let last = or_number s.last_access_mem_ms 0 in
    if last == 0 || leb (last + 60000) now
    then record s { last_access_ms = some now; last_access_mem_ms = some now }
    else s

unfoldable pub touch_and_maybe_schedule : ℕ → ℕ → RepoStateSchema → RepoStateSchema
unfolding touch ensure_scheduled
touch_and_maybe_schedule idle_ms now s = (ensure_scheduled idle_ms now (touch now s)).0

-- `ensureAccessAndAlarm` only adds that an error is logged and dropped.
unfoldable pub ensure_access_and_alarm : ℕ → ℕ → RepoStateSchema → RepoStateSchema
unfolding touch_and_maybe_schedule
ensure_access_and_alarm idle_ms now s = touch_and_maybe_schedule idle_ms now s
