-- ===== src/Repo/Object/Run.antt =====
-- What happens to the durable object, one event after the other.
use gitedge.Shared.{ℕ, Bool, List, [], ◌∷◌, ◌++◌, ◌≡◌}
use gitedge.Repo.State.{RepoStateSchema, Clock}
use gitedge.Repo.Maintenance.{clear_repository_storage}
use gitedge.Repo.Object.{Call, call, alarm}
use gitedge.Repo.Object.Wake.{IsAbandoned}

-- A call with its time and clock, an alarm with its clock and the success of its message, or
-- `clearRepositoryStorage`, which the deletion of a repository calls.
pub data ObjectEvent : Type 0 where
  called : ℕ → Clock → Call → ObjectEvent
  woken : Clock → Bool → ObjectEvent
  cleared : ObjectEvent

unfoldable pub happen : ℕ → ObjectEvent → RepoStateSchema → RepoStateSchema
unfolding call alarm clear_repository_storage
happen idle_ms (called now clock c) s = call idle_ms now clock c s
happen idle_ms (woken clock sent) s = alarm idle_ms clock sent s
happen idle_ms cleared s = clear_repository_storage s

unfoldable pub run : ℕ → List ObjectEvent → RepoStateSchema → RepoStateSchema
unfolding happen
run idle_ms [] s = s
run idle_ms (e ∷ es) s = run idle_ms es (happen idle_ms e s)

-- The event may delete everything: a deletion, or an alarm that finds the repository abandoned.
abbrev pub MayDelete : ℕ → ObjectEvent → RepoStateSchema → Type 0
MayDelete idle_ms (called now clock c) s = ⊥
MayDelete idle_ms (woken clock sent) s = IsAbandoned idle_ms (clock 2) s
MayDelete idle_ms cleared s = Unit

-- Such an event is among the events.
abbrev pub WasDeleted : ℕ → List ObjectEvent → RepoStateSchema → Type 0
WasDeleted idle_ms es s =
    (before : List ObjectEvent) × (e : ObjectEvent) × (after : List ObjectEvent) × (es
      ≡ before ++ (e ∷ after))
    × MayDelete idle_ms e (run idle_ms before s)
