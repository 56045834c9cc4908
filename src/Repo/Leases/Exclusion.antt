-- ===== src/Repo/Leases/Exclusion.antt =====
-- One push at a time.
use gitedge.Shared.{ℕ, ◌+◌, ◌≤◌, ◌<◌, ◌≡◌, refl, String, Option, none, some, ◌⊎◌, inl, inr, arith}
use mathlib.Core.Option.{none-ne-some}
use gitedge.Repo.State.{RepoStateSchema, RepoLease}
use gitedge.Repo.Metadata.{receive_lease_ttl_ms}
use gitedge.Repo.Leases.{
  unexpired, clear_expired_leases, BeginReceiveResult, refused, granted, lease_receive,
  grant_receive, begin_receive_lease,
}

-- There is no lease, or it has expired.
abbrev pub IsFree : ℕ → Option RepoLease → Type 0
IsFree now o = (o ≡ none) ⊎ ((lease : RepoLease) × (o ≡ some lease) × (lease.expires_at ≤ now))

-- What each answer of `beginReceiveLease` means: a refusal says that the stored lease has not
-- expired, and keeps it; a grant says that there was none, and stores the lease that it returns.
abbrev pub BeginMeans : (ℕ → ℕ) → RepoStateSchema → RepoStateSchema → BeginReceiveResult → Type 0
BeginMeans clock s s' (refused retry_after) =
    (lease : RepoLease) × (s.receive_lease ≡ some lease)
    × (clock 0 < lease.expires_at)
    × (s'.receive_lease ≡ some lease)
BeginMeans clock s s' (granted grant) =
    IsFree (clock 0) s.receive_lease
    × (s'.receive_lease ≡ some grant.lease)
    × (grant.lease.expires_at ≡ clock 1 + receive_lease_ttl_ms)

pub unexpired-none : (now : ℕ) (o : Option RepoLease) → unexpired now o ≡ none → IsFree now o
unfolding unexpired
unexpired-none now none h = inl refl
unexpired-none now (some held) h = inr (held, refl, ground arith)

pub unexpired-some :
    (now : ℕ) (o : Option RepoLease) (lease : RepoLease)
    → unexpired now o ≡ some lease
    → (o ≡ some lease) × (now < lease.expires_at)
unfolding unexpired
unexpired-some now none lease h = absurd (none-ne-some lease h)
unexpired-some now (some held) lease h = ground arith

grant-BeginMeans :
    (clock : ℕ → ℕ) (uuid : String) (s s₁ : RepoStateSchema) (left : Option RepoLease)
    → unexpired (clock 0) s.receive_lease ≡ left
    → s₁.receive_lease ≡ left
    → BeginMeans clock s
        (grant_receive (clock 1) uuid left s₁).0
        (grant_receive (clock 1) uuid left s₁).1
unfolding grant_receive lease_receive
grant-BeginMeans clock uuid s s₁ none h e = (unexpired-none (clock 0) s.receive_lease h, refl, refl)
grant-BeginMeans clock uuid s s₁ (some lease) h e =
    let (stored, before) = unexpired-some (clock 0) s.receive_lease lease h in
    (lease, stored, before, e)

-- A push begins exactly when no other push holds a lease that has not expired: a refusal says that
-- there is such a lease, which stays in place; a grant says that there was none, and the lease that
-- it returns is stored, to expire a fixed time after the second reading of the clock.
pub begin_receive-BeginMeans :
    (clock : ℕ → ℕ) (uuid : String) (s : RepoStateSchema)
    → BeginMeans clock s (begin_receive_lease clock uuid s).0 (begin_receive_lease clock uuid s).1
unfolding begin_receive_lease clear_expired_leases
begin_receive-BeginMeans clock uuid s =
    grant-BeginMeans clock uuid s (clear_expired_leases (clock 0) s)
      (unexpired (clock 0) s.receive_lease) refl refl
