-- ===== src/Repo/Receive/Laws.antt =====
-- What the end of a push changes.
use gitedge.Shared.{
  ℕ, ◌+◌, ◌≡◌, refl, String, true, false, List, [], ◌∷◌, none, some, inl, inr, or_number, or_else,
  every, is_nil, All, Bool-cases, arith,
}
use mathlib.Core.Bool.{false≢true}
use gitedge.Repo.State.{RepoStateSchema}
use gitedge.Repo.Metadata.{ensure_repo_metadata_defaults}
use gitedge.Repo.Refs.{
  ReceiveCommand, ReceiveStatus, is_valid_ref_name, validate_receive_commands, get_refs,
  resolve_target, ref_map, current_oid,
}
use gitedge.Repo.Refs.Commands.{
  HasUniqueNames, oid_of, outcome, last_command, oid_of-apply, validate_iff, Accepts,
  apply-HasUniqueNames,
}
use gitedge.Repo.Content.{SameContent, defaults-SameContent, dropped-SameContent}
use gitedge.Repo.Leases.{holds_token}
use gitedge.Repo.Receive.Staged.{IsStored, add-IsStored, defaults-IsStored, kept-IsStored}
use gitedge.Repo.Receive.{
  FinalizeArgs, FinalizeReceiveResult, committed, ref_conflict, lease_mismatch, invalid_statuses,
  add_staged_pack, commit_refs, finalize_receive_state,
}

-- The three ways in which a push can end.
pub finalize_cases {ℓ} :
    (P : RepoStateSchema × FinalizeReceiveResult → Type ℓ) (clock : ℕ → ℕ) (args : FinalizeArgs)
    (s : RepoStateSchema)
    → (holds_token s.receive_lease args.token ≡ false
        → P (ensure_repo_metadata_defaults s, lease_mismatch))
    → (holds_token s.receive_lease args.token ≡ true
        → (statuses : List ReceiveStatus)
        → P (
          record (ensure_repo_metadata_defaults s) { receive_lease = none },
          ref_conflict statuses,
        ))
    → (holds_token s.receive_lease args.token ≡ true
        → is_nil (invalid_statuses args.commands) ≡ true
        → every (λ status. status.ok) (validate_receive_commands (get_refs s) args.commands) ≡ true
        → P (
            commit_refs clock args
              (validate_receive_commands (get_refs s) args.commands)
              (ensure_repo_metadata_defaults s)))
    → P (finalize_receive_state clock args s)
unfolding finalize_receive_state get_refs
finalize_cases P clock args s mismatch conflict commit =
    elim (Bool-cases (holds_token s.receive_lease args.token)) [
      | inr n ↦ rw n (mismatch n)
      | inl y ↦ elim (Bool-cases (is_nil (invalid_statuses args.commands))) [
        | inr n ↦ rw (y, n) (conflict y _)
        | inl v ↦
            elim (Bool-cases (
              every (λ status. status.ok)
                (validate_receive_commands (or_else s.refs []) args.commands))) [
                  | inr n ↦ rw (y, v, n) (conflict y _)
                  | inl o ↦ rw (y, v, o) (commit y v o)
                ]
      ]
    ]

-- A push that went through.
pub record IsPushed (clock : ℕ → ℕ) (args : FinalizeArgs) (s s' : RepoStateSchema) : Type 0 where
  pub held : holds_token s.receive_lease args.token ≡ true
  pub released : s'.receive_lease ≡ none
  pub names : All (λ c. is_valid_ref_name c.ref ≡ true) args.commands
  pub agreed : All (λ c. Accepts (current_oid c.ref (ref_map (get_refs s))) c) args.commands
  pub moved :
      (k : String)
      → oid_of k (get_refs s') ≡ outcome (last_command k args.commands) (oid_of k (get_refs s))
  pub unique : HasUniqueNames (get_refs s')
  pub head : s'.head ≡ some (resolve_target s.head (get_refs s'))
  pub stored : IsStored (clock 0) args.staged_pack s s'
  pub next_version : s'.refs_version ≡ some (or_number s.refs_version 0 + 1)

-- What each answer of `finalizeReceiveState` means.
abbrev pub FinalizeMeans :
    (ℕ → ℕ) → FinalizeArgs → RepoStateSchema → RepoStateSchema → FinalizeReceiveResult → Type 0
FinalizeMeans clock args s s' (committed done) = IsPushed clock args s s'
FinalizeMeans clock args s s' (ref_conflict statuses) = SameContent s s' × (s'.receive_lease ≡ none)
FinalizeMeans clock args s s' lease_mismatch =
    SameContent s s' × (s'.receive_lease ≡ s.receive_lease)

names_valid :
    (cs : List ReceiveCommand)
    → is_nil (invalid_statuses cs) ≡ true
    → All (λ c. is_valid_ref_name c.ref ≡ true) cs
unfolding invalid_statuses
names_valid [] h = tt
names_valid (c ∷ cs) h = elim (Bool-cases (is_valid_ref_name c.ref)) [
  | inl v ↦ (v, names_valid cs (rw v at h))
  | inr n ↦ absurd (false≢true (rw n at h))
]

commit_refs-IsPushed :
    (clock : ℕ → ℕ) (args : FinalizeArgs) (statuses : List ReceiveStatus) (s : RepoStateSchema)
    → HasUniqueNames (get_refs s)
    → holds_token s.receive_lease args.token ≡ true
    → is_nil (invalid_statuses args.commands) ≡ true
    → every (λ status. status.ok) (validate_receive_commands (get_refs s) args.commands) ≡ true
    → IsPushed clock args s (commit_refs clock args statuses (ensure_repo_metadata_defaults s)).0
unfolding commit_refs ensure_repo_metadata_defaults get_refs
commit_refs-IsPushed clock args statuses s u y v o = record {
  held = y;
  released = refl;
  names = names_valid args.commands v;
  agreed = (validate_iff (or_else s.refs []) args.commands).0 o;
  moved = λ k. oid_of-apply k (or_else s.refs []) args.commands u;
  unique = apply-HasUniqueNames (or_else s.refs []) args.commands;
  head = refl;
  stored =
      let d = ensure_repo_metadata_defaults s in
      kept-IsStored (clock 0) args.staged_pack s (add_staged_pack clock args.staged_pack d).0 _ refl
        refl refl
        (defaults-IsStored (clock 0) args.staged_pack s _ (add-IsStored clock args.staged_pack d));
  next_version = ground arith;
}

-- If the stored refs have distinct names, a push either goes through whole or changes no content. It goes through only under the caller's
-- lease, with valid ref names, and if every command agrees with the stored refs; then each ref is
-- what the last command on it says, the names stay distinct, HEAD is resolved in the new refs, the
-- pack of the push, if any, is an active row under the next sequence number and no other row
-- changes, the version of the refs is one higher, as is that of the packs with a pack, and the lease
-- is released. A conflict releases the lease too, and a foreign token leaves it.
pub finalize-FinalizeMeans :
    (clock : ℕ → ℕ) (args : FinalizeArgs) (s : RepoStateSchema)
    → HasUniqueNames (get_refs s)
    → FinalizeMeans clock args s
        (finalize_receive_state clock args s).0
        (finalize_receive_state clock args s).1
unfolding commit_refs
finalize-FinalizeMeans clock args s u =
    finalize_cases (λ r. FinalizeMeans clock args s r.0 r.1) clock args s
      (λ n. (defaults-SameContent s, unfold ensure_repo_metadata_defaults in refl))
      (λ y statuses. (dropped-SameContent s, refl))
      (λ y v o.
        commit_refs-IsPushed clock args (validate_receive_commands (get_refs s) args.commands) s u y
          v o)
