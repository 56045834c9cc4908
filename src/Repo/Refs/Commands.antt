-- ===== src/Repo/Refs/Commands.antt =====
-- The commands of a push: when they are accepted, and the refs that they leave.
use gitedge.Shared.{
  String, true, false, List, [], ◌∷◌, Option, none, some, map, ◌≡◌, refl, ◌∙◌, ap, ◌↔◌, ◌⊎◌, inl,
  inr, if◌then◌else◌, every, All, &&-eq-true, Option-cases, arith,
}
use gitedge.Shared.Text.{str_eq, str_eq_iff}
use gitedge.Shared.Dict.{
  lookup, insert, insert_all, lookup-insert, lookup-erase, IsMap, insert-IsMap, erase-IsMap,
  insert_all-IsMap,
}
use gitedge.Repo.State.{Ref}
use gitedge.Repo.Refs.{
  ReceiveCommand, is_zero_oid, same_oid, ref_map, current_oid, validate_command,
  validate_receive_commands, apply_command, apply_all, from_map, apply_receive_commands, find_ref,
}

-- The object that a ref names, if the ref is there.
abbrev pub oid_of : String → List Ref → Option String
oid_of name refs = elim (find_ref name refs) [ none ↦ none | some r ↦ some r.oid ]

-- No two refs have one name.
abbrev pub HasUniqueNames : List Ref → Type 0
HasUniqueNames refs = IsMap (map (λ (r : Ref). (r.name, r.oid)) refs)

oid_of-from_map : (k : String) (m : List (String × String)) → oid_of k (from_map m) ≡ lookup k m
unfolding find_ref from_map lookup
oid_of-from_map k [] = refl
oid_of-from_map k ((j, v) ∷ m) = ground (arith, oid_of-from_map k m)

lookup-entries :
    (k : String) (refs : List Ref)
    → lookup k (map (λ (r : Ref). (r.name, r.oid)) refs) ≡ oid_of k refs
unfolding lookup find_ref
lookup-entries k [] = refl
lookup-entries k (r ∷ refs) = ground (arith, lookup-entries k refs)

from_map-HasUniqueNames : (m : List (String × String)) → IsMap m → HasUniqueNames (from_map m)
unfolding from_map
from_map-HasUniqueNames [] h = tt
from_map-HasUniqueNames ((k, v) ∷ m) h =
    ground (arith, lookup-entries k (from_map m), oid_of-from_map k m, from_map-HasUniqueNames m)

abbrev first_of : Option String → Option String → Option String
first_of none o = o
first_of (some a) o = some a

lookup-insert_all :
    (k : String) (es m : List (String × String))
    → IsMap es
    → lookup k (insert_all es m) ≡ first_of (lookup k es) (lookup k m)
unfolding lookup insert_all
lookup-insert_all k [] m h = refl
lookup-insert_all k ((j, v) ∷ es) m h =
    ground (arith, str_eq_iff j k, lookup-insert_all k es (insert j v m), lookup-insert j k v m)

first_of-none : (o : Option String) → first_of o none ≡ o
first_of-none none = refl
first_of-none (some a) = refl

-- Refs with distinct names are a map.
pub lookup-ref_map :
    (k : String) (refs : List Ref) → HasUniqueNames refs → lookup k (ref_map refs) ≡ oid_of k refs
unfolding ref_map
lookup-ref_map k refs h =
    lookup-insert_all k _ [] h
    ∙ unfold lookup in
      first_of-none (lookup k (map (λ (r : Ref). (r.name, r.oid)) refs)) ∙ lookup-entries k refs

-- The last command that names a ref.
pub last_command : String → List ReceiveCommand → Option ReceiveCommand
last_command k [] = none
last_command k (c ∷ cs) = elim (last_command k cs) [
  | some d ↦ some d
  | none ↦ if str_eq c.ref k then some c else none
]

-- What a ref is after the commands: deleted, moved, or left alone.
pub outcome : Option ReceiveCommand → Option String → Option String
outcome none before = before
outcome (some c) before = if is_zero_oid c.new_oid then none else some c.new_oid

lookup-apply_all :
    (k : String) (cs : List ReceiveCommand) (m : List (String × String))
    → lookup k (apply_all cs m) ≡ outcome (last_command k cs) (lookup k m)
unfolding apply_all apply_command last_command outcome
lookup-apply_all k [] m = refl
lookup-apply_all k (c ∷ cs) m = ground (
  arith,
  lookup-apply_all k cs (apply_command c m),
  lookup-insert c.ref k c.new_oid m,
  lookup-erase c.ref k m,
)

-- If the stored refs have distinct names, then after a push every ref is what the last command on it says (deleted for a zero new
-- object name, else moved to it), and a ref that no command names is left alone.
pub oid_of-apply :
    (k : String) (refs : List Ref) (cs : List ReceiveCommand)
    → HasUniqueNames refs
    → oid_of k (apply_receive_commands refs cs) ≡ outcome (last_command k cs) (oid_of k refs)
unfolding apply_receive_commands
oid_of-apply k refs cs h =
    oid_of-from_map k _
    ∙ lookup-apply_all k cs (ref_map refs)
    ∙ ap (outcome (last_command k cs)) (lookup-ref_map k refs h)

apply_all-IsMap :
    (cs : List ReceiveCommand) (m : List (String × String)) → IsMap m → IsMap (apply_all cs m)
unfolding apply_all apply_command
apply_all-IsMap [] m h = h
apply_all-IsMap (c ∷ cs) m h = ground (
  arith,
  apply_all-IsMap cs (apply_command c m),
  insert-IsMap c.ref c.new_oid m,
  erase-IsMap c.ref m,
)

-- The refs that a push leaves have distinct names, whatever refs were stored before.
pub apply-HasUniqueNames :
    (refs : List Ref) (cs : List ReceiveCommand) → HasUniqueNames (apply_receive_commands refs cs)
unfolding apply_receive_commands ref_map
apply-HasUniqueNames refs cs =
    from_map-HasUniqueNames _
      (apply_all-IsMap cs _ (insert_all-IsMap (map (λ (r : Ref). (r.name, r.oid)) refs) [] tt))

-- What a command asks of the ref that it names: that it holds the command's old object name, or
-- that it is absent, the old object name is zero and the command creates it.
abbrev pub Accepts : Option String → ReceiveCommand → Type 0
Accepts current c =
    ((oid : String) × (current ≡ some oid) × (same_oid oid c.old_oid ≡ true))
    ⊎ ((current ≡ none) × (is_zero_oid c.old_oid ≡ true) × (is_zero_oid c.new_oid ≡ false))

validate_command-Accepts :
    (m : List (String × String)) (c : ReceiveCommand)
    → ((validate_command m c).ok ≡ true) ↔ Accepts (current_oid c.ref m) c
unfolding validate_command
validate_command-Accepts m c = elim (Option-cases (current_oid c.ref m)) [
  | inl e ↦ ground arith
  | inr (o, e) ↦ ground arith
]

-- The commands of a push are all accepted exactly when each of them agrees with the stored refs: the
-- ref holds the command's old object name, or it is absent, the old name is zero and the new one is not.
pub validate_iff :
    (refs : List Ref) (cs : List ReceiveCommand)
    → (every (λ status. status.ok) (validate_receive_commands refs cs) ≡ true)
      ↔ All (λ c. Accepts (current_oid c.ref (ref_map refs)) c) cs
unfolding validate_receive_commands
validate_iff refs [] = (λ _. tt, λ _. refl)
validate_iff refs (c ∷ cs) =
    let (head, head') = validate_command-Accepts (ref_map refs) c in
    let (rest, rest') = validate_iff refs cs in
    (λ h. let (a, b) = &&-eq-true _ _ h in (head a, rest b), λ h. rw (head' h.0) (rest' h.1))
