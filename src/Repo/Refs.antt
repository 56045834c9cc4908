-- ===== src/Repo/Refs.antt =====
-- src/worker/git/operations/validation.ts and src/worker/do/repo/refs.ts: refs, HEAD, and the
-- commands of a push. Object names are compared by ASCII lower case.
pub mod Names
pub mod Commands
use gitedge.Shared.{
  ℕ, String, Bool, true, false, ◌&&◌, ◌||◌, List, [], ◌∷◌, Option, none, some, map, ◌==◌, leb,
  if◌then◌else◌, or_else, is_some, replicate, find, any,
}
use gitedge.Shared.Text.{
  str_eq, codes, codes_eq, is_empty, starts_with, ends_with, includes, split, to_lower,
}
use gitedge.Shared.Dict.{lookup, insert, erase, insert_all}
use gitedge.Repo.State.{Ref, Head, RepoStateSchema}

pub record ReceiveCommand : Type 0 where
  pub old_oid : String
  pub new_oid : String
  pub ref : String

pub record ReceiveStatus : Type 0 where
  pub ref : String
  pub ok : Bool
  pub msg : Option String

-- `/^0{40}$/i`
unfoldable pub is_zero_oid : String → Bool
unfolding codes_eq
is_zero_oid s = codes_eq (codes s) (replicate 40 b'0')

unfoldable pub same_oid : String → String → Bool
unfolding codes_eq to_lower
same_oid a b = codes_eq (map to_lower (codes a)) (map to_lower (codes b))

-- `/[\x00-\x20~^:?*\[]/`
unfoldable pub is_forbidden : ℕ → Bool
is_forbidden c =
    leb c 0x20 || c == b'~' || c == b'^' || c == b':' || c == b'?' || c == b'*' || c == b'['

unfoldable pub is_dots : List ℕ → Bool
unfolding codes_eq
is_dots w = codes_eq w (codes ".") || codes_eq w (codes "..")

-- `isValidRefName` on the codes of the name.
unfoldable pub is_valid_ref_codes : List ℕ → Bool
unfolding codes_eq starts_with ends_with includes split is_forbidden is_dots
is_valid_ref_codes s =
    if codes_eq s [] || codes_eq s (codes "HEAD")
    then false
    else if starts_with (codes "refs/") s
    then if any is_forbidden s
      then false
      else if includes (codes "//") s || starts_with (codes "/") s || ends_with (codes "/") s
      then false
      else if any is_dots (split b'/' s)
      then false
      else if ends_with (codes ".") s || ends_with (codes ".lock") s
      then false
      else if includes (codes "@{") s
      then false
      else if includes (codes "\\") s
      then false
      else true
    else false

unfoldable pub is_valid_ref_name : String → Bool
unfolding is_valid_ref_codes
is_valid_ref_name name = is_valid_ref_codes (codes name)

-- `new Map(refs.map((ref) => [ref.name, ref.oid]))`
unfoldable pub ref_map : List Ref → List (String × String)
unfolding insert_all insert
ref_map refs = insert_all (map (λ r. (r.name, r.oid)) refs) []

-- What `map.get(name)` gives where it is truthy.
unfoldable pub current_oid : String → List (String × String) → Option String
unfolding lookup
current_oid name m = elim (lookup name m) [
  | none ↦ none
  | some oid ↦ if is_empty oid then none else some oid
]

abbrev accept : String → ReceiveStatus
accept ref = record { ref = ref; ok = true; msg = none }

abbrev refuse : String → String → ReceiveStatus
refuse ref msg = record { ref = ref; ok = false; msg = some msg }

-- One round of the loop of `validateReceiveCommands`.
unfoldable pub validate_command : List (String × String) → ReceiveCommand → ReceiveStatus
unfolding current_oid is_zero_oid same_oid
validate_command m command =
    if is_zero_oid command.new_oid
    then elim (current_oid command.ref m) [
      | none ↦ refuse command.ref "no such ref"
      | some current ↦
          if same_oid current command.old_oid
          then accept command.ref
          else refuse command.ref "stale old-oid"
    ]
    else elim (current_oid command.ref m) [
      | none ↦
          if is_zero_oid command.old_oid
          then accept command.ref
          else refuse command.ref "expected zero old-oid"
      | some current ↦
          if same_oid current command.old_oid
          then accept command.ref
          else refuse command.ref "stale old-oid"
    ]

unfoldable pub validate_receive_commands : List Ref → List ReceiveCommand → List ReceiveStatus
unfolding validate_command ref_map
validate_receive_commands refs commands = map (validate_command (ref_map refs)) commands

unfoldable pub apply_command : ReceiveCommand → List (String × String) → List (String × String)
unfolding is_zero_oid insert erase
apply_command command m =
    if is_zero_oid command.new_oid
    then erase command.ref m
    else insert command.ref command.new_oid m

unfoldable pub apply_all : List ReceiveCommand → List (String × String) → List (String × String)
unfolding apply_command
apply_all [] m = m
apply_all (c ∷ cs) m = apply_all cs (apply_command c m)

-- `Array.from(refMap, ([name, oid]) => ({ name, oid }))`
unfoldable pub from_map : List (String × String) → List Ref
from_map [] = []
from_map ((name, oid) ∷ m) = record { name = name; oid = oid } ∷ from_map m

unfoldable pub apply_receive_commands : List Ref → List ReceiveCommand → List Ref
unfolding apply_all ref_map from_map
apply_receive_commands refs commands = from_map (apply_all commands (ref_map refs))

abbrev pub default_target : String
default_target = "refs/heads/main"

unfoldable pub get_refs : RepoStateSchema → List Ref
get_refs s = or_else s.refs []

unfoldable pub set_refs : List Ref → RepoStateSchema → RepoStateSchema
set_refs refs s = record s { refs = some refs }

unfoldable pub set_head : Head → RepoStateSchema → RepoStateSchema
set_head head s = record s { head = some head }

-- `stored?.target || "refs/heads/main"`
unfoldable pub head_target : Option Head → String
head_target none = default_target
head_target (some h) = if is_empty h.target then default_target else h.target

unfoldable pub find_ref : String → List Ref → Option Ref
find_ref target refs = find (λ r. str_eq r.name target) refs

-- The resolution that `resolveHead` and `resolveHeadAfterReceive` share.
unfoldable pub resolve_target : Option Head → List Ref → Head
unfolding head_target find_ref
resolve_target stored refs = elim (find_ref (head_target stored) refs) [
  | none ↦ record { target = head_target stored; oid = none; unborn = true }
  | some r ↦ record { target = head_target stored; oid = some r.oid; unborn = false }
]

unfoldable pub opt_str_eq : Option String → Option String → Bool
opt_str_eq none none = true
opt_str_eq none (some b) = false
opt_str_eq (some a) none = false
opt_str_eq (some a) (some b) = str_eq a b

-- `storedOid || resolvedOid`
abbrev truthy : Option String → Bool
truthy none = false
truthy (some a) = if is_empty a then false else true

abbrev bool_eq : Bool → Bool → Bool
bool_eq true b = b
bool_eq false b = if b then false else true

unfoldable pub same_head : Head → Head → Bool
unfolding opt_str_eq
same_head stored resolved =
    str_eq stored.target resolved.target
    && opt_str_eq stored.oid resolved.oid
    && (if truthy stored.oid || truthy resolved.oid
        then true
        else bool_eq stored.unborn resolved.unborn)

unfoldable pub update_head_if_changed : Head → RepoStateSchema → RepoStateSchema
unfolding same_head
update_head_if_changed resolved s = elim s.head [
  | none ↦ record s { head = some resolved }
  | some stored ↦ if same_head stored resolved then s else record s { head = some resolved }
]

unfoldable pub resolve_head : RepoStateSchema → RepoStateSchema × Head
unfolding resolve_target get_refs update_head_if_changed
resolve_head s =
    let resolved = resolve_target s.head (get_refs s) in
    (update_head_if_changed resolved s, resolved)

unfoldable pub get_head_and_refs : RepoStateSchema → RepoStateSchema × Head × List Ref
unfolding resolve_head get_refs
get_head_and_refs s = let (s', head) = resolve_head s in (s', head, get_refs s)
