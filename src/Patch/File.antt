-- ===== src/Patch/File.antt =====
-- readCommitFilePatch of src/worker/git/operations/read/diff.ts, with detectBinary and bytesToText of
-- src/shared/web/format.ts. The entries that are listed for a commit are an argument; the store and
-- the text decoders and encoder of the platform are parameters, where `none` is what they throw.
use gitedge.Shared.{
  ℕ, Bool, true, false, ◌&&◌, ◌||◌, not, List, [], ◌∷◌, Option, none, some, ltb, ◌==◌,
  if◌then◌else◌, max, length, take, drop, is_nil, is_some, any, find, or_else,
}
use gitedge.Shared.Text.{codes, codes_eq, starts_with}
use gitedge.Patch.{to_patch_lines}
use gitedge.Patch.Unified.{CommitDiffChangeType, modify, build_unified_patch}

pub record CommitDiffEntry : Type 0 where
  pub path : List ℕ
  pub change_type : CommitDiffChangeType
  pub old_oid : Option (List ℕ)
  pub new_oid : Option (List ℕ)

pub data SkipReason : Type 0 where
  binary_file too_large not_found too_many_lines : SkipReason

-- `skipReason` is given where `skipped` is set.
pub record CommitFilePatchResult : Type 0 where
  pub path : List ℕ
  pub change_type : CommitDiffChangeType
  pub old_oid : Option (List ℕ)
  pub new_oid : Option (List ℕ)
  pub old_too_large : Bool
  pub new_too_large : Bool
  pub binary : Bool
  pub skip_reason : Option SkipReason
  pub patch : Option (List ℕ)

pub record Blob : Type 0 where
  pub content : Option (List ℕ)
  pub is_blob : Bool

pub record Platform : Type 0 where
  pub utf8 : List ℕ → List ℕ
  pub utf8_fatal : List ℕ → Option (List ℕ)
  pub utf16le : List ℕ → Option (List ℕ)
  pub utf16be : List ℕ → Option (List ℕ)
  pub encode : List ℕ → List ℕ
  pub read_blob : List ℕ → Blob

pub record PatchLimits : Type 0 where
  pub max_blob_bytes : ℕ
  pub max_patch_bytes : ℕ
  pub max_lines : ℕ

-- `Math.max(1, Math.floor(opts?.limit ?? limit))`
unfoldable pub limit_of : ℕ → Option ℕ → ℕ
limit_of standard opt = max 1 (or_else opt standard)

unfoldable pub limits_of : Option ℕ → Option ℕ → Option ℕ → PatchLimits
unfolding limit_of
limits_of blob_bytes patch_bytes lines = record {
  max_blob_bytes = limit_of 131072 blob_bytes;
  max_patch_bytes = limit_of 262144 patch_bytes;
  max_lines = limit_of 4000 lines;
}

unfoldable pub is_control : ℕ → Bool
is_control byte =
    byte == 0 || (ltb byte 32 && not (byte == 9) && not (byte == 10) && not (byte == 13))

unfoldable pub detect_binary : List ℕ → Bool
unfolding is_control
detect_binary bytes = any is_control (take 8192 bytes)

unfoldable pub utf8_text : Platform → List ℕ → List ℕ
utf8_text p bytes = or_else (p.utf8_fatal bytes) (codes "(binary content)")

unfoldable pub bytes_to_text : Platform → List ℕ → List ℕ
unfolding utf8_text starts_with
bytes_to_text p bytes =
    if is_nil bytes
    then []
    else if starts_with (0xef ∷ 0xbb ∷ 0xbf ∷ []) bytes
    then p.utf8 (drop 3 bytes)
    else if starts_with (0xff ∷ 0xfe ∷ []) bytes
    then or_else (p.utf16le (drop 2 bytes)) (utf8_text p bytes)
    else if starts_with (0xfe ∷ 0xff ∷ []) bytes
    then or_else (p.utf16be (drop 2 bytes)) (utf8_text p bytes)
    else utf8_text p bytes

-- A name that is given is not empty either.
unfoldable pub is_given : Option (List ℕ) → Bool
is_given none = false
is_given (some oid) = not (is_nil oid)

unfoldable pub load_blob : Platform → Option (List ℕ) → Blob
unfolding is_given
load_blob p oid =
    if is_given oid
    then p.read_blob (or_else oid [])
    else record { content = none; is_blob = false }

unfoldable pub is_missing : Option (List ℕ) → Blob → Bool
unfolding is_given
is_missing oid blob = is_given oid && (not blob.is_blob || not (is_some blob.content))

abbrev pub result_of : CommitDiffEntry → CommitFilePatchResult
result_of entry = record {
  path = entry.path;
  change_type = entry.change_type;
  old_oid = entry.old_oid;
  new_oid = entry.new_oid;
  old_too_large = false;
  new_too_large = false;
  binary = false;
  skip_reason = none;
  patch = none;
}

abbrev pub missing_result : List ℕ → CommitFilePatchResult
missing_result path = record {
  path = path;
  change_type = modify;
  old_oid = none;
  new_oid = none;
  old_too_large = false;
  new_too_large = false;
  binary = false;
  skip_reason = some not_found;
  patch = none;
}

-- The last steps, on the two texts.
unfoldable pub text_result :
    Platform → PatchLimits → List ℕ → CommitDiffEntry → List ℕ → List ℕ → CommitFilePatchResult
unfolding to_patch_lines build_unified_patch
text_result p limits path entry old_text new_text =
    let patch = build_unified_patch path entry.change_type old_text new_text in
    if ltb limits.max_lines (length (to_patch_lines old_text))
      || ltb limits.max_lines (length (to_patch_lines new_text))
    then record (result_of entry) { skip_reason = some too_many_lines }
    else if ltb limits.max_patch_bytes (length (p.encode patch))
    then record (result_of entry) { skip_reason = some too_large }
    else record (result_of entry) { patch = some patch }

-- The steps on the two contents.
unfoldable pub content_result :
    Platform → PatchLimits → List ℕ → CommitDiffEntry → List ℕ → List ℕ → CommitFilePatchResult
unfolding text_result detect_binary bytes_to_text
content_result p limits path entry old new =
    let old_too_large = ltb limits.max_blob_bytes (length old) in
    let new_too_large = ltb limits.max_blob_bytes (length new) in
    if old_too_large || new_too_large
    then record (result_of entry) {
      old_too_large = old_too_large;
      new_too_large = new_too_large;
      skip_reason = some too_large;
    }
    else if detect_binary old || detect_binary new
    then record (result_of entry) { binary = true; skip_reason = some binary_file }
    else text_result p limits path entry (bytes_to_text p old) (bytes_to_text p new)

unfoldable pub entry_result :
    Platform → PatchLimits → List ℕ → CommitDiffEntry → CommitFilePatchResult
unfolding content_result load_blob is_missing
entry_result p limits path entry =
    let old = load_blob p entry.old_oid in
    let new = load_blob p entry.new_oid in
    if is_missing entry.old_oid old || is_missing entry.new_oid new
    then record (result_of entry) { skip_reason = some not_found }
    else content_result p limits path entry (or_else old.content []) (or_else new.content [])

unfoldable pub read_commit_file_patch :
    Platform → PatchLimits → List CommitDiffEntry → List ℕ → CommitFilePatchResult
unfolding entry_result codes_eq
read_commit_file_patch p limits entries path = elim (find (λ e. codes_eq e.path path) entries) [
  | none ↦ missing_result path
  | some entry ↦ entry_result p limits path entry
]
