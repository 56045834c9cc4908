-- ===== src/Patch/Limited.antt =====
-- readCommitFilePatch keeps its limits: what a patch that it returns is about.
use gitedge.Shared.{
  ℕ, ◌≤◌, ◌<◌, ◌≡◌, ◌⊎◌, refl, true, false, ◌||◌, Bool, List, [], Option, none, some, ltb, length,
  is_some, find, or_else, Bool-cases, inl, inr, arith,
}
use gitedge.Shared.Text.{codes_eq}
use gitedge.Patch.{to_patch_lines, diff_lines}
use gitedge.Patch.Best.{IsScript, diff-IsBest}
use gitedge.Patch.Unified.{build_unified_patch}
use gitedge.Patch.File.{
  CommitDiffEntry, CommitFilePatchResult, Platform, PatchLimits, detect_binary, bytes_to_text,
  load_blob, is_missing, text_result, content_result, entry_result, read_commit_file_patch,
}

neither : (a b : Bool) → (a || b) ≡ false → (a ≡ false) × (b ≡ false)
neither false false e = (refl, refl)
neither false true e = absurd (ground (arith, e))
neither true b e = absurd (ground (arith, e))

within : (limit n : ℕ) → ltb limit n ≡ false → n ≤ limit
within limit n e = ground (arith, e)

-- Without a patch there is a reason.
abbrev pub IsSkipped : CommitFilePatchResult → Type 0
IsSkipped r = (r.patch ≡ none) × (is_some r.skip_reason ≡ true)

-- The patch of two texts within the limits, from a script between their lines.
abbrev pub IsTextPatch :
    Platform
    → PatchLimits
    → List ℕ
    → CommitDiffEntry
    → List ℕ
    → List ℕ
    → CommitFilePatchResult
    → Type 0
IsTextPatch p limits path entry old new r =
    (r.patch ≡ some (build_unified_patch path entry.change_type old new))
    × (r.skip_reason ≡ none)
    × (length (p.encode (build_unified_patch path entry.change_type old new))
        ≤ limits.max_patch_bytes)
    × (length (to_patch_lines old) ≤ limits.max_lines)
    × (length (to_patch_lines new) ≤ limits.max_lines)
    × IsScript (to_patch_lines old) (to_patch_lines new)
        (diff_lines (to_patch_lines old) (to_patch_lines new))

abbrev pub IsContent : PatchLimits → List ℕ → Type 0
IsContent limits bytes = (length bytes ≤ limits.max_blob_bytes) × (detect_binary bytes ≡ false)

abbrev pub IsContentPatch :
    Platform
    → PatchLimits
    → List ℕ
    → CommitDiffEntry
    → List ℕ
    → List ℕ
    → CommitFilePatchResult
    → Type 0
IsContentPatch p limits path entry old new r =
    IsContent limits old
    × IsContent limits new
    × IsTextPatch p limits path entry (bytes_to_text p old) (bytes_to_text p new) r

abbrev pub content_of : Platform → Option (List ℕ) → List ℕ
content_of p oid = or_else (load_blob p oid).content []

-- The patch of the entry, whose contents are all there.
abbrev pub IsEntryPatch :
    Platform → PatchLimits → List ℕ → CommitDiffEntry → CommitFilePatchResult → Type 0
IsEntryPatch p limits path entry r =
    (is_missing entry.old_oid (load_blob p entry.old_oid) ≡ false)
    × (is_missing entry.new_oid (load_blob p entry.new_oid) ≡ false)
    × IsContentPatch p limits path entry (content_of p entry.old_oid) (content_of p entry.new_oid) r

module _ (p : Platform) (limits : PatchLimits) (few : limits.max_lines < 65536) (path : List ℕ)
    (entry : CommitDiffEntry) where
  text-means :
      (old new : List ℕ)
      → IsSkipped (text_result p limits path entry old new)
        ⊎ IsTextPatch p limits path entry old new (text_result p limits path entry old new)
  unfolding text_result
  text-means old new =
      elim (Bool-cases (
        ltb limits.max_lines (length (to_patch_lines old))
        || ltb limits.max_lines (length (to_patch_lines new)))) [
          | inl t ↦ rw t (inl (refl, refl))
          | inr f ↦
              elim (Bool-cases (
                ltb limits.max_patch_bytes
                  (length (p.encode (build_unified_patch path entry.change_type old new))))) [
                    | inl t ↦ rw (f, t) (inl (refl, refl))
                    | inr g ↦
                        let few_new : length (to_patch_lines new) ≤ limits.max_lines =
                          within limits.max_lines (length (to_patch_lines new))
                            (neither (ltb limits.max_lines (length (to_patch_lines old)))
                              (ltb limits.max_lines (length (to_patch_lines new))) f).1 in
                        let small : length (to_patch_lines new) < 65536 =
                          omega (arith, few, few_new) in
                        rw (f, g)
                          (inr (
                            refl,
                            refl,
                            within _ _ g,
                            within _ _ (neither _ _ f).0,
                            few_new,
                            (diff-IsBest (to_patch_lines old) (to_patch_lines new) small).0,
                          ))
                  ]
        ]

  content-means :
      (old new : List ℕ)
      → IsSkipped (content_result p limits path entry old new)
        ⊎ IsContentPatch p limits path entry old new (content_result p limits path entry old new)
  unfolding content_result
  content-means old new =
      elim (Bool-cases
        (ltb limits.max_blob_bytes (length old) || ltb limits.max_blob_bytes (length new))) [
          | inl t ↦ rw t (inl (refl, refl))
          | inr f ↦ elim (Bool-cases (detect_binary old || detect_binary new)) [
            | inl t ↦ rw (f, t) (inl (refl, refl))
            | inr g ↦
                rw (f, g)
                  (elim (text-means (bytes_to_text p old) (bytes_to_text p new)) [
                    | inl s ↦ inl s
                    | inr t ↦ inr (
                      (within _ _ (neither _ _ f).0, (neither _ _ g).0),
                      (within _ _ (neither _ _ f).1, (neither _ _ g).1),
                      t,
                    )
                  ])
          ]
        ]

  entry-means :
      IsSkipped (entry_result p limits path entry)
      ⊎ IsEntryPatch p limits path entry (entry_result p limits path entry)
  unfolding entry_result
  entry-means =
      elim (Bool-cases (
        is_missing entry.old_oid (load_blob p entry.old_oid)
        || is_missing entry.new_oid (load_blob p entry.new_oid))) [
          | inl t ↦ rw t (inl (refl, refl))
          | inr f ↦
              rw f (elim (content-means (content_of p entry.old_oid) (content_of p entry.new_oid)) [
                | inl s ↦ inl s
                | inr t ↦ inr ((neither _ _ f).0, (neither _ _ f).1, t)
              ])
        ]

-- With a limit of lines below 65536, a call either gives a reason and no patch, or it gives the patch
-- of the first entry with the path, and no reason. Then both contents are there if their names are
-- given, none is larger than the limit or binary, neither text has more lines than the limit, the
-- encoded patch is within its limit, and the script that it is made of turns the old lines into the
-- new ones.
pub read-IsLimited :
    (p : Platform) (limits : PatchLimits) (entries : List CommitDiffEntry) (path : List ℕ)
    → limits.max_lines < 65536
    → IsSkipped (read_commit_file_patch p limits entries path)
      ⊎ ((entry : CommitDiffEntry) × (find (λ e. codes_eq e.path path) entries ≡ some entry)
          × IsEntryPatch p limits path entry (read_commit_file_patch p limits entries path))
unfolding read_commit_file_patch
read-IsLimited p limits entries path few = go (find (λ e. codes_eq e.path path) entries) refl
  where
    go :
        (found : Option CommitDiffEntry)
        → find (λ e. codes_eq e.path path) entries ≡ found
        → IsSkipped (read_commit_file_patch p limits entries path)
          ⊎ ((entry : CommitDiffEntry) × (find (λ e. codes_eq e.path path) entries ≡ some entry)
              × IsEntryPatch p limits path entry (read_commit_file_patch p limits entries path))
    go none e = rw (e, read_commit_file_patch) (inl (refl, refl))
    go (some entry) e =
        rw (e, read_commit_file_patch)
          (elim (entry-means p limits few path entry) [
            | inl s ↦ inl s
            | inr t ↦ inr (entry, refl, t)
          ])
