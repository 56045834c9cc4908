-- ===== src/Objects/Children.antt =====
-- The two parsers of trees, of src/worker/git/core/object-parse.ts and of
-- src/worker/git/operations/read/objects.ts.
use gitedge.Shared.{
  ℕ, zero, suc, ◌≡◌, refl, ap, List, [], ◌∷◌, map, ltb, if◌then◌else◌, length, take, drop,
  Bool-cases, inl, inr,
}
use gitedge.Objects.{
  bytes_to_hex, until, from, tree_loop, parse_tree, child_loop, parse_tree_child_oids,
}

child-tree_loop :
    (decode : List ℕ → List ℕ) (fuel : ℕ) (buf : List ℕ)
    → child_loop fuel buf ≡ map (λ e. e.oid) (tree_loop decode fuel buf)
unfolding child_loop tree_loop
child-tree_loop decode zero buf = refl
child-tree_loop decode (suc fuel) buf = go (λ s. child-tree_loop decode fuel s) (from b' ' buf)
  where
    go :
        ((s : List ℕ) → child_loop fuel s ≡ map (λ e. e.oid) (tree_loop decode fuel s))
        → (at_space : List ℕ)
        → elim at_space [
          | [] ↦ []
          | sp ∷ tail ↦
              let at_nul = from 0 tail in
              let rest = child_loop fuel (drop 21 at_nul) in
              if ltb (length at_nul) 20 then [] else bytes_to_hex (take 20 (drop 1 at_nul)) ∷ rest
        ]
          ≡ map
              (λ e. e.oid)
              (elim at_space [
                | [] ↦ []
                | sp ∷ tail ↦
                    let at_nul = from 0 tail in
                    let rest = tree_loop decode fuel (drop 21 at_nul) in
                    if ltb (length at_nul) 20
                    then []
                    else (record {
                      mode = decode (until b' ' buf);
                      name = decode (until 0 tail);
                      oid = bytes_to_hex (take 20 (drop 1 at_nul));
                    })
                      ∷ rest
              ])
    go rest [] = refl
    go rest (sp ∷ tail) = elim (Bool-cases (ltb (length (from 0 tail)) 20)) [
      | inl t ↦ rw t refl
      | inr f ↦
          rw f (
            ap (◌∷◌ (bytes_to_hex (take 20 (drop 1 (from 0 tail))))) (rest (drop 21 (from 0 tail))))
    ]

-- The two parsers of trees agree on any bytes, malformed ones included: the children that one lists
-- are the names of objects in the entries that the other lists, in their order.
pub child-parse_tree :
    (decode : List ℕ → List ℕ) (payload : List ℕ)
    → parse_tree_child_oids payload ≡ map (λ e. e.oid) (parse_tree decode payload)
child-parse_tree decode payload =
    unfold parse_tree parse_tree_child_oids in child-tree_loop decode (length payload) payload
