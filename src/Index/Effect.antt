-- ===== src/Index/Effect.antt =====
-- What can be found in the index after `AddStage`.
use dgit.Prelude.{
  ◌≡◌, inl, inr, Bool, true, List, [], ◌∷◌, Bytes, ==_iff, bytes_eq_iff, Bool-cases, All, arith,
}
use dgit.Index.Entry.{IndexEntry, Index, stage, keep}
use dgit.Index.Stages.{
  remove_unmerged_stages, stays_merged, WorkTree, Options, Addition, add_stage_body, add_stage,
}

-- An entry of the path stands at stage 0.
abbrev pub IsMerged : Bytes → IndexEntry → Type 0
IsMerged path e = e.path_name ≡ path → stage e ≡ 0

stays_merged-IsMerged :
    (path : Bytes) (e : IndexEntry) → stays_merged path e ≡ true → IsMerged path e
unfolding stays_merged
stays_merged-IsMerged path e h p = ground (arith, bytes_eq_iff e.path_name path)

keep-All :
    (P : IndexEntry → Type 0) (p : IndexEntry → Bool)
    → ((e : IndexEntry) → p e ≡ true → P e)
    → (xs : List IndexEntry) → All P (keep p xs)
unfolding keep
keep-All P p f [] = tt
keep-All P p f (x ∷ xs) = elim (Bool-cases (p x)) [
  | inl e ↦ rw (e, keep) (f x e, keep-All P p f xs)
  | inr e ↦ rw (e, keep) (keep-All P p f xs)
]

-- Adding at stage 0 leaves no other stage of the path. That holds where the addition fails too: an
-- unmerged path that is refused loses its stages.
pub add_stage-IsMerged :
    (c : WorkTree) (opts : Options) (a : Addition) (g : Index)
    → a.stage ≡ 0
    → All (IsMerged a.path) ((add_stage c opts a g).0.objects)
unfolding add_stage remove_unmerged_stages
add_stage-IsMerged c opts a g z = rw ((==_iff a.stage 0).1 z) (
    keep-All (IsMerged a.path) (stays_merged a.path) (stays_merged-IsMerged a.path)
      (add_stage_body c opts a g).0.objects)
