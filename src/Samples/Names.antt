-- ===== src/Samples/Names.antt =====
-- Refspecs, and a mode that is read.
use dgit.Prelude.{◌≡◌, refl, true, codes, bytes_eq}
use dgit.RefSpec.{split_colon, drop_plus, src, dst}
use dgit.EntryMode.{mode_from_string}

forced_src : src (codes "+heads/a:remotes/a") ≡ codes "heads/a"
unfolding src split_colon drop_plus
forced_src = refl

forced_dst : dst (codes "+heads/a:remotes/a") ≡ codes "remotes/a"
unfolding dst split_colon drop_plus
forced_dst = refl

blob_reads : (mode_from_string (codes "100644")).1 ≡ true
unfolding mode_from_string bytes_eq
blob_reads = refl
