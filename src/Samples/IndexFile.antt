-- ===== src/Samples/IndexFile.antt =====
-- An index of version 3 with two entries, one of which has an extension.
use dgit.Prelude.{
  ℕ, ◌+◌, ◌^◌, ◌≡◌, refl, [], ◌∷◌, ◌++◌, map, Bytes, codes, length, drop, Option, none, some, All,
  arith, bytes_eq,
}
use dgit.Index.Entry.{
  IndexEntry, Index, extended_flag, stage_bits, less, less_bytes, insert_sorted, sort_by_path,
}
use dgit.Index.Format.{
  zeros, fixed_bytes, padding, name_bytes, write_entry, write_entries, index_content, write_index,
  entry_read, read_index_entry, index_read, read_index,
}
use dgit.Index.Decoding.{Fits, skipped, entry_skipped}
use dgit.Index.EntryTrip.{HasExtension, kept, read_index_entry-write_entry}
use dgit.Index.FileTrip.{IsStorable, read_index-write_index}

abbrev id : Bytes
id = codes "aaaaaaaaaaaaaaaaaaaa"

abbrev entry : Bytes → ℕ → Option ℕ → IndexEntry
entry path bits x = record {
  ctime = 5;
  ctimenano = 6;
  mtime = 2 ^ 40 + 7;
  dev = 1;
  ino = 2;
  mode = 0x81a4;
  uid = 3;
  gid = 4;
  fsize = 70000;
  sha1 = id;
  flags = bits + length path;
  extensions = x;
  path_name = path;
}

abbrev plain : IndexEntry
plain = entry (codes "src/b") 0 none

abbrev extended : IndexEntry
extended = entry (codes "a") (2 ^ 14) (some (2 ^ 14))

abbrev both : Index
both = record { version = 3; number_index_entries = 2; objects = plain ∷ extended ∷ [] }

written : Option Bytes → Bytes
written none = []
written (some b) = b

abbrev file : Bytes
file = written (write_index (λ b. codes "hash") both)

both_written : write_index (λ b. codes "hash") both ≡ some file
unfolding write_index index_content write_entries write_entry fixed_bytes name_bytes padding zeros
    extended_flag sort_by_path insert_sorted less less_bytes stage_bits bytes_eq written
both_written = refl

plain-Fits : (x : Option ℕ) → Fits (entry (codes "src/b") 0 x)
plain-Fits x = record {
  ctime = omega arith;
  ctimenano = omega arith;
  mtime = omega arith;
  dev = omega arith;
  ino = omega arith;
  mode = omega arith;
  uid = omega arith;
  gid = omega arith;
  fsize = omega arith;
  sha1 = refl;
  flags = omega arith;
  name_length = refl;
  no_nul = λ l. absurd (omega (arith, l));
}

extended-Fits : Fits extended
extended-Fits = record {
  ctime = omega arith;
  ctimenano = omega arith;
  mtime = omega arith;
  dev = omega arith;
  ino = omega arith;
  mode = omega arith;
  uid = omega arith;
  gid = omega arith;
  fsize = omega arith;
  sha1 = refl;
  flags = omega arith;
  name_length = refl;
  no_nul = λ l. absurd (omega (arith, l));
}

plain-HasExtension : HasExtension plain
unfolding extended_flag
plain-HasExtension = record { some_flags = λ e. cc e; no_flags = λ e. refl }

extended-HasExtension : HasExtension extended
unfolding extended_flag
extended-HasExtension = record {
  some_flags = λ e. (2 ^ 14, omega arith, refl);
  no_flags = λ e. cc e;
}

both-IsStorable : All IsStorable both.objects
unfolding skipped
both-IsStorable = (
  record { fits = plain-Fits none; extension = plain-HasExtension; nothing_skipped = refl },
  (record { fits = extended-Fits; extension = extended-HasExtension; nothing_skipped = refl }, tt),
)

read_index-write_index_example :
    read_index (some file) ≡ index_read 3 2 (map some (sort_by_path both.objects))
read_index-write_index_example =
    read_index-write_index (λ b. codes "hash") both refl (omega arith) both-IsStorable both_written

-- The same entry with an extension and without the flag, as `AddStage` makes them.
abbrev added : IndexEntry
added = entry (codes "src/b") 0 (some 0)

added_bytes : Bytes
added_bytes = written (write_entry 2 added)

added_written : write_entry 2 added ≡ some added_bytes
unfolding added_bytes write_entry extended_flag written
added_written = refl

read_index_entry-write_entry_example :
    read_index_entry 2 (record { consumed = 12; rest = added_bytes ++ codes "rest" })
    ≡ entry_read (kept added) (record {
      consumed = 12 + length added_bytes + entry_skipped added;
      rest = drop (entry_skipped added) (codes "rest");
    })
unfolding extended_flag
read_index_entry-write_entry_example =
    read_index_entry-write_entry added 12 2 (codes "rest") (plain-Fits (some 0)) (λ y. cc y) refl
      refl added_written
