-- ===== src/Serving/Stream.antt =====
-- An import stream has every entry from height 0 up to the end height, once and in order.
use block_dn.Common.{◌<◌, ◌≡◌, ◌⊎◌, Option, none, some, List, ◌++◌, map}
use block_dn.Common.Int.{ℤ, pos, ◌+ℤ◌, ◌-ℤ◌, ◌≤ℤ◌, ◌<ℤ◌}
use block_dn.Common.Heights.{heights}
use block_dn.Common.Effect.{Result, ok}
use block_dn.External.{Bytes}
use block_dn.Files.{FileName}
use block_dn.Responses.{FileServer}
use block_dn.Entries.{concat}
use block_dn.Serving.{Route}
use block_dn.Serving.Import.{Streamed, complete, gap_at}

module _ {V : Type 0} (encode : V → Bytes) (entry : ℤ → V) where
  -- The encoded entries of a range.
  unfoldable pub range_bytes : ℤ → ℤ → Bytes
  range_bytes start end = concat encode (map entry (heights start end))

  module _ (disk : FileServer) (route : Route) (end : ℤ) where
    abbrev file_at : ℤ → Option Bytes
    file_at s = disk.contents (route.file_name s (s +ℤ pos route.entries_per_file -ℤ pos 1))

    -- Where the entries are: a file has those of its range, ends at `end` at the latest, and can be
    -- streamed to its end; and from a height that no file starts with, memory has the rest.
    pub record Sources : Type 0 where
      pub some_entries : 0 < route.entries_per_file
      pub files :
          (s : ℤ) (bytes : Bytes)
          → file_at s ≡ some bytes
          → bytes ≡ range_bytes s (s +ℤ pos route.entries_per_file -ℤ pos 1)
      pub unbroken : (name : FileName) → disk.breaks_after name ≡ none
      pub inside :
          (s : ℤ) (bytes : Bytes)
          → file_at s ≡ some bytes
          → pos 0 ≤ℤ s
          → s <ℤ end
          → s +ℤ pos route.entries_per_file ≤ℤ end
      pub rest :
          (g : ℤ) (out : Bytes)
          → pos 0 ≤ℤ g
          → g <ℤ end
          → file_at g ≡ none
          → (route.serialize g (end -ℤ pos 1) out).0 ≡ out ++ range_bytes g (end -ℤ pos 1)

    -- The loop ends at the end height, or at a gap below it, with all entries up to there.
    abbrev Reaches : Result Streamed → ℤ → Bytes → Type 0
    Reaches r last out =
        (r ≡ ok (complete (out ++ range_bytes last (end -ℤ pos 1))))
        ⊎ ((g : ℤ) × (last ≤ℤ g)
            × (g <ℤ end)
            × (file_at g ≡ none)
            × (r ≡ ok (gap_at g (out ++ range_bytes last (g -ℤ pos 1)))))
