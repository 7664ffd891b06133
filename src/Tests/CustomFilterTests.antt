-- ===== src/Tests/CustomFilterTests.antt =====
-- The producer of custom filters at concrete inputs.
use block_dn.Common.{
  ℕ, ◌≡◌, refl, ◌<◌, ◌^◌, ◌++◌, Bool, true, false, not, replicate, Option, none, some, List, [],
  ◌∷◌, arith, ◌==◌,
}
use block_dn.Common.Int.{ℤ, pos, ◌-ℤ◌}
use block_dn.Common.Heights.{heights_from}
use block_dn.Common.Effect.{ok}
use block_dn.External.{Bytes, zero_hash}
use block_dn.Entries.{concat}
use block_dn.CustomFilters.Order.{IsOrdered, custom_write_sealed_file-IsOrdered}
use block_dn.Files.{Io, name_eq, FileName, FileKind, Disk, custom_filters, custom_filter_headers}
use block_dn.CFilters.{next_header}
use block_dn.CustomFilters.{
  CustomFilterFiles, config_indices, custom_filter_file, prev_filter_headers,
}
use block_dn.CustomFilters.Building.{
  Building, write_sealed_file, build_custom_filters, build_each, entries_of, classify_script,
}
use block_dn.CustomFilters.Rebuild.{Uninterrupted, HasFile, headers_before}
use block_dn.CustomFilters.Resume.{HasAnchor, IsSealed, prev_filter_headers-resumes}
use block_dn.Tests.Toy.{toy_wire, toy_laws, hash_of}

-- Every block has the filter of one zero byte, whose filter headers are all zero.
abbrev chains : Uninterrupted toy_wire
unfolding next_header
chains = record {
  filter = λ index k. 0 ∷ [];
  before = λ index k. zero_hash;
  genesis = λ index. refl;
  commits = λ index k up. refl;
}

abbrev contents_of : FileKind → Option Bytes
contents_of (custom_filters index) = some (1 ∷ 0 ∷ [])
contents_of (custom_filter_headers index) = some (zero_hash ++ zero_hash)
contents_of kind = none

abbrev all_there : Disk
all_there name = contents_of name.kind

abbrev opens_all : FileName → Bool
opens_all name = true

-- One filter and two filter headers per file.
small : 9 < 2 ^ 64
small = omega arith

one_filter :
    (start : ℤ) (index : ℕ)
    → HasFile toy_wire toy_laws 1 2 9 opens_all chains small all_there start index
unfolding chains concat heights_from
one_filter start index = record { at = refl; opened = refl; fit = (omega arith, tt) }

one_anchor :
    (index : ℕ)
    → HasAnchor toy_wire toy_laws 1 2 9 opens_all chains small all_there (pos 2 -ℤ pos 1) index
unfolding chains
one_anchor index = record {
  found = zero_hash ++ zero_hash;
  at = refl;
  opened = refl;
  size = refl;
  ends = refl;
}

sealed : IsSealed toy_wire toy_laws 1 2 9 opens_all chains small all_there 3
sealed = record {
  files = 1;
  covers = refl;
  anchored = λ lt. (one_anchor 0, (one_anchor 1, (one_anchor 2, (one_anchor 3, tt))));
  has_files = λ i lt. (one_filter _ 0, (one_filter _ 1, (one_filter _ 2, (one_filter _ 3, tt))));
}

abbrev restarted : CustomFilterFiles
restarted = record {
  filters = λ k. none;
  filter_headers = λ k. none;
  height_to_hash = λ k. none;
  disk = all_there;
}

-- Three heights are sealed, two of them in header files.
prev_filter_headers-resumes_example :
    (prev_filter_headers toy_wire 1 2 9 opens_all (pos 3) restarted).1
    ≡ ok (headers_before toy_wire chains (pos 3) config_indices)
prev_filter_headers-resumes_example =
    prev_filter_headers-resumes toy_wire toy_laws 1 2 9 opens_all chains small 3 restarted
      (omega arith) (λ row e. cc) sealed

-- A script is its type: 0, 1 and 2 are the witness types, and others are none.
abbrev building : Building (List Bytes) ℕ (List Bytes)
building = record {
  out_scripts = λ tx. tx;
  spent_scripts = λ block. (2 ∷ []) ∷ [];
  is_pay_to_witness_pub_key_hash = starts_with 0;
  is_pay_to_witness_script_hash = starts_with 1;
  is_pay_to_taproot = starts_with 2;
  build = λ hash entries. ok entries;
  n_bytes = λ entries. ok [];
}
  where
    starts_with : ℕ → Bytes → Bool
    starts_with n [] = false
    starts_with n (b ∷ bs) = n == b

built :
    build_custom_filters building (hash_of 1) (record {
      txs = ((0 ∷ []) ∷ (5 ∷ []) ∷ []) ∷ ((1 ∷ []) ∷ []) ∷ [];
      prev_out_scripts = λ op. none;
    })
    ≡ ok (
        ((0 ∷ []) ∷ (1 ∷ []) ∷ (2 ∷ []) ∷ [])
        ∷ ((0 ∷ []) ∷ [])
        ∷ ((1 ∷ []) ∷ [])
        ∷ ((2 ∷ []) ∷ [])
        ∷ [])
unfolding build_custom_filters build_each entries_of classify_script
built = refl

-- The file of the second configuration cannot be created; the third and the fourth are complete by then.
abbrev fails_once : Io
fails_once = record {
  creates = λ name. not (name_eq name (custom_filter_file 1 (pos 3) (pos 3)));
  closes = λ name. true;
}

abbrev one_more : CustomFilterFiles
one_more = record restarted {
  filters = λ k. some ((0 ∷ []) ∷ (1 ∷ []) ∷ (2 ∷ []) ∷ (3 ∷ []) ∷ []);
  filter_headers = λ k. some (replicate 4 zero_hash);
}

custom_write_sealed_file-IsOrdered_example :
    IsOrdered toy_wire 1 2 9 opens_all fails_once
      (pos 3)
      (pos 3)
      one_more.filters
      (3 ∷ 2 ∷ 1 ∷ [])
      0
      one_more.disk
      (write_sealed_file toy_wire 1 2 9 opens_all fails_once (pos 3) (pos 3) one_more).0.disk
custom_write_sealed_file-IsOrdered_example =
    custom_write_sealed_file-IsOrdered toy_wire 1 2 9 opens_all fails_once (pos 3) (pos 3) one_more
