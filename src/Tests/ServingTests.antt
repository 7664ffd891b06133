-- ===== src/Tests/ServingTests.antt =====
-- Range requests at concrete inputs.
use block_dn.Common.{
  sym, ◌∷◌, List, [], ◌++◌, if◌then◌else◌, ℕ, ◌*◌, ◌^◌, ◌≡◌, refl, ap, ◌∙◌, true, false, none, some,
  length, arith,
}
use block_dn.External.{Bytes}
use block_dn.Common.Int.{ℤ, pos, pos_part, ◌+ℤ◌, ◌-ℤ◌, eqb_ℤ, parts}
use block_dn.Common.Heights.{HeightMap}
use block_dn.Common.Effect.{Result, ok}
use block_dn.Cache.{H2HCache, new_h2h_cache}
use block_dn.Headers.{header_file}
use block_dn.Files.{Disk}
use block_dn.SpTweaks.{SpTweakEntry, serialize_sp_tweaks, sp_tweaks_size, sp_file}
use block_dn.SpTweaks.Level.{sp_tweaks-size}
use block_dn.Serving.{
  max_age_disk, octet_stream, Processor, Route, serve_parsed, serve_checked, serve_range,
  check_start_height, height_based_request_handler,
}
use block_dn.Responses.{
  FileServer, Asked, ranges, between, within, ranges_response, serve_content, serve_file,
}
use block_dn.Serving.Stream.{range_bytes}
use block_dn.Serving.Ranges.{
  IsHonestResult, check_start_height-wraps, height_based_request_handler-IsHonest,
}
use block_dn.Tests.Toy.{toy_wire, toy_laws, toy_chain, hash_of}

abbrev processor : Processor
processor = record {
  is_startup_complete = true;
  current_height = pos 3;
  last_sealed_height = pos 1;
}

check_start_height-wraps_example : check_start_height processor (pos (125 * 2 ^ 32)) 2000 ≡ ok tt
check_start_height-wraps_example = check_start_height-wraps processor 125 2000 (omega arith) refl

abbrev no_tweaks : HeightMap (List SpTweakEntry)
no_tweaks k = some []

abbrev route : Route
route = record {
  file_name = sp_file toy_wire 7 600;
  entries_per_file = 2;
  serialize = serialize_sp_tweaks toy_wire 7 no_tweaks 600;
  size = sp_tweaks_size toy_wire 7 no_tweaks 600;
}

sized :
    (start end : ℤ) (n : ℕ) (out : Bytes)
    → route.size start end ≡ some n
    → route.serialize start end [] ≡ (out, ok tt)
    → length out ≡ n
sized start end n out e written =
    let (body, ran, size) = sp_tweaks-size toy_wire toy_laws 7 no_tweaks 600 start end n e in
    ap (λ (r : Bytes × Result (Unit {0})). length r.0) (sym written)
    ∙ ap (λ (r : Bytes × Result (Unit {0})). length r.0) ran
    ∙ size

abbrev served_from : Disk → FileServer
served_from disk = record {
  contents = disk;
  opens = λ name. true;
  breaks_after = λ name. none;
  multipart = λ parts. [];
}

-- A file of five bytes, of which a request asks for the second and the third.
abbrev disk : FileServer
disk = served_from (λ name. some (5 ∷ 6 ∷ 7 ∷ 8 ∷ 9 ∷ []))

abbrev asked : Asked
asked = ranges (between 1 1) []

height_based_request_handler-IsHonest_example :
    IsHonestResult disk route
      (height_based_request_handler
        (toy_chain 0)
        disk
        asked
        false
        processor
        route
        (ok (pos 2))
        new_h2h_cache).1
height_based_request_handler-IsHonest_example =
    height_based_request_handler-IsHonest disk route asked sized (toy_chain 0) processor false
      (ok (pos 2)) new_h2h_cache

part_is_sent :
    (height_based_request_handler
      (toy_chain 0)
      disk
      asked
      false
      processor
      route
      (ok (pos 2))
      new_h2h_cache).1
    ≡ ok (record {
      status = 206;
      tier = max_age_disk;
      content_type = octet_stream;
      content_length = some 2;
      body = 6 ∷ 7 ∷ [];
    })
unfolding height_based_request_handler serve_parsed check_start_height serve_checked serve_range
    serve_file serve_content within ranges_response ◌-ℤ◌ ◌+ℤ◌
part_is_sent = refl

-- Two entries in a file, and one in memory.
abbrev entry : ℤ → ℕ
entry k = pos_part k

abbrev one_byte : ℕ → Bytes
one_byte n = n ∷ []

abbrev two_files : FileServer
two_files = served_from (λ name. if eqb_ℤ name.first (pos 0) then some (0 ∷ 1 ∷ []) else none)

abbrev bytes_route : Route
bytes_route = record {
  file_name = header_file;
  entries_per_file = 2;
  serialize = λ start end out. (out ++ range_bytes one_byte entry start end, ok tt);
  size = λ start end. none;
}

abbrev warm : H2HCache
warm = record {
  height_to_hash = λ k. some (hash_of 0);
  best_height = pos 3;
  readers = 0;
  writer = false;
}
