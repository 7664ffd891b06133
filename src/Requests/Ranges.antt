-- ===== src/Requests/Ranges.antt =====
-- handlers.go: the requests for ranges, each with the directory, the serializer and the producer
-- that it passes to the shared handlers.
use Prim.Native.String.{String}
use text.Mathlib.Text.{◌==◌ as str_eq}
use block_dn.Common.{ℕ, suc, ◌⊎◌, inl, inr, true, Option, none, some, List, [], ◌∷◌, if◌then◌else◌}
use block_dn.Common.Int.{ℤ}
use block_dn.Common.Effect.{Result, ok, err, M, pure}
use block_dn.External.{Chain, Wire}
use block_dn.Cache.{H2HCache}
use block_dn.Responses.{FileServer}
use block_dn.Headers.{
  header_file, filter_header_file, serialize_headers, serialize_filter_headers, headers_size,
  filter_headers_size,
}
use block_dn.CFilters.{filter_file, serialize_filters, filters_size}
use block_dn.SpTweaks.{
  SpTweakFiles, to_uint, is_valid_sp_tweak_dust_limit, sp_file, serialize_sp_tweaks, sp_tweaks_size,
}
use block_dn.CustomFilters.{CustomFilterFiles, custom_filter_file, custom_header_file}
use block_dn.CustomFilters.Building
use block_dn.Serving.{Response, Route, send_error, height_based_request_handler}
use block_dn.Serving.Import.{
  height_based_import_request_handler, height_based_import_latest_handler,
  filter_single_request_handler,
}
use block_dn.Requests.{Request, Server, Side, height, dust, filter_type, parse_request_param_int64}

-- The names of `customFilterConfigs`, and the index of a name from an index on.
abbrev pub config_names : List String
config_names = "segwit" ∷ "p2wpkh" ∷ "p2wsh" ∷ "p2tr" ∷ []

unfoldable pub index_of : String → ℕ → List String → Option ℕ
index_of name i [] = none
index_of name i (n ∷ ns) = if str_eq n name then some i else index_of name (suc i) ns

unfoldable pub custom_filter_config_index : String → Option ℕ
unfolding index_of
custom_filter_config_index name = index_of name 0 config_names

-- `customFilterConfig`: the response that was sent, or the producer with the index.
abbrev known_config : Side CustomFilterFiles → Option ℕ → Response ⊎ (Side CustomFilterFiles × ℕ)
known_config custom none = inl (send_error 400)
known_config custom (some index) = inr (custom, index)

abbrev config_of :
    Option (Side CustomFilterFiles) → String → Response ⊎ (Side CustomFilterFiles × ℕ)
config_of none name = inl (send_error 503)
config_of (some custom) name = known_config custom (custom_filter_config_index name)

unfoldable pub custom_filter_config :
    {H : Type 0} → Server H → Request → Response ⊎ (Side CustomFilterFiles × ℕ)
custom_filter_config s r = config_of s.custom_filter_files (r.var filter_type)

module _ {H : Type 0} (wire : Wire H) (s : Server H) where
  abbrev pub headers_route : Route
  headers_route = record {
    file_name = header_file;
    entries_per_file = s.headers_per_file;
    serialize = serialize_headers wire s.header_files.own.headers;
    size = headers_size wire;
  }

  abbrev pub filter_headers_route : Route
  filter_headers_route = record {
    file_name = filter_header_file;
    entries_per_file = s.headers_per_file;
    serialize = serialize_filter_headers wire s.header_files.own.filter_headers;
    size = filter_headers_size wire;
  }

  abbrev pub filters_route : Route
  filters_route = record {
    file_name = filter_file;
    entries_per_file = s.filters_per_file;
    serialize = serialize_filters wire s.cfilter_files.own.filters;
    size = filters_size wire s.cfilter_files.own.filters;
  }

  -- The producer's settings for reading its files back play no part in these.
  abbrev pub custom_filters_route : Side CustomFilterFiles → ℕ → Route
  custom_filters_route custom index = record {
    file_name = custom_filter_file index;
    entries_per_file = s.filters_per_file;
    serialize =
        Building.serialize_filters wire s.filters_per_file s.headers_per_file 0 (λ name. true)
          custom.own.filters index;
    size =
        Building.filters_size wire s.filters_per_file s.headers_per_file 0 (λ name. true)
          custom.own.filters index;
  }

  abbrev pub custom_headers_route : Side CustomFilterFiles → ℕ → Route
  custom_headers_route custom index = record {
    file_name = custom_header_file index;
    entries_per_file = s.headers_per_file;
    serialize =
        Building.serialize_filter_headers wire s.filters_per_file s.headers_per_file 0
          (λ name. true) custom.own.filter_headers index;
    size = Building.filter_headers_size wire s.filters_per_file s.headers_per_file 0 (λ name. true);
  }

  abbrev pub sp_tweaks_route : Side SpTweakFiles → ℕ → Route
  sp_tweaks_route side dust_limit = record {
    file_name = sp_file wire s.net dust_limit;
    entries_per_file = s.sp_tweaks_per_file;
    serialize = serialize_sp_tweaks wire s.net side.own.tweak_data dust_limit;
    size = sp_tweaks_size wire s.net side.own.tweak_data dust_limit;
  }

  module _ (chain : Chain H) (disk : FileServer) (r : Request) where
    abbrev pub requested_height : Result ℤ
    requested_height = parse_request_param_int64 r height

    unfoldable pub headers_request_handler : M H2HCache Response
    headers_request_handler =
        height_based_request_handler chain disk r.asked s.light_mode s.header_files.processor
          headers_route requested_height

    unfoldable pub filter_headers_request_handler : M H2HCache Response
    filter_headers_request_handler =
        height_based_request_handler chain disk r.asked s.light_mode s.header_files.processor
          filter_headers_route requested_height

    unfoldable pub filters_request_handler : M H2HCache Response
    filters_request_handler =
        height_based_request_handler chain disk r.asked s.light_mode s.cfilter_files.processor
          filters_route requested_height

    -- `typeBlockHeader` and `typeFilterHeader` are the last arguments but one.
    unfoldable pub headers_import_request_handler : M H2HCache Response
    headers_import_request_handler =
        height_based_import_request_handler chain disk s.net s.light_mode s.header_files.processor
          headers_route 0 requested_height

    unfoldable pub headers_import_latest_request_handler : M H2HCache Response
    headers_import_latest_request_handler =
        height_based_import_latest_handler chain disk s.net s.light_mode s.header_files.processor
          headers_route 0

    unfoldable pub filter_headers_import_request_handler : M H2HCache Response
    filter_headers_import_request_handler =
        height_based_import_request_handler chain disk s.net s.light_mode s.header_files.processor
          filter_headers_route 1 requested_height

    unfoldable pub filter_headers_import_latest_request_handler : M H2HCache Response
    filter_headers_import_latest_request_handler =
        height_based_import_latest_handler chain disk s.net s.light_mode s.header_files.processor
          filter_headers_route 1

    unfoldable pub single_request_handler : M H2HCache Response
    single_request_handler =
        filter_single_request_handler wire chain s.light_mode s.cfilter_files.processor
          s.cfilter_files.own requested_height

    -- The handlers of the custom filters, behind `customFilterConfig`.
    unfoldable pub custom_filters_of : Response ⊎ (Side CustomFilterFiles × ℕ) → M H2HCache Response
    custom_filters_of (inl response) = pure response
    custom_filters_of (inr (custom, index)) =
        height_based_request_handler chain disk r.asked s.light_mode custom.processor
          (custom_filters_route custom index) requested_height

    unfoldable pub custom_filters_request_handler : M H2HCache Response
    unfolding custom_filters_of
    custom_filters_request_handler = custom_filters_of (custom_filter_config s r)

    unfoldable pub custom_headers_of : Response ⊎ (Side CustomFilterFiles × ℕ) → M H2HCache Response
    custom_headers_of (inl response) = pure response
    custom_headers_of (inr (custom, index)) =
        height_based_request_handler chain disk r.asked s.light_mode custom.processor
          (custom_headers_route custom index) requested_height

    unfoldable pub custom_filter_headers_request_handler : M H2HCache Response
    unfolding custom_headers_of
    custom_filter_headers_request_handler = custom_headers_of (custom_filter_config s r)

    -- The tweaks of a dust level, whose number is an int64 that is converted.
    unfoldable pub sp_tweaks_at : Side SpTweakFiles → Result ℤ → M H2HCache Response
    sp_tweaks_at side (err e) = pure (send_error 400)
    sp_tweaks_at side (ok level) =
        if is_valid_sp_tweak_dust_limit (to_uint 64 level)
        then height_based_request_handler chain disk r.asked s.light_mode side.processor
            (sp_tweaks_route side (to_uint 64 level)) requested_height
        else pure (send_error 400)

    abbrev sp_tweaks_of : Option (Side SpTweakFiles) → M H2HCache Response
    sp_tweaks_of none = pure (send_error 503)
    sp_tweaks_of (some side) = sp_tweaks_at side (parse_request_param_int64 r dust)

    unfoldable pub sp_tweaks_request_handler : M H2HCache Response
    unfolding sp_tweaks_at
    sp_tweaks_request_handler = sp_tweaks_of s.sp_tweak_files
