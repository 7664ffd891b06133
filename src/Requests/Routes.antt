-- ===== src/Requests/Routes.antt =====
-- handlers.go: the routes, and the handler of each.
pub mod Numbers
use Prim.Native.String.{String}
use block_dn.Common.{ℕ, Bool, List, [], ◌∷◌, Option, none, some}
use block_dn.Common.Effect.{M, pure}
use block_dn.External.{Bytes, Chain, Wire}
use block_dn.Cache.{H2HCache}
use block_dn.Responses.{FileServer}
use block_dn.Serving.{Response, no_header, text_html}
use block_dn.Requests.{Request, Server, Var, hash, height, dust, blocks, filter_type, txid, vout}
use block_dn.Requests.Status.{Status, status_request_handler}
use block_dn.Requests.Proxy.{
  Node, FeeRate, block_request_handler, header_request_handler, raw_tx_request_handler,
  block_spent_tx_outs_request_handler, utxo_request_handler, estimate_fee_request_handler,
  tx_out_proof_request_handler,
}
use block_dn.Requests.Ranges.{
  headers_request_handler, filter_headers_request_handler, filters_request_handler,
  headers_import_request_handler, headers_import_latest_request_handler,
  filter_headers_import_request_handler, filter_headers_import_latest_request_handler,
  single_request_handler, custom_filters_request_handler, custom_filter_headers_request_handler,
  sp_tweaks_request_handler,
}

-- The handlers.
pub data Endpoint : Type 0 where
  index status block spent_tx_outs header estimate_fee tx_out_proof raw_tx utxo : Endpoint
  headers headers_import headers_import_latest : Endpoint
  filter_headers filter_headers_import filter_headers_import_latest : Endpoint
  filters filter_single custom_filters custom_filter_headers sp_tweaks : Endpoint

-- A path template: fixed text, and variables of digits `[0-9]+`, of hex digits `[0-9a-f]+`, or of
-- any characters but a slash.
pub data Part : Type 0 where
  lit : String → Part
  digits_of hex_of any_of : Var → Part

abbrev pub Template : Type 0
Template = List Part

abbrev pub plain : String → Template
plain path = lit path ∷ []

abbrev pub ends_with : String → Part → Template
ends_with path part = lit path ∷ part ∷ []

-- `createRouter`: the routes in their order, from which the first that matches is taken.
unfoldable pub create_router : List (Template × Endpoint)
create_router =
    (plain "/", index)
    ∷ (plain "/index.html", index)
    ∷ (plain "/status", status)
    ∷ (ends_with "/block/" (hex_of hash), block)
    ∷ (lit "/block/" ∷ hex_of hash ∷ lit "/spenttxouts" ∷ [], spent_tx_outs)
    ∷ (ends_with "/header/" (hex_of hash), header)
    ∷ (ends_with "/headers/" (digits_of height), headers)
    ∷ (plain "/headers/import/latest", headers_import_latest)
    ∷ (ends_with "/headers/import/" (digits_of height), headers_import)
    ∷ (ends_with "/fees/estimate/" (digits_of blocks), estimate_fee)
    ∷ (ends_with "/filter-headers/" (digits_of height), filter_headers)
    ∷ (plain "/filter-headers/import/latest", filter_headers_import_latest)
    ∷ (ends_with "/filter-headers/import/" (digits_of height), filter_headers_import)
    ∷ (
      lit "/filter-headers/type/" ∷ any_of filter_type ∷ lit "/" ∷ digits_of height ∷ [],
      custom_filter_headers,
    )
    ∷ (ends_with "/filters/" (digits_of height), filters)
    ∷ (ends_with "/filters/single/" (digits_of height), filter_single)
    ∷ (lit "/filters/type/" ∷ any_of filter_type ∷ lit "/" ∷ digits_of height ∷ [], custom_filters)
    ∷ (lit "/sp/tweaks/" ∷ digits_of dust ∷ lit "/" ∷ digits_of height ∷ [], sp_tweaks)
    ∷ (ends_with "/tx/out-proof/" (hex_of txid), tx_out_proof)
    ∷ (ends_with "/tx/raw/" (hex_of txid), raw_tx)
    ∷ (lit "/utxo/" ∷ hex_of txid ∷ lit "-" ∷ digits_of vout ∷ [], utxo)
    ∷ []

-- What a handler works with besides the request: the JSON encoders, the page, bitcoind, the files.
pub record World (H : Type 0) : Type 0 where
  pub index_html : Bytes
  pub encode_status : Status → Bytes
  pub encode_fee : FeeRate → Bytes
  pub wire : Wire H
  pub chain : Chain H
  pub node : Node
  pub disk : FileServer

-- `indexRequestHandler`
abbrev pub index_response : Bytes → Response
index_response page = record {
  status = 200;
  tier = no_header;
  content_type = text_html;
  content_length = none;
  body = page;
}

unfoldable pub handle : {H : Type 0} → World H → Server H → Endpoint → Request → M H2HCache Response
handle w s index r = pure (index_response w.index_html)
handle w s status r = status_request_handler w.wire s w.encode_status w.chain
handle w s block r = pure (block_request_handler w.node r)
handle w s spent_tx_outs r = pure (block_spent_tx_outs_request_handler w.node r)
handle w s header r = pure (header_request_handler w.node r)
handle w s estimate_fee r = pure (estimate_fee_request_handler w.node r w.encode_fee)
handle w s tx_out_proof r = pure (tx_out_proof_request_handler w.node r s)
handle w s raw_tx r = pure (raw_tx_request_handler w.node r)
handle w s utxo r = pure (utxo_request_handler w.node r)
handle w s headers r = headers_request_handler w.wire s w.chain w.disk r
handle w s headers_import r = headers_import_request_handler w.wire s w.chain w.disk r
handle w s headers_import_latest r = headers_import_latest_request_handler w.wire s w.chain w.disk r
handle w s filter_headers r = filter_headers_request_handler w.wire s w.chain w.disk r
handle w s filter_headers_import r = filter_headers_import_request_handler w.wire s w.chain w.disk r
handle w s filter_headers_import_latest r =
    filter_headers_import_latest_request_handler w.wire s w.chain w.disk r
handle w s filters r = filters_request_handler w.wire s w.chain w.disk r
handle w s filter_single r = single_request_handler w.wire s w.chain w.disk r
handle w s custom_filters r = custom_filters_request_handler w.wire s w.chain w.disk r
handle w s custom_filter_headers r = custom_filter_headers_request_handler w.wire s w.chain w.disk r
handle w s sp_tweaks r = sp_tweaks_request_handler w.wire s w.chain w.disk r
