-- ===== src/Clients/Block.antt =====
-- src/clients/block.rs: the client of a node of a chain.
use proof_of_context_impl.Prelude.{ℕ, suc, Option, none, some, List, [], ◌++◌}
use proof_of_context_impl.Prelude.Bytes.{Bytes, text}
use proof_of_context_impl.Prelude.Decimal.{decimal}
use proof_of_context_impl.Prelude.Int.{ℤ, pos, negsuc}
use proof_of_context_impl.Error.{Result, ok, err, ok_or, map_err, ◌>>=◌}
use proof_of_context_impl.Canonical.{Value}
use proof_of_context_impl.Clients.{
  ClientError, parse, unexpected_shape, Transport, received, ◌>>>=◌,
}
use proof_of_context_impl.Clients.Hex.{from_str_radix_16, strip_prefix}

pub record BlockClient (World : Type 0) : Type 0 where
  pub latest_block_number : World → Result ClientError ℕ × World

pub record BaseRpcClient : Type 0 where
  pub rpc_url : Bytes
  pub timeout_secs : ℕ

unfoldable pub new : Bytes → BaseRpcClient
new rpc_url = record { rpc_url = rpc_url; timeout_secs = 10 }

unfoldable pub base_mainnet : BaseRpcClient
unfolding new
base_mainnet = new (text "https://mainnet.base.org")

unfoldable pub base_sepolia : BaseRpcClient
unfolding new
base_sepolia = new (text "https://sepolia.base.org")

unfoldable pub with_timeout : BaseRpcClient → ℕ → BaseRpcClient
with_timeout client secs = record client { timeout_secs = secs }

pub record JsonRpcRequest : Type 0 where
  pub jsonrpc : Bytes
  pub id : ℕ
  pub method : Bytes
  pub params : List Bytes

pub record JsonRpcError : Type 0 where
  pub code : ℤ
  pub message : Bytes

pub record JsonRpcResponse : Type 0 where
  pub result : Option Bytes
  pub error : Option JsonRpcError

-- `{}` of an i64
abbrev display : ℤ → Bytes
display (pos n) = decimal n
display (negsuc n) = text "-" ++ decimal (suc n)

abbrev pub request : JsonRpcRequest
request = record { jsonrpc = text "2.0"; id = 1; method = text "eth_blockNumber"; params = [] }

-- The height in a response.
unfoldable pub height_of : JsonRpcResponse → Result ClientError ℕ
height_of body = elim body.error [
  | some e ↦
      err (unexpected_shape (text "RPC error code " ++ display e.code ++ text ": " ++ e.message))
  | none ↦ (do
    hex_height ← ok_or body.result (unexpected_shape (text "missing result field"))
    trimmed ←
        ok_or (strip_prefix (text "0x") hex_height)
          (unexpected_shape (text "missing 0x prefix: " ++ hex_height))
    map_err (λ e. parse (text "block number hex parse failed for " ++ hex_height ++ text ": " ++ e))
        (from_str_radix_16 trimmed))
]

module _ {World Body : Type 0} (transport : Transport World Body) where
  unfoldable pub latest_block_number :
      (JsonRpcRequest → Result Bytes Value)
      → (Body → Result Bytes JsonRpcResponse)
      → BaseRpcClient
      → World
      → Result ClientError ℕ × World
  latest_block_number to_value into_json client w = elim (to_value request) [
    | err e ↦ (err (parse (text "serialize request: " ++ e)), w)
    | ok v ↦
        received (text "POST " ++ client.rpc_url ++ text ": ") (text "eth_blockNumber JSON: ")
          into_json (transport.post_json client.rpc_url client.timeout_secs v w)
        >>>= λ body w'. (height_of body, w')
  ]

  -- impl BlockClient for BaseRpcClient
  abbrev pub block_client :
      (JsonRpcRequest → Result Bytes Value)
      → (Body → Result Bytes JsonRpcResponse)
      → BaseRpcClient
      → BlockClient World
  block_client to_value into_json client = record {
    latest_block_number = latest_block_number to_value into_json client;
  }
