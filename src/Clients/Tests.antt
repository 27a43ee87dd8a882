-- ===== src/Clients/Tests.antt =====
-- src/clients: an anchor from a mirror and a node that answer, and from ones that do not.
use proof_of_context_impl.Prelude.{◌≡◌, ◌↔◌, refl, none, some, List, [], ◌∷◌}
use proof_of_context_impl.Prelude.Bytes.{Bytes, text}
use proof_of_context_impl.Error.{Result, ok, err}
use proof_of_context_impl.Canonical.{Value, string}
use proof_of_context_impl.Anchor.{TripleAnchor, anchor}
use proof_of_context_impl.Clients.{ClientError, http, Transport}
use proof_of_context_impl.Clients.Hex.{to_digit, digits_from, from_str_radix_16, strip_prefix}
use proof_of_context_impl.Clients.Drand.{DrandPublicLatest, latest_round, drand_client, cloudflare}
use proof_of_context_impl.Clients.Block.{
  JsonRpcRequest, JsonRpcResponse, base_mainnet, height_of, latest_block_number, block_client,
}
use proof_of_context_impl.Clients.Builder
use proof_of_context_impl.Clients.Builder.{build, system_time_unix_nanos}
use proof_of_context_impl.Clients.Answers.{Assembles, build_iff}

-- The world is the list of the URLs asked, last first; the bodies are empty.
abbrev World : Type 0
World = List Bytes

abbrev online : Transport World Bytes
online = record {
  get = λ url timeout w. (ok [], url ∷ w);
  post_json = λ url timeout v w. (ok [], url ∷ w);
  system_time = λ w. (ok 77, w);
}

abbrev offline : Transport World Bytes
offline = record online { get = λ url timeout w. (err (text "timeout"), url ∷ w) }

abbrev drand_json : Bytes → Result Bytes DrandPublicLatest
drand_json body = ok (record { round = 100 })

abbrev to_value : JsonRpcRequest → Result Bytes Value
to_value request = ok (string request.method)

abbrev block_json : Bytes → Result Bytes JsonRpcResponse
block_json body = ok (record { result = some (text "0x1B4"); error = none })

abbrev built : Transport World Bytes → Result ClientError TripleAnchor × World
built transport =
    build transport
      (Builder.new (drand_client transport drand_json cloudflare)
        (block_client transport to_value block_json base_mainnet))
      []

abbrev asked : World
asked = text "https://mainnet.base.org" ∷ text "https://drand.cloudflare.com/public/latest" ∷ []

anchor_found : built online ≡ (ok (anchor 436 77 100), asked)
unfolding build Builder.new latest_round latest_block_number height_of from_str_radix_16 digits_from
    to_digit strip_prefix system_time_unix_nanos cloudflare base_mainnet
anchor_found = refl

-- The node is not asked.
mirror_silent : built offline ≡ (
  err (http (text "GET https://drand.cloudflare.com/public/latest: timeout")),
  text "https://drand.cloudflare.com/public/latest" ∷ [],
)
unfolding build Builder.new latest_round cloudflare
mirror_silent = refl

too_large :
    from_str_radix_16 (text "10000000000000000")
    ≡ err (text "number too large to fit in target type")
unfolding from_str_radix_16 digits_from to_digit
too_large = refl

build_iff_example :
    (built online ≡ (ok (anchor 436 77 100), asked))
    ↔ Assembles online drand_json cloudflare to_value block_json base_mainnet
        (anchor 436 77 100)
        []
        asked
build_iff_example =
    build_iff online drand_json cloudflare to_value block_json base_mainnet (anchor 436 77 100) []
      asked
