-- ===== src/Clients/Drand.antt =====
-- src/clients/drand.rs: the client of a Drand mirror.
use proof_of_context_impl.Prelude.{ℕ, ◌++◌}
use proof_of_context_impl.Prelude.Bytes.{Bytes, text}
use proof_of_context_impl.Error.{Result, ok}
use proof_of_context_impl.Clients.{ClientError, Transport, received, ◌>>>=◌}

pub record DrandClient (World : Type 0) : Type 0 where
  pub latest_round : World → Result ClientError ℕ × World

pub record DrandInfo : Type 0 where
  pub scheme_id : Bytes
  pub chain_hash : Bytes
  pub period_secs : ℕ
  pub genesis_time_unix : ℕ

pub record DrandHttpClient : Type 0 where
  pub base_url : Bytes
  pub timeout_secs : ℕ

unfoldable pub new : Bytes → DrandHttpClient
new base_url = record { base_url = base_url; timeout_secs = 10 }

unfoldable pub cloudflare : DrandHttpClient
unfolding new
cloudflare = new (text "https://drand.cloudflare.com")

unfoldable pub with_timeout : DrandHttpClient → ℕ → DrandHttpClient
with_timeout client secs = record client { timeout_secs = secs }

pub record DrandPublicLatest : Type 0 where
  pub round : ℕ

module _ {World Body : Type 0} (transport : Transport World Body) where
  unfoldable pub info :
      (Body → Result Bytes DrandInfo)
      → DrandHttpClient
      → World
      → Result ClientError DrandInfo × World
  info into_json client w =
      let url = client.base_url ++ text "/info" in
      received (text "GET " ++ url ++ text ": ") (text "/info JSON: ") into_json
        (transport.get url client.timeout_secs w)

  unfoldable pub latest_round :
      (Body → Result Bytes DrandPublicLatest)
      → DrandHttpClient
      → World
      → Result ClientError ℕ × World
  latest_round into_json client w =
      let url = client.base_url ++ text "/public/latest" in
      received (text "GET " ++ url ++ text ": ") (text "/public/latest JSON: ") into_json
        (transport.get url client.timeout_secs w)
      >>>= λ body w'. (ok body.round, w')

  -- impl DrandClient for DrandHttpClient
  abbrev pub drand_client :
      (Body → Result Bytes DrandPublicLatest) → DrandHttpClient → DrandClient World
  drand_client into_json client = record { latest_round = latest_round into_json client }
