-- ===== src/Clients/Builder.antt =====
-- src/clients/mod.rs: an anchor from the two clients and the system clock.
use proof_of_context_impl.Prelude.{ℕ}
use proof_of_context_impl.Prelude.Bytes.{Bytes}
use proof_of_context_impl.Error.{Result, ok, err}
use proof_of_context_impl.Anchor.{TripleAnchor, anchor}
use proof_of_context_impl.Clients.{ClientError, Transport, ◌>>>=◌}
use proof_of_context_impl.Clients.Drand.{DrandClient}
use proof_of_context_impl.Clients.Block.{BlockClient}

pub record RealAnchorBuilder (World : Type 0) : Type 0 where
  pub drand : DrandClient World
  pub block : BlockClient World

unfoldable pub new :
    {World : Type 0} → DrandClient World → BlockClient World → RealAnchorBuilder World
new drand block = record { drand = drand; block = block }

-- `.unwrap_or(0)`
abbrev pub or_zero : {World : Type 0} → Result Bytes ℕ × World → ℕ × World
or_zero (ok n, w) = (n, w)
or_zero (err e, w) = (0, w)

module _ {World Body : Type 0} (transport : Transport World Body) where
  unfoldable pub system_time_unix_nanos : World → ℕ × World
  system_time_unix_nanos w = or_zero (transport.system_time w)

  unfoldable pub build : RealAnchorBuilder World → World → Result ClientError TripleAnchor × World
  build b w = b.drand.latest_round w >>>= λ drand_round w1.
      b.block.latest_block_number w1 >>>= λ block_height w2.
      let (tee_timestamp, w3) = system_time_unix_nanos w2 in
      (ok (anchor block_height tee_timestamp drand_round), w3)
