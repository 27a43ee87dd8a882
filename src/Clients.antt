-- ===== src/Clients.antt =====
-- src/clients/mod.rs: the errors of the network clients, and the world that they ask. A client is a
-- function of the state of that world, which a request may change.
pub mod Drand
pub mod Hex
pub mod Block
pub mod Builder
pub mod Answers
mod Tests
use proof_of_context_impl.Prelude.{ℕ, ◌++◌}
use proof_of_context_impl.Prelude.Bytes.{Bytes}
use proof_of_context_impl.Error.{Result, ok, err, map_err}
use proof_of_context_impl.Canonical.{Value}

pub data ClientError : Type 0 where
  http : Bytes → ClientError
  parse : Bytes → ClientError
  unexpected_shape : Bytes → ClientError

-- The crate for HTTP and the system clock: the body of a response, or the text of the error.
pub record Transport (World Body : Type 0) : Type 0 where
  -- url, read timeout
  pub get : Bytes → ℕ → World → Result Bytes Body × World
  -- url, read timeout, JSON
  pub post_json : Bytes → ℕ → Value → World → Result Bytes Body × World
  -- The nanoseconds since 1970, unless the clock is before that.
  pub system_time : World → Result Bytes ℕ × World

-- The outcome of a request that `request` names, with its body read by `into_json`.
abbrev pub received :
    {World Body A : Type 0}
    → Bytes
    → Bytes
    → (Body → Result Bytes A)
    → Result Bytes Body × World
    → Result ClientError A × World
received request shape into_json (err e, w) = (err (http (request ++ e)), w)
received request shape into_json (ok body, w) =
    (map_err (λ e. parse (shape ++ e)) (into_json body), w)

infixl 5 ◌>>>=◌
-- `?` on the outcome of a request
abbrev pub ◌>>>=◌ :
    {World A B : Type 0}
    → Result ClientError A × World
    → (A → World → Result ClientError B × World)
    → Result ClientError B × World
(ok a, w) >>>= f = f a w
(err e, w) >>>= f = (err e, w)
