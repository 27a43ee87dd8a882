-- ===== src/Clients/Answers.antt =====
-- src/clients: when the clients answer, and what the anchor is then made of.
use proof_of_context_impl.Prelude.{
  ℕ, ◌⊎◌, ◌≡◌, ◌↔◌, refl, none, some, ◌++◌, Option-cases, inl, inr, ap, ◌∙◌, sym, [],
}
use proof_of_context_impl.Prelude.Bytes.{Bytes, text}
use proof_of_context_impl.Error.{Result, ok, err, outcome, returned, failed, ok-injective}
use proof_of_context_impl.Canonical.{Value}
use proof_of_context_impl.Anchor.{TripleAnchor, anchor}
use proof_of_context_impl.Clients.{ClientError, Transport, received, ◌>>>=◌}
use proof_of_context_impl.Clients.Drand.{
  DrandHttpClient, DrandPublicLatest, latest_round, drand_client,
}
use proof_of_context_impl.Clients.Hex.{strip_prefix, from_str_radix_16}
use proof_of_context_impl.Clients.Hex.Value.{IsHex, from_str_radix_16_iff, strip_prefix_iff}
use proof_of_context_impl.Clients.Block.{
  BaseRpcClient, JsonRpcRequest, JsonRpcResponse, request, height_of, latest_block_number,
  block_client,
}
use proof_of_context_impl.Clients.Builder
use proof_of_context_impl.Clients.Builder.{or_zero, system_time_unix_nanos, build}

-- A response without an error, whose result is hexadecimal behind `0x`.
abbrev pub HasHeight : JsonRpcResponse → ℕ → Type 0
HasHeight body n =
    (body.error ≡ none) × ((t : Bytes) × (body.result ≡ some (text "0x" ++ t)) × IsHex t n)

height_of-HasHeight : (body : JsonRpcResponse) (n : ℕ) → height_of body ≡ ok n → HasHeight body n
unfolding height_of
height_of-HasHeight body n h = elim (Option-cases body.error) [
  | inr (e, s) ↦ absurd (cc (rw s at h))
  | inl no_error ↦ elim (Option-cases body.result) [
    | inl s ↦ absurd (cc (rw (no_error, s) at h))
    | inr (hex, s) ↦ elim (Option-cases (strip_prefix (text "0x") hex)) [
      | inl f ↦ absurd (cc (rw (no_error, s, f) at h))
      | inr (t, f) ↦ elim (outcome (from_str_radix_16 t)) [
        | failed e g ↦ absurd (cc (rw (no_error, s, f, g) at h))
        | returned m g ↦
            let same : m ≡ n = ok-injective (rw (no_error, s, f, g) at h) in
            (
              no_error,
              (
                t,
                s ∙ ap some ((strip_prefix_iff (text "0x") hex t).0 f),
                (from_str_radix_16_iff t n).0 (rw (← same) g),
              ),
            )
      ]
    ]
  ]
]

HasHeight-height_of : (body : JsonRpcResponse) (n : ℕ) → HasHeight body n → height_of body ≡ ok n
unfolding height_of
HasHeight-height_of body n (no_error, (t, s, hex)) =
    rw
      (
        no_error,
        s,
        (strip_prefix_iff (text "0x") (text "0x" ++ t) t).1 refl,
        (from_str_radix_16_iff t n).1 hex,
      )
      refl

-- A value, once the request is answered, its body is read and the value is taken from it.
abbrev Fetched :
    {World Body A B : Type 0}
    → Result Bytes Body × World
    → (Body → Result Bytes A)
    → (A → Result ClientError B)
    → B
    → World
    → Type 0
Fetched {Body = Body} {A = A} m into_json pick b w' =
    (body : Body) × (m ≡ (ok body, w')) × ((a : A) × (into_json body ≡ ok a) × (pick a ≡ ok b))

fetched :
    {World Body A B : Type 0} (request shape : Bytes) (into_json : Body → Result Bytes A)
    (pick : A → Result ClientError B) (m : Result Bytes Body × World) (b : B) (w' : World)
    → (received request shape into_json m >>>= λ a w1. (pick a, w1)) ≡ (ok b, w')
    → Fetched m into_json pick b w'
fetched request shape into_json pick (err e, w) b w' h = absurd (cc (ap (λ p. p.0) h))
fetched {World} {B = B} request shape into_json pick (ok body, w) b w' h =
    elim (outcome (into_json body)) [
      | failed e s ↦ absurd (cc (ap (λ p. p.0) (rw s at h)))
      | returned x s ↦
          let run : ◌≡◌ {A = Result ClientError B × World} (pick x, w) (ok b, w') = rw s at h in
          (body, ap (λ p. (ok body, p.1)) run, (x, s, ap (λ p. p.0) run))
    ]

-- Inversion of a successful `?`.
>>>=-eq-ok :
    {World A B : Type 0} (m : Result ClientError A × World)
    (f : A → World → Result ClientError B × World) (b : B) (w' : World)
    → (m >>>= f) ≡ (ok b, w')
    → (a : A) × ((w1 : World) × (m ≡ (ok a, w1)) × (f a w1 ≡ (ok b, w')))
>>>=-eq-ok (ok a, w1) f b w' h = (a, (w1, refl, h))
>>>=-eq-ok (err e, w1) f b w' h = absurd (cc (ap (λ p. p.0) h))

clock_shown :
    {World : Type 0} (m : Result Bytes ℕ × World) (nanos : ℕ) (w' : World)
    → or_zero m ≡ (nanos, w')
    → (m ≡ (ok nanos, w')) ⊎ ((e : Bytes) × (m ≡ (err e, w')) × (nanos ≡ 0))
clock_shown (ok n, w) nanos w' h = inl (ap (λ p. (ok p.0, p.1)) h)
clock_shown (err e, w) nanos w' h = inr (e, ap (λ p. (err e, p.1)) h, sym (ap (λ p. p.0) h))

module _ {World Body : Type 0} (transport : Transport World Body) where
  -- The mirror answers with this round.
  abbrev pub HasRound :
      (Body → Result Bytes DrandPublicLatest) → DrandHttpClient → ℕ → World → World → Type 0
  HasRound into_json client round w w' =
      (body : Body) × (transport.get (client.base_url ++ text "/public/latest") client.timeout_secs
          w
        ≡ (ok body, w'))
      × (into_json body ≡ ok (record { round = round }))

  -- The node answers to the JSON-RPC request `eth_blockNumber` with this height.
  abbrev pub AnswersHeight :
      (JsonRpcRequest → Result Bytes Value)
      → (Body → Result Bytes JsonRpcResponse)
      → BaseRpcClient
      → ℕ
      → World
      → World
      → Type 0
  AnswersHeight to_value into_json client height w w' =
      (v : Value) × (to_value
          (record { jsonrpc = text "2.0"; id = 1; method = text "eth_blockNumber"; params = [] })
        ≡ ok v)
      × ((body : Body) × (transport.post_json client.rpc_url client.timeout_secs v w
            ≡ (ok body, w'))
          × ((response : JsonRpcResponse) × (into_json body ≡ ok response)
              × HasHeight response height))

  latest_round_iff :
      (into_json : Body → Result Bytes DrandPublicLatest) (client : DrandHttpClient) (round : ℕ)
      (w w' : World)
      → (latest_round transport into_json client w ≡ (ok round, w'))
        ↔ HasRound into_json client round w w'
  unfolding latest_round
  latest_round_iff into_json client round w w' = (
    λ h.
        let (body, got, (latest, json, round_is)) =
          fetched (text "GET " ++ client.base_url ++ text "/public/latest" ++ text ": ")
            (text "/public/latest JSON: ") into_json (λ latest. ok latest.round)
            (transport.get (client.base_url ++ text "/public/latest") client.timeout_secs w) round
            w' h in
        (body, got, json ∙ ap (λ r. ok (record { round = r })) (ok-injective round_is)),
    λ h. let (body, got, json) = h in rw (latest_round, got, json) refl,
  )

  latest_block_number_iff :
      (to_value : JsonRpcRequest → Result Bytes Value)
      (into_json : Body → Result Bytes JsonRpcResponse) (client : BaseRpcClient) (height : ℕ)
      (w w' : World)
      → (latest_block_number transport to_value into_json client w ≡ (ok height, w'))
        ↔ AnswersHeight to_value into_json client height w w'
  unfolding latest_block_number
  latest_block_number_iff to_value into_json client height w w' = (
    λ h. elim (outcome (to_value request)) [
      | failed e s ↦ absurd (cc (ap (λ p. p.0) (rw (latest_block_number, s) at h)))
      | returned v s ↦
          let (body, got, (response, json, known)) =
            fetched (text "POST " ++ client.rpc_url ++ text ": ") (text "eth_blockNumber JSON: ")
              into_json height_of (transport.post_json client.rpc_url client.timeout_secs v w)
              height w' (rw (latest_block_number, s) at h) in
          (v, s, (body, got, (response, json, height_of-HasHeight response height known)))
    ],
    λ h.
        let (v, s, (body, got, (response, json, known))) = h in
        rw (latest_block_number, s, got, json, HasHeight-height_of response height known) refl,
  )

  -- The nanoseconds that the system clock shows, 0 where it is before 1970.
  abbrev pub ClockShows : World → ℕ → World → Type 0
  ClockShows w nanos w' =
      (transport.system_time w ≡ (ok nanos, w'))
      ⊎ ((e : Bytes) × (transport.system_time w ≡ (err e, w')) × (nanos ≡ 0))

  clock_iff :
      (w : World) (nanos : ℕ) (w' : World)
      → (system_time_unix_nanos transport w ≡ (nanos, w')) ↔ ClockShows w nanos w'
  unfolding system_time_unix_nanos
  clock_iff w nanos w' = (
    clock_shown (transport.system_time w) nanos w',
    λ h. elim h [
      | inl e ↦ rw (system_time_unix_nanos, e) refl
      | inr e ↦ rw (system_time_unix_nanos, e.1, e.2) refl
    ],
  )

  -- The round, then the height, then the clock.
  abbrev pub Assembles :
      (Body → Result Bytes DrandPublicLatest)
      → DrandHttpClient
      → (JsonRpcRequest → Result Bytes Value)
      → (Body → Result Bytes JsonRpcResponse)
      → BaseRpcClient
      → TripleAnchor
      → World
      → World
      → Type 0
  Assembles drand_json drand to_value block_json block a w w' =
      (round : ℕ) × ((w1 : World) × HasRound drand_json drand round w w1
        × ((height : ℕ) × ((w2 : World) × AnswersHeight to_value block_json block height w1 w2
              × ((nanos : ℕ) × ClockShows w2 nanos w'
                  × (a ≡ record {
                    block_height = height;
                    tee_timestamp = nanos;
                    drand_round = round;
                  })))))

  -- An anchor is built exactly when the Drand mirror answers with a round and then the node answers
  -- the request `eth_blockNumber` without an RPC error and with hexadecimal behind `0x` whose value is
  -- a u64; the anchor has that round, that height and the time then read from the system clock, 0
  -- if that is before 1970.
  pub build_iff :
      (drand_json : Body → Result Bytes DrandPublicLatest) (drand : DrandHttpClient)
      (to_value : JsonRpcRequest → Result Bytes Value)
      (block_json : Body → Result Bytes JsonRpcResponse) (block : BaseRpcClient) (a : TripleAnchor)
      (w w' : World)
      → (build transport
            (Builder.new
              (drand_client transport drand_json drand)
              (block_client transport to_value block_json block))
            w
          ≡ (ok a, w'))
        ↔ Assembles drand_json drand to_value block_json block a w w'
  unfolding build Builder.new
  build_iff drand_json drand to_value block_json block a w w' = (
    λ h.
        let (round, (w1, got, h1)) =
          >>>=-eq-ok (latest_round transport drand_json drand w)
            (λ round w1.
              latest_block_number transport to_value block_json block w1 >>>= λ height w2.
              let t = system_time_unix_nanos transport w2 in (ok (anchor height t.0 round), t.1))
            a w' h in
        let (height, (w2, known, run)) =
          >>>=-eq-ok (latest_block_number transport to_value block_json block w1)
            (λ height w2.
              let t = system_time_unix_nanos transport w2 in (ok (anchor height t.0 round), t.1))
            a w' h1 in
        (
          round,
          (
            w1,
            (latest_round_iff drand_json drand round w w1).0 got,
            (
              height,
              (
                w2,
                (latest_block_number_iff to_value block_json block height w1 w2).0 known,
                (
                  (system_time_unix_nanos transport w2).0,
                  (clock_iff w2 (system_time_unix_nanos transport w2).0 w').0
                      (ap (λ p. ((system_time_unix_nanos transport w2).0, p.1)) run),
                  sym (ok-injective (ap (λ p. p.0) run)),
                ),
              ),
            ),
          ),
        ),
    λ h.
        let (round, (w1, drand_ok, (height, (w2, block_ok, (nanos, shows, is))))) = h in
        rw
          (
            (latest_round_iff drand_json drand round w w1).1 drand_ok,
            (latest_block_number_iff to_value block_json block height w1 w2).1 block_ok,
            (clock_iff w2 nanos w').1 shows,
            is,
          )
          refl,
  )
