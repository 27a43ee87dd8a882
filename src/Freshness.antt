-- ===== src/Freshness.antt =====
-- src/freshness.rs: the four freshness types, and the thresholds with their two presets.
pub mod Listing
use proof_of_context_impl.Prelude.{ℕ}

pub data FreshnessType : Type 0 where
  computational model input settlement : FreshnessType

pub record FreshnessThresholds : Type 0 where
  -- skews of the triple anchor: blocks, seconds, Drand rounds
  pub block_skew : ℕ
  pub tee_skew_secs : ℕ
  pub drand_skew : ℕ
  -- horizons of the freshness types
  pub max_fc_blocks : ℕ
  pub max_fm_epochs : ℕ
  pub max_fi_blocks : ℕ
  pub max_fs_blocks : ℕ

abbrev pub default_base_mainnet : FreshnessThresholds
default_base_mainnet = record {
  block_skew = 2;
  tee_skew_secs = 5;
  drand_skew = 1;
  max_fc_blocks = 30;
  max_fm_epochs = 1;
  max_fi_blocks = 15;
  max_fs_blocks = 300;
}

abbrev pub permissive_testnet : FreshnessThresholds
permissive_testnet = record {
  block_skew = 10;
  tee_skew_secs = 60;
  drand_skew = 5;
  max_fc_blocks = 600;
  max_fm_epochs = 5;
  max_fi_blocks = 600;
  max_fs_blocks = 3600;
}

-- impl Default
abbrev pub default : FreshnessThresholds
default = default_base_mainnet
