-- ===== src/Attestation.antt =====
-- src/attestation.rs: the attestation chain, its vendors, and the verifier interface.
use proof_of_context_impl.Prelude.{Bool, true, false}
use proof_of_context_impl.Prelude.Bytes.{Bytes}
use proof_of_context_impl.Error.{PocError, Result}

pub data AttestationVendor : Type 0 where
  intel_tdx amd_sev_snp nvidia_h100 mock_software : AttestationVendor

pub record AttestationChain : Type 0 where
  pub payload : Bytes
  pub vendor : AttestationVendor

-- the derived `==` of vendors, at `MockSoftware`
abbrev pub is_mock_software : AttestationVendor → Bool
is_mock_software mock_software = true
is_mock_software _ = false

pub record AttestationVerifier : Type 0 where
  pub verify : AttestationChain → Result PocError (Unit {0})
