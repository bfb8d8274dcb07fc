-- ===== src/Dpi/Signature.antt =====
-- `ClassificationResult`, `DPISignature` and `DPIGuardrails` of include/dpi_classifier.h.
use virtual_service_gateway.Common.{ℕ, Bool, List}

-- The enumerators. The enumeration has the fixed type `uint8_t`, so a cast gives it any byte.
pub data ResultName : Type 0 where
  unknown http https ftp dns ssh smtp pop3 imap telnet : ResultName
  video_streaming audio_streaming file_transfer p2p gaming voip : ResultName

-- A value of the enumeration is its byte.
abbrev pub ClassificationResult : Type 0
ClassificationResult = ℕ

abbrev pub value : ResultName → ClassificationResult
value unknown = 0
value http = 1
value https = 2
value ftp = 3
value dns = 4
value ssh = 5
value smtp = 6
value pop3 = 7
value imap = 8
value telnet = 9
value video_streaming = 10
value audio_streaming = 11
value file_transfer = 12
value p2p = 13
value gaming = 14
value voip = 15

-- The pattern is the string's bytes.
pub record DpiSignature : Type 0 where
  pub signature_id : ℕ
  pub classification : ClassificationResult
  pub pattern : List ℕ
  pub offset : ℕ
  pub depth : ℕ
  pub stateless : Bool
  pub priority : ℕ

pub record DpiGuardrails : Type 0 where
  pub timeout_us : ℕ
  pub max_payloads : ℕ
  pub sample_rate : ℕ
  pub degradation_enabled : Bool
