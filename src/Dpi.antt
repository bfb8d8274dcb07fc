-- ===== src/Dpi.antt =====
-- src/dpi and include/dpi_classifier.h: classification of payloads by signatures.
pub mod Signature
pub mod Matcher
pub mod Classifier
pub mod Occurrence
pub mod FirstHit
pub mod Invariant
pub mod Counts
pub mod Updates
pub mod Parser
pub mod Loader
pub mod TextClasses
pub mod Printing
pub mod Extraction
pub mod RoundTrip
pub mod Loading
pub mod Sorting
pub mod Shared
mod Examples
