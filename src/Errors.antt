-- ===== src/Errors.antt =====
-- The error contract of src/error.rs: `ErrorEnvelope::from_error` and `sanitize_message`.
pub mod Redact
pub mod Bounded
use paperbridge.Prelude.{Bool, List, [], false, if◌then◌else◌, leb, true, ℕ, ◌++◌, ◌==◌, ◌||◌, ◌∷◌}
use paperbridge.Text.{Text, codes, contains}
use paperbridge.Validation.Decimal.{to_decimal}
use paperbridge.Errors.Redact.{Secrets, sanitize_message}

pub data ZoteroMcpError : Type 0 where
  config missing_config invalid_input http serde : Text → ZoteroMcpError
  api : ℕ → Text → ZoteroMcpError

-- The arguments as JSON text.
pub record RecoveryAction : Type 0 where
  pub tool : Text
  pub arguments : Text

pub record ErrorEnvelope : Type 0 where
  pub error : Text
  pub reason : Text
  pub suggestions : List Text
  pub retryable : Bool
  pub recovery : List RecoveryAction

abbrev backend_info : List RecoveryAction
backend_info = record { tool = codes "backend_info"; arguments = codes "{}" } ∷ []

-- The commands, by the five tests of the reason.
abbrev pub commands_for : Bool → Bool → Bool → Bool → Bool → List Text
commands_for config_key json_export bibtex search open_paper =
    if config_key
    then codes "paperbridge config get" ∷ codes "paperbridge config --help" ∷ []
    else if json_export
    then codes "paperbridge paperseed corpus export --json" ∷ []
    else if bibtex
    then codes "paperbridge paperseed corpus export --format bibtex"
      ∷ codes "paperbridge paperseed corpus export --json"
      ∷ []
    else if search
    then codes "paperbridge papers search --help" ∷ []
    else if open_paper
    then codes "paperbridge papers open --help" ∷ codes "paperbridge papers query --help" ∷ []
    else codes "paperbridge --help" ∷ []

unfoldable pub input_suggestions : Text → List Text
input_suggestions reason =
    commands_for (contains (codes "Unknown config key") reason)
      (contains (codes "JSON corpus export requires --json") reason)
      (contains (codes "--format bibtex conflicts with --json") reason)
      (contains (codes "search query") reason || contains (codes "Search query") reason)
      (contains (codes "selector") reason
        || (contains (codes "fulltext") reason || contains (codes "open_paper") reason))

abbrev check_config : List Text
check_config = codes "paperbridge config doctor" ∷ codes "paperbridge config validate" ∷ []

abbrev check_status : List Text
check_status = codes "paperbridge status" ∷ codes "paperbridge config doctor" ∷ []

-- The envelope of an error, before its reason is sanitized.
unfoldable pub parts_of : ZoteroMcpError → ErrorEnvelope
unfolding input_suggestions
parts_of (config reason) = record {
  error = codes "configuration_error";
  reason = reason;
  suggestions = check_config;
  retryable = false;
  recovery = backend_info;
}
parts_of (missing_config key) = record {
  error = codes "missing_configuration";
  reason = codes "Required configuration is missing: " ++ key;
  suggestions = check_config;
  retryable = false;
  recovery = backend_info;
}
parts_of (invalid_input reason) = record {
  error = codes "invalid_input";
  reason = reason;
  suggestions = input_suggestions reason;
  retryable = false;
  recovery = backend_info;
}
parts_of (http reason) = record {
  error = codes "http_error";
  reason = reason;
  suggestions = check_status;
  retryable = true;
  recovery = backend_info;
}
parts_of (api status message) = record {
  error = codes "upstream_api_error";
  reason = codes "Upstream returned HTTP " ++ (to_decimal status ++ (codes ": " ++ message));
  suggestions = check_status;
  retryable = status == 429 || leb 500 status;
  recovery = backend_info;
}
parts_of (serde reason) = record {
  error = codes "serialization_error";
  reason = reason;
  suggestions = codes "paperbridge config doctor" ∷ [];
  retryable = false;
  recovery = backend_info;
}

module _ (s : Secrets) where
  unfoldable pub from_error : ZoteroMcpError → ErrorEnvelope
  from_error error =
      let parts = parts_of error in record parts { reason = sanitize_message s [] parts.reason }
