-- ===== src/Resolver/Request.antt =====
-- crates/camera-app-resolver/src/resolver.rs: the hints of a lookup, and how they follow from the
-- identity that the observer gave.
use lensguard.Prelude.{ℕ, Option, none, some, Text, codes, text_eq, if◌then◌else◌}
use lensguard.Core.Model.{ApplicationIdentity}

abbrev pub unknown_application : Text
unknown_application = codes "Unknown application"

pub record ResolutionRequest : Type 0 where
  pub pid : Option ℕ
  pub app_id : Option Text
  pub metadata_display_name : Option Text
  pub binary : Option Text

-- `From<&ApplicationIdentity>`
unfoldable pub request_from : ApplicationIdentity → ResolutionRequest
request_from identity = record {
  pid = identity.pid;
  app_id = identity.app_id;
  metadata_display_name =
      if text_eq identity.display_name unknown_application
      then none
      else some identity.display_name;
  binary = identity.binary;
}
