-- ===== src/Tests/Documents.antt =====
-- The OpenAPI description of a gateway with one channel.
use stiebel_eltron_heatpump.Prelude.{[], ◌∷◌, none, some}
use stiebel_eltron_heatpump.Models.{Text, codes}
use stiebel_eltron_heatpump.Api.Document.{generated, enum_of, Parameter, Document, custom_openapi}
use stiebel_eltron_heatpump.Tests.Floats.{fixed}
use stiebel_eltron_heatpump.Tests.Gateway.{gateway}

abbrev parameter : Parameter (Unit {0})
parameter = record {
  name = some (codes "channel_id");
  place = some (codes "path");
  schema = generated tt;
  description = none;
  rest = tt;
}

abbrev route_path : Text
route_path = codes "/channels/{channel_id}"

abbrev document : Document (Unit {0})
document = record {
  paths = (route_path, (codes "get", record { parameters = parameter ∷ []; rest = tt }) ∷ []) ∷ [];
  values_schema = none;
  channels = none;
  rest = tt;
}

abbrev offered : Parameter (Unit {0})
offered = record parameter {
  schema = enum_of (codes "programDhwMo1Start" ∷ []);
  description = some (codes "One of the configured channel ids.");
}

abbrev published : Document (Unit {0})
published = (custom_openapi fixed (λ x. []) gateway document none).0

-- FastAPI would generate nothing the second time.
abbrev nothing : Document (Unit {0})
nothing = record document { paths = [] }
