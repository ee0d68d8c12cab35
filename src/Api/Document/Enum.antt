-- ===== src/Api/Document/Enum.antt =====
-- The ids that the OpenAPI description offers for a path parameter.
use stiebel_eltron_heatpump.Prelude.{ℕ, Option, none, some, get_elem?}
use stiebel_eltron_heatpump.Dict.{Dict, lookup}
use stiebel_eltron_heatpump.Models.{Text}
use stiebel_eltron_heatpump.Api.Document.{Parameter, Operation, Document}

module _ {Rest : Type 0} where
  abbrev in_operation : ℕ → Option (Operation Rest) → Option (Parameter Rest)
  in_operation i none = none
  in_operation i (some operation) = get_elem? operation.parameters i

  abbrev in_item : Text → ℕ → Option (Dict (Operation Rest)) → Option (Parameter Rest)
  in_item method i none = none
  in_item method i (some item) = in_operation i (lookup method item)

  -- A parameter by its path, its method and its place in the list.
  unfoldable pub parameter_of :
      Dict (Dict (Operation Rest)) → Text → Text → ℕ → Option (Parameter Rest)
  parameter_of paths path method i = in_item method i (lookup path paths)
