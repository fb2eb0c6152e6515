-- ===== src/Common/Json.antt =====
-- JSON values, as the request bodies, the `jsonb` columns and the raw rows hold them. A number is
-- kept as its literal: no code of the services computes with one.
use postgres_pipeline_orches.Common.Tests.{if◌then◌else◌}
use postgres_pipeline_orches.Common.Text.{Text, text_eq}
use mathlib.Core.Bool.{Bool}
use mathlib.Core.Option.{Option, none, some}

mutual
  pub data Json : Type 0 where
    null : Json
    bool : Bool → Json
    num : Text → Json
    str : Text → Json
    arr : Items → Json
    obj : Fields → Json

  pub data Items : Type 0 where
    nil : Items
    cons : Json → Items → Items

  pub data Fields : Type 0 where
    end : Fields
    field : Text → Json → Fields → Fields

pub field_of : Text → Fields → Option Json
field_of k end = none
field_of k (field j v fs) = if text_eq j k then some v else field_of k fs

-- `v.k`: `undefined` on a value that is no object.
unfoldable pub get : Text → Json → Option Json
unfolding field_of
get k (obj fs) = field_of k fs
get k _ = none
