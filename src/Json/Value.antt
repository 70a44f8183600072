-- ===== src/Json/Value.antt =====
-- JSON values. A number is kept as its literal, which each Go type reads in its own
-- way; a text is kept without its escapes.
use mqtt_sensor_exporter.Common.{String, Bool}

-- The lists inside an array and an object stand in the same block.
mutual
  pub data Json : Type 0 where
    null : Json
    bool : Bool → Json
    number : String → Json
    text : String → Json
    array : Elements → Json
    object : Members → Json

  pub data Elements : Type 0 where
    no_elements : Elements
    element : Json → Elements → Elements

  pub data Members : Type 0 where
    no_members : Members
    member : String → Json → Members → Members
