-- ===== src/Routing/Models.antt =====
-- The custom models of backend/routing.py: their rules, in the order in which GraphHopper reads them.
use meander.Common.{Bool, List, Option, String, [], false, none, some, true, ℕ, ◌∷◌}
use meander.Common.Dict.{elem}
use meander.Routing.{
  CustomModel, EncodedValue, Rule, road_class, road_environment, smoothness, surface,
}

abbrev rule : EncodedValue → List String → ℕ → Rule
rule field values multiply_by = record { field = field; values = values; multiply_by = multiply_by }

unfoldable pub scenic_custom_model : ℕ → CustomModel
scenic_custom_model distance_influence = record {
  priority =
      rule road_environment ("FERRY" ∷ []) 0
      ∷ rule road_class ("MOTORWAY" ∷ "TRUNK" ∷ "PRIMARY" ∷ []) 5
      ∷ rule road_class ("SECONDARY" ∷ []) 25
      ∷ rule road_class ("TERTIARY" ∷ []) 50
      ∷ rule road_class ("PATH" ∷ "FOOTWAY" ∷ "TRACK" ∷ "BRIDLEWAY" ∷ "CYCLEWAY" ∷ []) 100
      ∷ rule road_class ("PEDESTRIAN" ∷ "LIVING_STREET" ∷ []) 90
      ∷ rule road_environment ("TUNNEL" ∷ []) 20
      ∷ rule surface ("GROUND" ∷ "DIRT" ∷ "GRASS" ∷ "COMPACTED" ∷ "FINE_GRAVEL" ∷ []) 100
      ∷ [];
  distance_influence = distance_influence;
}

-- The constraint on smoothness, for a graph that has the encoded value.
unfoldable pub smoothness_rules : Bool → List Rule
smoothness_rules true =
    rule smoothness ("BAD" ∷ "VERY_BAD" ∷ "HORRIBLE" ∷ "VERY_HORRIBLE" ∷ "IMPASSABLE" ∷ []) 0 ∷ []
smoothness_rules false = []

-- `with_smoothness` is None when the caller leaves it to the path details in use.
unfoldable pub accessible_custom_model : List String → Option Bool → CustomModel
unfolding elem smoothness_rules
accessible_custom_model path_details with_smoothness = record {
  priority =
      rule road_class ("STEPS" ∷ []) 0
      ∷ rule road_environment ("FERRY" ∷ []) 0
      ∷ rule surface
          ("GRAVEL" ∷ "GROUND" ∷ "DIRT" ∷ "SAND" ∷ "GRASS" ∷ "COBBLESTONE" ∷ "UNPAVED" ∷ "WOOD"
            ∷ [])
          0
      ∷ rule surface ("PAVED" ∷ "ASPHALT" ∷ "CONCRETE" ∷ "PAVING_STONES" ∷ "COMPACTED" ∷ []) 100
      ∷ smoothness_rules
          (elim with_smoothness [ none ↦ elem "smoothness" path_details | some b ↦ b ]);
  distance_influence = 60;
}

unfoldable pub quiet_custom_model : CustomModel
quiet_custom_model = record {
  priority =
      rule road_environment ("FERRY" ∷ []) 0
      ∷ rule road_class ("MOTORWAY" ∷ "TRUNK" ∷ []) 2
      ∷ rule road_class ("PRIMARY" ∷ []) 10
      ∷ rule road_class ("SECONDARY" ∷ []) 25
      ∷ rule road_class ("TERTIARY" ∷ []) 45
      ∷ rule road_class ("RESIDENTIAL" ∷ "UNCLASSIFIED" ∷ "SERVICE" ∷ "ROAD" ∷ []) 70
      ∷ rule road_environment ("TUNNEL" ∷ []) 15
      ∷ rule surface ("COBBLESTONE" ∷ []) 40
      ∷ [];
  distance_influence = 45;
}

unfoldable pub air_custom_model : CustomModel
air_custom_model = record {
  priority =
      rule road_environment ("FERRY" ∷ []) 0
      ∷ rule road_class ("MOTORWAY" ∷ "TRUNK" ∷ []) 2
      ∷ rule road_class ("PRIMARY" ∷ []) 8
      ∷ rule road_class ("SECONDARY" ∷ []) 22
      ∷ rule road_class ("TERTIARY" ∷ []) 45
      ∷ rule road_class ("RESIDENTIAL" ∷ "UNCLASSIFIED" ∷ "SERVICE" ∷ "ROAD" ∷ []) 75
      ∷ rule road_environment ("TUNNEL" ∷ []) 3
      ∷ [];
  distance_influence = 55;
}

unfoldable pub shade_custom_model : CustomModel
shade_custom_model = record {
  priority =
      rule road_environment ("FERRY" ∷ []) 0
      ∷ rule road_environment ("BRIDGE" ∷ []) 15
      ∷ rule road_class ("MOTORWAY" ∷ "TRUNK" ∷ []) 5
      ∷ rule road_class ("PRIMARY" ∷ []) 15
      ∷ rule road_class ("SECONDARY" ∷ "PEDESTRIAN" ∷ []) 30
      ∷ rule road_class ("TERTIARY" ∷ "ROAD" ∷ []) 40
      ∷ rule road_class ("SERVICE" ∷ "UNCLASSIFIED" ∷ "CYCLEWAY" ∷ "LIVING_STREET" ∷ "STEPS" ∷ [])
          55
      ∷ rule road_class ("RESIDENTIAL" ∷ []) 65
      ∷ rule road_class ("FOOTWAY" ∷ []) 75
      ∷ rule surface ("ASPHALT" ∷ "CONCRETE" ∷ "PAVED" ∷ "PAVING_STONES" ∷ "SAND" ∷ []) 60
      ∷ [];
  distance_influence = 35;
}
