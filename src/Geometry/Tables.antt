-- ===== src/Geometry/Tables.antt =====
-- backend/geometry.py: the tables that score a tag, in hundredths.
use meander.Common.{List, String, [], ℕ, ◌∷◌}

abbrev pub Table : Type 0
Table = List (String × ℕ)

-- ROAD_CLASS_NATURALNESS
abbrev pub road_class_naturalness : Table
road_class_naturalness =
    ("PATH", 100)
    ∷ ("TRACK", 95)
    ∷ ("BRIDLEWAY", 95)
    ∷ ("FOOTWAY", 75)
    ∷ ("CYCLEWAY", 70)
    ∷ ("PEDESTRIAN", 60)
    ∷ ("STEPS", 60)
    ∷ ("LIVING_STREET", 55)
    ∷ ("RESIDENTIAL", 40)
    ∷ ("SERVICE", 35)
    ∷ ("UNCLASSIFIED", 35)
    ∷ ("ROAD", 30)
    ∷ ("TERTIARY", 25)
    ∷ ("SECONDARY", 15)
    ∷ ("PRIMARY", 8)
    ∷ ("TRUNK", 2)
    ∷ ("MOTORWAY", 0)
    ∷ []

-- SURFACE_NATURALNESS
abbrev pub surface_naturalness : Table
surface_naturalness =
    ("GROUND", 100)
    ∷ ("DIRT", 100)
    ∷ ("EARTH", 100)
    ∷ ("GRASS", 100)
    ∷ ("SAND", 90)
    ∷ ("WOOD", 90)
    ∷ ("FINE_GRAVEL", 80)
    ∷ ("GRAVEL", 75)
    ∷ ("COMPACTED", 70)
    ∷ ("COBBLESTONE", 45)
    ∷ ("PAVING_STONES", 40)
    ∷ ("UNPAVED", 80)
    ∷ ("CONCRETE", 20)
    ∷ ("ASPHALT", 15)
    ∷ ("PAVED", 20)
    ∷ []

-- ROAD_CLASS_AIR_PROXY
abbrev pub road_class_air_proxy : Table
road_class_air_proxy =
    ("MOTORWAY", 0)
    ∷ ("TRUNK", 5)
    ∷ ("PRIMARY", 15)
    ∷ ("SECONDARY", 30)
    ∷ ("TERTIARY", 45)
    ∷ ("ROAD", 55)
    ∷ ("SERVICE", 60)
    ∷ ("UNCLASSIFIED", 60)
    ∷ ("RESIDENTIAL", 65)
    ∷ ("LIVING_STREET", 75)
    ∷ ("PEDESTRIAN", 85)
    ∷ ("CYCLEWAY", 85)
    ∷ ("FOOTWAY", 85)
    ∷ ("STEPS", 85)
    ∷ ("BRIDLEWAY", 95)
    ∷ ("TRACK", 95)
    ∷ ("PATH", 100)
    ∷ []

-- ROAD_CLASS_QUIET_PROXY
abbrev pub road_class_quiet_proxy : Table
road_class_quiet_proxy =
    ("MOTORWAY", 0)
    ∷ ("TRUNK", 3)
    ∷ ("PRIMARY", 12)
    ∷ ("SECONDARY", 28)
    ∷ ("TERTIARY", 45)
    ∷ ("ROAD", 55)
    ∷ ("UNCLASSIFIED", 62)
    ∷ ("RESIDENTIAL", 68)
    ∷ ("SERVICE", 70)
    ∷ ("LIVING_STREET", 85)
    ∷ ("FOOTWAY", 88)
    ∷ ("CYCLEWAY", 90)
    ∷ ("STEPS", 90)
    ∷ ("PEDESTRIAN", 92)
    ∷ ("TRACK", 95)
    ∷ ("BRIDLEWAY", 97)
    ∷ ("PATH", 100)
    ∷ []

-- SURFACE_QUIET
abbrev pub surface_quiet : Table
surface_quiet =
    ("ASPHALT", 100)
    ∷ ("GRASS", 95)
    ∷ ("PAVED", 95)
    ∷ ("CONCRETE", 90)
    ∷ ("COMPACTED", 90)
    ∷ ("GROUND", 90)
    ∷ ("DIRT", 90)
    ∷ ("EARTH", 90)
    ∷ ("SAND", 85)
    ∷ ("UNPAVED", 80)
    ∷ ("FINE_GRAVEL", 75)
    ∷ ("WOOD", 55)
    ∷ ("GRAVEL", 55)
    ∷ ("PAVING_STONES", 45)
    ∷ ("COBBLESTONE", 20)
    ∷ []

-- ROAD_CLASS_CANOPY_PROXY
abbrev pub road_class_canopy_proxy : Table
road_class_canopy_proxy =
    ("MOTORWAY", 5)
    ∷ ("TRUNK", 8)
    ∷ ("PRIMARY", 15)
    ∷ ("SECONDARY", 25)
    ∷ ("PEDESTRIAN", 25)
    ∷ ("ROAD", 35)
    ∷ ("TERTIARY", 35)
    ∷ ("SERVICE", 40)
    ∷ ("UNCLASSIFIED", 40)
    ∷ ("CYCLEWAY", 50)
    ∷ ("LIVING_STREET", 50)
    ∷ ("STEPS", 50)
    ∷ ("RESIDENTIAL", 55)
    ∷ ("FOOTWAY", 60)
    ∷ ("TRACK", 80)
    ∷ ("PATH", 85)
    ∷ ("BRIDLEWAY", 85)
    ∷ []

-- SURFACE_CANOPY_PROXY
abbrev pub surface_canopy_proxy : Table
surface_canopy_proxy =
    ("SAND", 20)
    ∷ ("CONCRETE", 25)
    ∷ ("ASPHALT", 30)
    ∷ ("PAVED", 30)
    ∷ ("PAVING_STONES", 30)
    ∷ ("COBBLESTONE", 40)
    ∷ ("GRASS", 50)
    ∷ ("GRAVEL", 60)
    ∷ ("FINE_GRAVEL", 60)
    ∷ ("COMPACTED", 60)
    ∷ ("UNPAVED", 70)
    ∷ ("WOOD", 80)
    ∷ ("GROUND", 85)
    ∷ ("DIRT", 85)
    ∷ ("EARTH", 85)
    ∷ []

-- ROAD_ENVIRONMENT_COVER
abbrev pub road_environment_cover : Table
road_environment_cover = ("TUNNEL", 100) ∷ ("BRIDGE", 10) ∷ []
