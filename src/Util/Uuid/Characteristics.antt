-- ===== src/Util/Uuid/Characteristics.antt =====
-- src/util.c, `uuid16_table`, lines 406 to 530: the other GATT characteristics.
use sws.Base.{ℕ, String, List, [], ◌∷◌}

unfoldable pub characteristic_uuids : List (ℕ × String)
characteristic_uuids =
    (0x2a63, "Cycling Power Measurement")
    ∷ (0x2a64, "Cycling Power Vector")
    ∷ (0x2a65, "Cycling Power Feature")
    ∷ (0x2a66, "Cycling Power Control Point")
    ∷ (0x2a67, "Location and Speed")
    ∷ (0x2a68, "Navigation")
    ∷ (0x2a69, "Position Quality")
    ∷ (0x2a6a, "LN Feature")
    ∷ (0x2a6b, "LN Control Point")
    ∷ (0x2a6c, "Elevation")
    ∷ (0x2a6d, "Pressure")
    ∷ (0x2a6e, "Temperature")
    ∷ (0x2a6f, "Humidity")
    ∷ (0x2a70, "True Wind Speed")
    ∷ (0x2a71, "True Wind Direction")
    ∷ (0x2a72, "Apparent Wind Speed")
    ∷ (0x2a73, "Apparent Wind Direction")
    ∷ (0x2a74, "Gust Factor")
    ∷ (0x2a75, "Pollen Concentration")
    ∷ (0x2a76, "UV Index")
    ∷ (0x2a77, "Irradiance")
    ∷ (0x2a78, "Rainfall")
    ∷ (0x2a79, "Wind Chill")
    ∷ (0x2a7a, "Heat Index")
    ∷ (0x2a7b, "Dew Point")
    ∷ (0x2a7c, "Trend")
    ∷ (0x2a7d, "Descriptor Value Changed")
    ∷ (0x2a7e, "Aerobic Heart Rate Lower Limit")
    ∷ (0x2a7f, "Aerobic Threshold")
    ∷ (0x2a80, "Age")
    ∷ (0x2a81, "Anaerobic Heart Rate Lower Limit")
    ∷ (0x2a82, "Anaerobic Heart Rate Upper Limit")
    ∷ (0x2a83, "Anaerobic Threshold")
    ∷ (0x2a84, "Aerobic Heart Rate Upper Limit")
    ∷ (0x2a85, "Date of Birth")
    ∷ (0x2a86, "Date of Threshold Assessment")
    ∷ (0x2a87, "Email Address")
    ∷ (0x2a88, "Fat Burn Heart Rate Lower Limit")
    ∷ (0x2a89, "Fat Burn Heart Rate Upper Limit")
    ∷ (0x2a8a, "First Name")
    ∷ (0x2a8b, "Five Zone Heart Rate Limits")
    ∷ (0x2a8c, "Gender")
    ∷ (0x2a8d, "Heart Rate Max")
    ∷ (0x2a8e, "Height")
    ∷ (0x2a8f, "Hip Circumference")
    ∷ (0x2a90, "Last Name")
    ∷ (0x2a91, "Maximum Recommended Heart Rate")
    ∷ (0x2a92, "Resting Heart Rate")
    ∷ (0x2a93, "Sport Type for Aerobic/Anaerobic Thresholds")
    ∷ (0x2a94, "Three Zone Heart Rate Limits")
    ∷ (0x2a95, "Two Zone Heart Rate Limit")
    ∷ (0x2a96, "VO2 Max")
    ∷ (0x2a97, "Waist Circumference")
    ∷ (0x2a98, "Weight")
    ∷ (0x2a99, "Database Change Increment")
    ∷ (0x2a9a, "User Index")
    ∷ (0x2a9b, "Body Composition Feature")
    ∷ (0x2a9c, "Body Composition Measurement")
    ∷ (0x2a9d, "Weight Measurement")
    ∷ (0x2a9e, "Weight Scale Feature")
    ∷ (0x2a9f, "User Control Point")
    ∷ (0x2aa0, "Magnetic Flux Density - 2D")
    ∷ (0x2aa1, "Magnetic Flux Density - 3D")
    ∷ (0x2aa2, "Language")
    ∷ (0x2aa3, "Barometric Pressure Trend")
    ∷ (0x2aa4, "Bond Management Control Point")
    ∷ (0x2aa5, "Bond Management Feature")
    ∷ (0x2aa6, "Central Address Resolution")
    ∷ (0x2aa7, "CGM Measurement")
    ∷ (0x2aa8, "CGM Feature")
    ∷ (0x2aa9, "CGM Status")
    ∷ (0x2aaa, "CGM Session Start Time")
    ∷ (0x2aab, "CGM Session Run Time")
    ∷ (0x2aac, "CGM Specific Ops Control Point")
    ∷ (0x2aad, "Indoor Positioning Configuration")
    ∷ (0x2aae, "Latitude")
    ∷ (0x2aaf, "Longitude")
    ∷ (0x2ab0, "Local North Coordinate")
    ∷ (0x2ab1, "Local East Coordinate")
    ∷ (0x2ab2, "Floor Number")
    ∷ (0x2ab3, "Altitude")
    ∷ (0x2ab4, "Uncertainty")
    ∷ (0x2ab5, "Location Name")
    ∷ (0x2ab6, "URI")
    ∷ (0x2ab7, "HTTP Headers")
    ∷ (0x2ab8, "HTTP Status Code")
    ∷ (0x2ab9, "HTTP Entity Body")
    ∷ (0x2aba, "HTTP Control Point")
    ∷ (0x2abb, "HTTPS Security")
    ∷ (0x2abc, "TDS Control Point")
    ∷ (0x2abd, "OTS Feature")
    ∷ (0x2abe, "Object Name")
    ∷ (0x2abf, "Object Type")
    ∷ (0x2ac0, "Object Size")
    ∷ (0x2ac1, "Object First-Created")
    ∷ (0x2ac2, "Object Last-Modified")
    ∷ (0x2ac3, "Object ID")
    ∷ (0x2ac4, "Object Properties")
    ∷ (0x2ac5, "Object Action Control Point")
    ∷ (0x2ac6, "Object List Control Point")
    ∷ (0x2ac7, "Object List Filter")
    ∷ (0x2ac8, "Object Changed")
    ∷ (0x2ac9, "Resolvable Private Address Only")
    ∷ (0x2acc, "Fitness Machine Feature")
    ∷ (0x2acd, "Treadmill Data")
    ∷ (0x2ace, "Cross Trainer Data")
    ∷ (0x2acf, "Step Climber Data")
    ∷ (0x2ad0, "Stair Climber Data")
    ∷ (0x2ad1, "Rower Data")
    ∷ (0x2ad2, "Indoor Bike Data")
    ∷ (0x2ad3, "Training Status")
    ∷ (0x2ad4, "Supported Speed Range")
    ∷ (0x2ad5, "Supported Inclination Range")
    ∷ (0x2ad6, "Supported Resistance Level Range")
    ∷ (0x2ad7, "Supported Heart Rate Range")
    ∷ (0x2ad8, "Supported Power Range")
    ∷ (0x2ad9, "Fitness Machine Control Point")
    ∷ (0x2ada, "Fitness Machine Status")
    ∷ (0x2adb, "Mesh Provisioning Data In")
    ∷ (0x2adc, "Mesh Provisioning Data Out")
    ∷ (0x2add, "Mesh Proxy Data In")
    ∷ (0x2ade, "Mesh Proxy Data Out")
    ∷ (0x2b29, "Client Supported Features")
    ∷ (0x2b2a, "Database Hash")
    ∷ []
