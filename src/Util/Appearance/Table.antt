-- ===== src/Util/Appearance/Table.antt =====
-- src/util.c, `appearance_table`: the appearance values, each category before its members.
use sws.Base.{ℕ, Bool, true, false, String, List, [], ◌∷◌}

pub record Appearance : Type 0 where
  pub val : ℕ
  pub generic : Bool
  pub str : String

abbrev appearance : ℕ → Bool → String → Appearance
appearance v g s = record { val = v; generic = g; str = s }

unfoldable pub appearance_table : List Appearance
appearance_table =
    appearance 0 true "Unknown"
    ∷ appearance 64 true "Phone"
    ∷ appearance 128 true "Computer"
    ∷ appearance 192 true "Watch"
    ∷ appearance 193 false "Sports Watch"
    ∷ appearance 256 true "Clock"
    ∷ appearance 320 true "Display"
    ∷ appearance 384 true "Remote Control"
    ∷ appearance 448 true "Eye-glasses"
    ∷ appearance 512 true "Tag"
    ∷ appearance 576 true "Keyring"
    ∷ appearance 640 true "Media Player"
    ∷ appearance 704 true "Barcode Scanner"
    ∷ appearance 768 true "Thermometer"
    ∷ appearance 769 false "Thermometer: Ear"
    ∷ appearance 832 true "Heart Rate Sensor"
    ∷ appearance 833 false "Heart Rate Belt"
    ∷ appearance 896 true "Blood Pressure"
    ∷ appearance 897 false "Blood Pressure: Arm"
    ∷ appearance 898 false "Blood Pressure: Wrist"
    ∷ appearance 960 true "Human Interface Device"
    ∷ appearance 961 false "Keyboard"
    ∷ appearance 962 false "Mouse"
    ∷ appearance 963 false "Joystick"
    ∷ appearance 964 false "Gamepad"
    ∷ appearance 965 false "Digitizer Tablet"
    ∷ appearance 966 false "Card Reader"
    ∷ appearance 967 false "Digital Pen"
    ∷ appearance 968 false "Barcode Scanner"
    ∷ appearance 1024 true "Glucose Meter"
    ∷ appearance 1088 true "Running Walking Sensor"
    ∷ appearance 1089 false "Running Walking Sensor: In-Shoe"
    ∷ appearance 1090 false "Running Walking Sensor: On-Shoe"
    ∷ appearance 1091 false "Running Walking Sensor: On-Hip"
    ∷ appearance 1152 true "Cycling"
    ∷ appearance 1153 false "Cycling: Cycling Computer"
    ∷ appearance 1154 false "Cycling: Speed Sensor"
    ∷ appearance 1155 false "Cycling: Cadence Sensor"
    ∷ appearance 1156 false "Cycling: Power Sensor"
    ∷ appearance 1157 false "Cycling: Speed and Cadence Sensor"
    ∷ appearance 1216 true "Undefined"
    ∷ appearance 3136 true "Pulse Oximeter"
    ∷ appearance 3137 false "Pulse Oximeter: Fingertip"
    ∷ appearance 3138 false "Pulse Oximeter: Wrist Worn"
    ∷ appearance 3200 true "Weight Scale"
    ∷ appearance 3264 true "Undefined"
    ∷ appearance 5184 true "Outdoor Sports Activity"
    ∷ appearance 5185 false "Location Display Device"
    ∷ appearance 5186 false "Location and Navigation Display Device"
    ∷ appearance 5187 false "Location Pod"
    ∷ appearance 5188 false "Location and Navigation Pod"
    ∷ appearance 5248 true "Undefined"
    ∷ []
