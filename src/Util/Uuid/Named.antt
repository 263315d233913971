-- ===== src/Util/Uuid/Named.antt =====
-- src/util.c, `uuid128_table`: the 128-bit identifiers that have a name of their own.
use sws.Base.{String, List, [], ◌∷◌}

unfoldable pub uuid128_table : List (String × String)
uuid128_table =
    ("a3c87500-8ed3-4bdf-8a39-a01bebede295", "Eddystone Configuration Service")
    ∷ ("a3c87501-8ed3-4bdf-8a39-a01bebede295", "Capabilities")
    ∷ ("a3c87502-8ed3-4bdf-8a39-a01bebede295", "Active Slot")
    ∷ ("a3c87503-8ed3-4bdf-8a39-a01bebede295", "Advertising Interval")
    ∷ ("a3c87504-8ed3-4bdf-8a39-a01bebede295", "Radio Tx Power")
    ∷ ("a3c87505-8ed3-4bdf-8a39-a01bebede295", "(Advanced) Advertised Tx Power")
    ∷ ("a3c87506-8ed3-4bdf-8a39-a01bebede295", "Lock State")
    ∷ ("a3c87507-8ed3-4bdf-8a39-a01bebede295", "Unlock")
    ∷ ("a3c87508-8ed3-4bdf-8a39-a01bebede295", "Public ECDH Key")
    ∷ ("a3c87509-8ed3-4bdf-8a39-a01bebede295", "EID Identity Key")
    ∷ ("a3c8750a-8ed3-4bdf-8a39-a01bebede295", "ADV Slot Data")
    ∷ ("a3c8750b-8ed3-4bdf-8a39-a01bebede295", "(Advanced) Factory reset")
    ∷ ("a3c8750c-8ed3-4bdf-8a39-a01bebede295", "(Advanced) Remain Connectable")
    ∷ ("e95d0753-251d-470a-a062-fa1922dfa9a8", "MicroBit Accelerometer Service")
    ∷ ("e95dca4b-251d-470a-a062-fa1922dfa9a8", "MicroBit Accelerometer Data")
    ∷ ("e95dfb24-251d-470a-a062-fa1922dfa9a8", "MicroBit Accelerometer Period")
    ∷ ("e95df2d8-251d-470a-a062-fa1922dfa9a8", "MicroBit Magnetometer Service")
    ∷ ("e95dfb11-251d-470a-a062-fa1922dfa9a8", "MicroBit Magnetometer Data")
    ∷ ("e95d386c-251d-470a-a062-fa1922dfa9a8", "MicroBit Magnetometer Period")
    ∷ ("e95d9715-251d-470a-a062-fa1922dfa9a8", "MicroBit Magnetometer Bearing")
    ∷ ("e95d9882-251d-470a-a062-fa1922dfa9a8", "MicroBit Button Service")
    ∷ ("e95dda90-251d-470a-a062-fa1922dfa9a8", "MicroBit Button A State")
    ∷ ("e95dda91-251d-470a-a062-fa1922dfa9a8", "MicroBit Button B State")
    ∷ ("e95d127b-251d-470a-a062-fa1922dfa9a8", "MicroBit IO PIN Service")
    ∷ ("e95d8d00-251d-470a-a062-fa1922dfa9a8", "MicroBit PIN Data")
    ∷ ("e95d5899-251d-470a-a062-fa1922dfa9a8", "MicroBit PIN AD Configuration")
    ∷ ("e95dd822-251d-470a-a062-fa1922dfa9a8", "MicroBit PWM Control")
    ∷ ("e95dd91d-251d-470a-a062-fa1922dfa9a8", "MicroBit LED Service")
    ∷ ("e95d7b77-251d-470a-a062-fa1922dfa9a8", "MicroBit LED Matrix state")
    ∷ ("e95d93ee-251d-470a-a062-fa1922dfa9a8", "MicroBit LED Text")
    ∷ ("e95d0d2d-251d-470a-a062-fa1922dfa9a8", "MicroBit Scrolling Delay")
    ∷ ("e95d93af-251d-470a-a062-fa1922dfa9a8", "MicroBit Event Service")
    ∷ ("e95db84c-251d-470a-a062-fa1922dfa9a8", "MicroBit Requirements")
    ∷ ("e95d9775-251d-470a-a062-fa1922dfa9a8", "MicroBit Event Data")
    ∷ ("e95d23c4-251d-470a-a062-fa1922dfa9a8", "MicroBit Client Requirements")
    ∷ ("e95d5404-251d-470a-a062-fa1922dfa9a8", "MicroBit Client Events")
    ∷ ("e95d93b0-251d-470a-a062-fa1922dfa9a8", "MicroBit DFU Control Service")
    ∷ ("e95d93b1-251d-470a-a062-fa1922dfa9a8", "MicroBit DFU Control")
    ∷ ("e95d6100-251d-470a-a062-fa1922dfa9a8", "MicroBit Temperature Service")
    ∷ ("e95d1b25-251d-470a-a062-fa1922dfa9a8", "MicroBit Temperature Period")
    ∷ ("6e400001-b5a3-f393-e0a9-e50e24dcca9e", "Nordic UART Service")
    ∷ ("6e400002-b5a3-f393-e0a9-e50e24dcca9e", "Nordic UART TX")
    ∷ ("6e400003-b5a3-f393-e0a9-e50e24dcca9e", "Nordic UART RX")
    ∷ []
