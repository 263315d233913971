-- ===== src/Util/Uuid/Attributes.antt =====
-- src/util.c, `uuid16_table`, lines 258 to 405: the GATT services, declarations and descriptors, and the first characteristics.
use sws.Base.{ℕ, String, List, [], ◌∷◌}

unfoldable pub attribute_uuids : List (ℕ × String)
attribute_uuids =
    (0x1800, "Generic Access Profile")
    ∷ (0x1801, "Generic Attribute Profile")
    ∷ (0x1802, "Immediate Alert")
    ∷ (0x1803, "Link Loss")
    ∷ (0x1804, "Tx Power")
    ∷ (0x1805, "Current Time Service")
    ∷ (0x1806, "Reference Time Update Service")
    ∷ (0x1807, "Next DST Change Service")
    ∷ (0x1808, "Glucose")
    ∷ (0x1809, "Health Thermometer")
    ∷ (0x180a, "Device Information")
    ∷ (0x180d, "Heart Rate")
    ∷ (0x180e, "Phone Alert Status Service")
    ∷ (0x180f, "Battery Service")
    ∷ (0x1810, "Blood Pressure")
    ∷ (0x1811, "Alert Notification Service")
    ∷ (0x1812, "Human Interface Device")
    ∷ (0x1813, "Scan Parameters")
    ∷ (0x1814, "Running Speed and Cadence")
    ∷ (0x1815, "Automation IO")
    ∷ (0x1816, "Cycling Speed and Cadence")
    ∷ (0x1818, "Cycling Power")
    ∷ (0x1819, "Location and Navigation")
    ∷ (0x181a, "Environmental Sensing")
    ∷ (0x181b, "Body Composition")
    ∷ (0x181c, "User Data")
    ∷ (0x181d, "Weight Scale")
    ∷ (0x181e, "Bond Management")
    ∷ (0x181f, "Continuous Glucose Monitoring")
    ∷ (0x1820, "Internet Protocol Support")
    ∷ (0x1821, "Indoor Positioning")
    ∷ (0x1822, "Pulse Oximeter")
    ∷ (0x1823, "HTTP Proxy")
    ∷ (0x1824, "Transport Discovery")
    ∷ (0x1825, "Object Transfer")
    ∷ (0x1826, "Fitness Machine")
    ∷ (0x1827, "Mesh Provisioning")
    ∷ (0x1828, "Mesh Proxy")
    ∷ (0x2800, "Primary Service")
    ∷ (0x2801, "Secondary Service")
    ∷ (0x2802, "Include")
    ∷ (0x2803, "Characteristic")
    ∷ (0x2900, "Characteristic Extended Properties")
    ∷ (0x2901, "Characteristic User Description")
    ∷ (0x2902, "Client Characteristic Configuration")
    ∷ (0x2903, "Server Characteristic Configuration")
    ∷ (0x2904, "Characteristic Format")
    ∷ (0x2905, "Characteristic Aggregate Formate")
    ∷ (0x2906, "Valid Range")
    ∷ (0x2907, "External Report Reference")
    ∷ (0x2908, "Report Reference")
    ∷ (0x2909, "Number of Digitals")
    ∷ (0x290a, "Value Trigger Setting")
    ∷ (0x290b, "Environmental Sensing Configuration")
    ∷ (0x290c, "Environmental Sensing Measurement")
    ∷ (0x290d, "Environmental Sensing Trigger Setting")
    ∷ (0x290e, "Time Trigger Setting")
    ∷ (0x2a00, "Device Name")
    ∷ (0x2a01, "Appearance")
    ∷ (0x2a02, "Peripheral Privacy Flag")
    ∷ (0x2a03, "Reconnection Address")
    ∷ (0x2a04, "Peripheral Preferred Connection Parameters")
    ∷ (0x2a05, "Service Changed")
    ∷ (0x2a06, "Alert Level")
    ∷ (0x2a07, "Tx Power Level")
    ∷ (0x2a08, "Date Time")
    ∷ (0x2a09, "Day of Week")
    ∷ (0x2a0a, "Day Date Time")
    ∷ (0x2a0c, "Exact Time 256")
    ∷ (0x2a0d, "DST Offset")
    ∷ (0x2a0e, "Time Zone")
    ∷ (0x2a0f, "Local Time Information")
    ∷ (0x2a11, "Time with DST")
    ∷ (0x2a12, "Time Accuracy")
    ∷ (0x2a13, "Time Source")
    ∷ (0x2a14, "Reference Time Information")
    ∷ (0x2a16, "Time Update Control Point")
    ∷ (0x2a17, "Time Update State")
    ∷ (0x2a18, "Glucose Measurement")
    ∷ (0x2a19, "Battery Level")
    ∷ (0x2a1c, "Temperature Measurement")
    ∷ (0x2a1d, "Temperature Type")
    ∷ (0x2a1e, "Intermediate Temperature")
    ∷ (0x2a21, "Measurement Interval")
    ∷ (0x2a22, "Boot Keyboard Input Report")
    ∷ (0x2a23, "System ID")
    ∷ (0x2a24, "Model Number String")
    ∷ (0x2a25, "Serial Number String")
    ∷ (0x2a26, "Firmware Revision String")
    ∷ (0x2a27, "Hardware Revision String")
    ∷ (0x2a28, "Software Revision String")
    ∷ (0x2a29, "Manufacturer Name String")
    ∷ (0x2a2a, "IEEE 11073-20601 Regulatory Cert. Data List")
    ∷ (0x2a2b, "Current Time")
    ∷ (0x2a2c, "Magnetic Declination")
    ∷ (0x2a31, "Scan Refresh")
    ∷ (0x2a32, "Boot Keyboard Output Report")
    ∷ (0x2a33, "Boot Mouse Input Report")
    ∷ (0x2a34, "Glucose Measurement Context")
    ∷ (0x2a35, "Blood Pressure Measurement")
    ∷ (0x2a36, "Intermediate Cuff Pressure")
    ∷ (0x2a37, "Heart Rate Measurement")
    ∷ (0x2a38, "Body Sensor Location")
    ∷ (0x2a39, "Heart Rate Control Point")
    ∷ (0x2a3f, "Alert Status")
    ∷ (0x2a40, "Ringer Control Point")
    ∷ (0x2a41, "Ringer Setting")
    ∷ (0x2a42, "Alert Category ID Bit Mask")
    ∷ (0x2a43, "Alert Category ID")
    ∷ (0x2a44, "Alert Notification Control Point")
    ∷ (0x2a45, "Unread Alert Status")
    ∷ (0x2a46, "New Alert")
    ∷ (0x2a47, "Supported New Alert Category")
    ∷ (0x2a48, "Supported Unread Alert Category")
    ∷ (0x2a49, "Blood Pressure Feature")
    ∷ (0x2a4a, "HID Information")
    ∷ (0x2a4b, "Report Map")
    ∷ (0x2a4c, "HID Control Point")
    ∷ (0x2a4d, "Report")
    ∷ (0x2a4e, "Protocol Mode")
    ∷ (0x2a4f, "Scan Interval Window")
    ∷ (0x2a50, "PnP ID")
    ∷ (0x2a51, "Glucose Feature")
    ∷ (0x2a52, "Record Access Control Point")
    ∷ (0x2a53, "RSC Measurement")
    ∷ (0x2a54, "RSC Feature")
    ∷ (0x2a55, "SC Control Point")
    ∷ (0x2a56, "Digital")
    ∷ (0x2a58, "Analog")
    ∷ (0x2a5a, "Aggregate")
    ∷ (0x2a5b, "CSC Measurement")
    ∷ (0x2a5c, "CSC Feature")
    ∷ (0x2a5d, "Sensor Location")
    ∷ []
