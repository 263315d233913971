-- ===== src/Bluetooth/Children.antt =====
-- What stands below a device on the D-Bus: src/bluetooth.cpp takes it for a device too.
use sws.Base.{List}
