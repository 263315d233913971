-- ===== src/Util/Uuid/Vendors.antt =====
-- src/util.c, `uuid16_table`, lines 531 to 650: the first of the vendor defined identifiers.
use sws.Base.{ℕ, String, List, [], ◌∷◌}

unfoldable pub vendor_uuids : List (ℕ × String)
vendor_uuids =
    (0xfeff, "GN Netcom")
    ∷ (0xfefe, "GN ReSound A/S")
    ∷ (0xfefd, "Gimbal, Inc.")
    ∷ (0xfefc, "Gimbal, Inc.")
    ∷ (0xfefb, "Stollmann E+V GmbH")
    ∷ (0xfefa, "PayPal, Inc.")
    ∷ (0xfef9, "PayPal, Inc.")
    ∷ (0xfef8, "Aplix Corporation")
    ∷ (0xfef7, "Aplix Corporation")
    ∷ (0xfef6, "Wicentric, Inc.")
    ∷ (0xfef5, "Dialog Semiconductor GmbH")
    ∷ (0xfef4, "Google")
    ∷ (0xfef3, "Google")
    ∷ (0xfef2, "CSR")
    ∷ (0xfef1, "CSR")
    ∷ (0xfef0, "Intel")
    ∷ (0xfeef, "Polar Electro Oy")
    ∷ (0xfeee, "Polar Electro Oy")
    ∷ (0xfeed, "Tile, Inc.")
    ∷ (0xfeec, "Tile, Inc.")
    ∷ (0xfeeb, "Swirl Networks, Inc.")
    ∷ (0xfeea, "Swirl Networks, Inc.")
    ∷ (0xfee9, "Quintic Corp.")
    ∷ (0xfee8, "Quintic Corp.")
    ∷ (0xfee7, "Tencent Holdings Limited")
    ∷ (0xfee6, "Seed Labs, Inc.")
    ∷ (0xfee5, "Nordic Semiconductor ASA")
    ∷ (0xfee4, "Nordic Semiconductor ASA")
    ∷ (0xfee3, "Anki, Inc.")
    ∷ (0xfee2, "Anki, Inc.")
    ∷ (0xfee1, "Anhui Huami Information Technology Co.")
    ∷ (0xfee0, "Anhui Huami Information Technology Co.")
    ∷ (0xfedf, "Design SHIFT")
    ∷ (0xfede, "Coin, Inc.")
    ∷ (0xfedd, "Jawbone")
    ∷ (0xfedc, "Jawbone")
    ∷ (0xfedb, "Perka, Inc.")
    ∷ (0xfeda, "ISSC Technologies Corporation")
    ∷ (0xfed9, "Pebble Technology Corporation")
    ∷ (0xfed8, "Google")
    ∷ (0xfed7, "Broadcom Corporation")
    ∷ (0xfed6, "Broadcom Corporation")
    ∷ (0xfed5, "Plantronics Inc.")
    ∷ (0xfed4, "Apple, Inc.")
    ∷ (0xfed3, "Apple, Inc.")
    ∷ (0xfed2, "Apple, Inc.")
    ∷ (0xfed1, "Apple, Inc.")
    ∷ (0xfed0, "Apple, Inc.")
    ∷ (0xfecf, "Apple, Inc.")
    ∷ (0xfece, "Apple, Inc.")
    ∷ (0xfecd, "Apple, Inc.")
    ∷ (0xfecc, "Apple, Inc.")
    ∷ (0xfecb, "Apple, Inc.")
    ∷ (0xfeca, "Apple, Inc.")
    ∷ (0xfec9, "Apple, Inc.")
    ∷ (0xfec8, "Apple, Inc.")
    ∷ (0xfec7, "Apple, Inc.")
    ∷ (0xfec6, "Kocomojo, LLC")
    ∷ (0xfec5, "Realtek Semiconductor Corp.")
    ∷ (0xfec4, "PLUS Location Systems")
    ∷ (0xfec3, "360fly, Inc.")
    ∷ (0xfec2, "Blue Spark Technologies, Inc.")
    ∷ (0xfec1, "KDDI Corporation")
    ∷ (0xfec0, "KDDI Corporation")
    ∷ (0xfebf, "Nod, Inc.")
    ∷ (0xfebe, "Bose Corporation")
    ∷ (0xfebd, "Clover Network, Inc.")
    ∷ (0xfebc, "Dexcom, Inc.")
    ∷ (0xfebb, "adafruit industries")
    ∷ (0xfeba, "Tencent Holdings Limited")
    ∷ (0xfeb9, "LG Electronics")
    ∷ (0xfeb8, "Facebook, Inc.")
    ∷ (0xfeb7, "Facebook, Inc.")
    ∷ (0xfeb6, "Vencer Co, Ltd")
    ∷ (0xfeb5, "WiSilica Inc.")
    ∷ (0xfeb4, "WiSilica Inc.")
    ∷ (0xfeb3, "Taobao")
    ∷ (0xfeb2, "Microsoft Corporation")
    ∷ (0xfeb1, "Electronics Tomorrow Limited")
    ∷ (0xfeb0, "Nest Labs Inc.")
    ∷ (0xfeaf, "Nest Labs Inc.")
    ∷ (0xfeae, "Nokia Corporation")
    ∷ (0xfead, "Nokia Corporation")
    ∷ (0xfeac, "Nokia Corporation")
    ∷ (0xfeab, "Nokia Corporation")
    ∷ (0xfeaa, "Google")
    ∷ (0xfea9, "Savant Systems LLC")
    ∷ (0xfea8, "Savant Systems LLC")
    ∷ (0xfea7, "UTC Fire and Security")
    ∷ (0xfea6, "GoPro, Inc.")
    ∷ (0xfea5, "GoPro, Inc.")
    ∷ (0xfea4, "Paxton Access Ltd")
    ∷ (0xfea3, "ITT Industries")
    ∷ (0xfea2, "Intrepid Control Systems, Inc.")
    ∷ (0xfea1, "Intrepid Control Systems, Inc.")
    ∷ (0xfea0, "Google")
    ∷ (0xfe9f, "Google")
    ∷ (0xfe9e, "Dialog Semiconductor B.V.")
    ∷ (0xfe9d, "Mobiquity Networks Inc")
    ∷ (0xfe9c, "GSI Laboratories, Inc.")
    ∷ (0xfe9b, "Samsara Networks, Inc")
    ∷ (0xfe9a, "Estimote")
    ∷ (0xfe99, "Currant, Inc.")
    ∷ (0xfe98, "Currant, Inc.")
    ∷ (0xfe97, "Tesla Motor Inc.")
    ∷ (0xfe96, "Tesla Motor Inc.")
    ∷ (0xfe95, "Xiaomi Inc.")
    ∷ (0xfe94, "OttoQ Inc.")
    ∷ (0xfe93, "OttoQ Inc.")
    ∷ (0xfe92, "Jarden Safety & Security")
    ∷ (0xfe91, "Shanghai Imilab Technology Co.,Ltd")
    ∷ (0xfe90, "JUMA")
    ∷ (0xfe8f, "CSR")
    ∷ (0xfe8e, "ARM Ltd")
    ∷ (0xfe8d, "Interaxon Inc.")
    ∷ (0xfe8c, "TRON Forum")
    ∷ (0xfe8b, "Apple, Inc.")
    ∷ (0xfe8a, "Apple, Inc.")
    ∷ (0xfe89, "B&O Play A/S")
    ∷ []
