-- ===== src/Util/Uuid/Members.antt =====
-- src/util.c, `uuid16_table`, lines 651 to 764: the other vendor defined identifiers, and those of the standards bodies.
use sws.Base.{ℕ, String, List, [], ◌∷◌}

unfoldable pub member_uuids : List (ℕ × String)
member_uuids =
    (0xfe88, "SALTO SYSTEMS S.L.")
    ∷ (0xfe87, "Qingdao Yeelink Information Technology Co., Ltd. ( 青岛亿联客信息技术有限公司 )")
    ∷ (0xfe86, "HUAWEI Technologies Co., Ltd. ( 华为技术有限公司 )")
    ∷ (0xfe85, "RF Digital Corp")
    ∷ (0xfe84, "RF Digital Corp")
    ∷ (0xfe83, "Blue Bite")
    ∷ (0xfe82, "Medtronic Inc.")
    ∷ (0xfe81, "Medtronic Inc.")
    ∷ (0xfe80, "Doppler Lab")
    ∷ (0xfe7f, "Doppler Lab")
    ∷ (0xfe7e, "Awear Solutions Ltd")
    ∷ (0xfe7d, "Aterica Health Inc.")
    ∷ (0xfe7c, "Stollmann E+V GmbH")
    ∷ (0xfe7b, "Orion Labs, Inc.")
    ∷ (0xfe7a, "Bragi GmbH")
    ∷ (0xfe79, "Zebra Technologies")
    ∷ (0xfe78, "Hewlett-Packard Company")
    ∷ (0xfe77, "Hewlett-Packard Company")
    ∷ (0xfe76, "TangoMe")
    ∷ (0xfe75, "TangoMe")
    ∷ (0xfe74, "unwire")
    ∷ (0xfe73, "St. Jude Medical, Inc.")
    ∷ (0xfe72, "St. Jude Medical, Inc.")
    ∷ (0xfe71, "Plume Design Inc")
    ∷ (0xfe70, "Beijing Jingdong Century Trading Co., Ltd.")
    ∷ (0xfe6f, "LINE Corporation")
    ∷ (0xfe6e, "The University of Tokyo")
    ∷ (0xfe6d, "The University of Tokyo")
    ∷ (0xfe6c, "TASER International, Inc.")
    ∷ (0xfe6b, "TASER International, Inc.")
    ∷ (0xfe6a, "Kontakt Micro-Location Sp. z o.o.")
    ∷ (0xfe69, "Qualcomm Life Inc")
    ∷ (0xfe68, "Qualcomm Life Inc")
    ∷ (0xfe67, "Lab Sensor Solutions")
    ∷ (0xfe66, "Intel Corporation")
    ∷ (0xfe65, "CHIPOLO d.o.o.")
    ∷ (0xfe64, "Siemens AG")
    ∷ (0xfe63, "Connected Yard, Inc.")
    ∷ (0xfe62, "Indagem Tech LLC")
    ∷ (0xfe61, "Logitech International SA")
    ∷ (0xfe60, "Lierda Science & Technology Group Co., Ltd.")
    ∷ (0xfe5f, "Eyefi, Inc.")
    ∷ (0xfe5e, "Plastc Corporation")
    ∷ (0xfe5d, "Grundfos A/S")
    ∷ (0xfe5c, "million hunters GmbH")
    ∷ (0xfe5b, "GT-tronics HK Ltd")
    ∷ (0xfe5a, "Chronologics Corporation")
    ∷ (0xfe59, "Nordic Semiconductor ASA")
    ∷ (0xfe58, "Nordic Semiconductor ASA")
    ∷ (0xfe57, "Dotted Labs")
    ∷ (0xfe56, "Google Inc.")
    ∷ (0xfe55, "Google Inc.")
    ∷ (0xfe54, "Motiv, Inc.")
    ∷ (0xfe53, "3M")
    ∷ (0xfe52, "SetPoint Medical")
    ∷ (0xfe51, "SRAM")
    ∷ (0xfe50, "Google Inc.")
    ∷ (0xfe4f, "Molekule, Inc.")
    ∷ (0xfe4e, "NTT docomo")
    ∷ (0xfe4d, "Casambi Technologies Oy")
    ∷ (0xfe4c, "Volkswagen AG")
    ∷ (0xfe4b, "Koninklijke Philips N.V.")
    ∷ (0xfe4a, "OMRON HEALTHCARE Co., Ltd.")
    ∷ (0xfe49, "SenionLab AB")
    ∷ (0xfe48, "General Motors")
    ∷ (0xfe47, "General Motors")
    ∷ (0xfe46, "B&O Play A/S")
    ∷ (0xfe45, "Snapchat Inc")
    ∷ (0xfe44, "SK Telecom")
    ∷ (0xfe43, "Andreas Stihl AG & Co. KG")
    ∷ (0xfe42, "Nets A/S")
    ∷ (0xfe41, "Inugo Systems Limited")
    ∷ (0xfe40, "Inugo Systems Limited")
    ∷ (0xfe3f, "Friday Labs Limited")
    ∷ (0xfe3e, "BD Medical")
    ∷ (0xfe3d, "BD Medical")
    ∷ (0xfe3c, "Alibaba")
    ∷ (0xfe3b, "Dolby Laboratories")
    ∷ (0xfe3a, "TTS Tooltechnic Systems AG & Co. KG")
    ∷ (0xfe39, "TTS Tooltechnic Systems AG & Co. KG")
    ∷ (0xfe38, "Spaceek LTD")
    ∷ (0xfe37, "Spaceek LTD")
    ∷ (0xfe36, "HUAWEI Technologies Co., Ltd")
    ∷ (0xfe35, "HUAWEI Technologies Co., Ltd")
    ∷ (0xfe34, "SmallLoop LLC")
    ∷ (0xfe33, "CHIPOLO d.o.o.")
    ∷ (0xfe32, "Pro-Mark, Inc.")
    ∷ (0xfe31, "Volkswagen AG")
    ∷ (0xfe30, "Volkswagen AG")
    ∷ (0xfe2f, "CRESCO Wireless, Inc")
    ∷ (0xfe2e, "ERi,Inc.")
    ∷ (0xfe2d, "SMART INNOVATION Co.,Ltd")
    ∷ (0xfe2c, "Google Inc.")
    ∷ (0xfe2b, "ITT Industries")
    ∷ (0xfe2a, "DaisyWorks, Inc.")
    ∷ (0xfe29, "Gibson Innovations")
    ∷ (0xfe28, "Ayla Network")
    ∷ (0xfe27, "Google Inc.")
    ∷ (0xfe26, "Google Inc.")
    ∷ (0xfe25, "Apple, Inc.")
    ∷ (0xfe24, "August Home Inc")
    ∷ (0xfe23, "Zoll Medical Corporation")
    ∷ (0xfe22, "Zoll Medical Corporation")
    ∷ (0xfe21, "Bose Corporation")
    ∷ (0xfe20, "Emerson")
    ∷ (0xfe1f, "Garmin International, Inc.")
    ∷ (0xfe1e, "Smart Innovations Co., Ltd")
    ∷ (0xfe1d, "Illuminati Instrument Corporation")
    ∷ (0xfe1c, "NetMedia, Inc.")
    ∷ (0xfffc, "AirFuel Alliance")
    ∷ (0xfffe, "Alliance for Wireless Power (A4WP)")
    ∷ (0xfffd, "Fast IDentity Online Alliance (FIDO)")
    ∷ []
