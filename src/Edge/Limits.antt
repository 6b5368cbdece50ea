-- ===== src/Edge/Limits.antt =====
-- The edge's own constants (clients/pi/tagpulse_edge/wm_v2_producer.py), which the backend's module
-- holds in a second copy. Degrees and percents are millionths.
use tag_pulse.Prelude.{ℕ, ℤ, pos, negsuc}

abbrev pub epc_min_hex_chars : ℕ
epc_min_hex_chars = 8

abbrev pub epc_max_hex_chars : ℕ
epc_max_hex_chars = 124

abbrev pub antenna_min : ℤ
antenna_min = pos 0

abbrev pub antenna_max : ℤ
antenna_max = pos 255

abbrev pub rssi_min : ℤ
rssi_min = negsuc 126

abbrev pub rssi_max : ℤ
rssi_max = pos 0

abbrev pub cnt_min : ℤ
cnt_min = pos 1

abbrev pub cnt_max : ℤ
cnt_max = pos 65535

abbrev pub lat_min : ℤ
lat_min = negsuc 89999999

abbrev pub lat_max : ℤ
lat_max = pos 90000000

abbrev pub lon_min : ℤ
lon_min = negsuc 179999999

abbrev pub lon_max : ℤ
lon_max = pos 180000000

abbrev pub tmp_min : ℤ
tmp_min = negsuc 39999999

abbrev pub tmp_max : ℤ
tmp_max = pos 85000000

abbrev pub hum_min : ℤ
hum_min = pos 0

abbrev pub hum_max : ℤ
hum_max = pos 100000000
