-- ===== src/Tests/Scanning.antt =====
-- Scanning an `int64` into 8 bits and into a text.
use go_sqldb.Prelude.{◌≡◌, refl, ◌⊎◌, codes, arith}
use go_sqldb.Query.{ℤ}
use go_sqldb.Query.ℤ.{negsuc}
use go_sqldb.Scan.{
  int64, string_value, bytes_value, int_dest, stored, stored_int, scan_error, overflows,
  scan_driver_value,
}
use go_sqldb.Scan.Bounds.{Fits, scan_int64-Fits}
use go_sqldb.Scan.Decimal.{scan_text-scan_int64}

-- -129
abbrev below : ℤ
below = negsuc 128

scan_int64-Fits_example :
    (Fits 7 below × (scan_driver_value (int_dest 8) (int64 below) ≡ stored (stored_int below)))
    ⊎ ((¬ Fits 7 below) × (scan_driver_value (int_dest 8) (int64 below) ≡ scan_error overflows))
scan_int64-Fits_example = scan_int64-Fits 7 below

-- -128
abbrev least : ℤ
least = negsuc 127

scan_text-scan_int64_example :
    (scan_driver_value (int_dest 8) (string_value (codes "-128")) ≡ stored (stored_int least))
    × (scan_driver_value (int_dest 8) (bytes_value (codes "-128")) ≡ stored (stored_int least))
unfolding scan_driver_value go_sqldb.Formatter.Placeholder.itoa
scan_text-scan_int64_example = scan_text-scan_int64 7 least (omega arith) (codes "-128") refl
