-- ===== src/Reader/Stubs.antt =====
-- The two functions that are not finished: `sf_read_code` of tools/bar.c and `sf_scan_code` of sf_reader.c.
use smart_fridge.Prelude.{Bytes, codes, Option, none}
use smart_fridge.Decoder.{ProductNode}

abbrev pub sf_read_code : Bytes
sf_read_code = codes "asdfg"

abbrev pub sf_scan_code : Option ProductNode
sf_scan_code = none
