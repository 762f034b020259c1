-- ===== src/Packed8/Tests.antt =====
-- Witnesses of the theorems on the instructions on four bytes.
use cdj2000_emulator.Packed8.Lanes.{FieldsOf, fields_of}

fields_of_example : FieldsOf 0xff00807f 0x01ff7f80
fields_of_example = fields_of 0xff00807f 0x01ff7f80
