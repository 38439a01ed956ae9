-- ===== src/Cdr.antt =====
-- serialization/Cdr.h and Cdr.cpp: the CDR writer and reader.
-- `data_` and `size_` are the list of the bytes that it may read and its length; a null `data_` with
-- a size other than 0 is no list, and no caller makes one. A read returns `none` for `false`, and the
-- reader after it; what it leaves in its out-parameter when it fails is read by nobody.
pub mod Writer
pub mod Reader
pub mod Bytes
pub mod RoundTrip
pub mod Written
pub mod Payload
