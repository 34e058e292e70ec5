-- ===== src/Header.antt =====
-- The header of an HTTP request, make_header of module/az.c with its three formats, and the date in
-- it, utc_rfc1123_date of module/dysk_utils.c. `Tm` is what time64_to_tm gives. sprintf of an
-- unsigned long is the `print` of a value of Numerals; the device sizes are those of 64-bit systems.
pub mod Range
pub mod Date
use dysk.Base.{
  Bool, Bytes, List, Option, [], codes, get_or, if◌then◌else◌, ltb, none, not, some, ℕ, ◌%◌, ◌*◌,
  ◌++◌, ◌+◌, ◌-◌, ◌==◌, ◌∷◌,
}
use dysk.Text.{c_str}
use dysk.Def.{DyskDef, Numerals}
use dysk.Worker.{word}
use dysk.Transfer.Send.{BlkRequest, blk_rq_bytes}

-- `struct tm`
pub record Tm : Type 0 where
  pub sec : ℕ
  pub min : ℕ
  pub hour : ℕ
  pub mday : ℕ
  pub mon : ℕ
  pub year : ℕ
  pub wday : ℕ

abbrev pub day_names : List Bytes
day_names =
    codes "Sun"
    ∷ codes "Mon"
    ∷ codes "Tue"
    ∷ codes "Wed"
    ∷ codes "Thu"
    ∷ codes "Fri"
    ∷ codes "Sat"
    ∷ []

abbrev pub month_names : List Bytes
month_names =
    codes "Jan"
    ∷ codes "Feb"
    ∷ codes "Mar"
    ∷ codes "Apr"
    ∷ codes "May"
    ∷ codes "Jun"
    ∷ codes "Jul"
    ∷ codes "Aug"
    ∷ codes "Sep"
    ∷ codes "Oct"
    ∷ codes "Nov"
    ∷ codes "Dec"
    ∷ []

abbrev pub date_length : ℕ
date_length = 32

abbrev pub header_length : ℕ
header_length = 1024

-- `(u64) blk_rq_pos(req) << 9` and `range_start + blk_rq_bytes(req) - 1`
unfoldable pub range_start : BlkRequest → ℕ
range_start req = (req.sector * 512) % word

unfoldable pub range_end : BlkRequest → ℕ
range_end req = (range_start req + blk_rq_bytes req + word - 1) % word

module _ (nums : Numerals) where
  open nums use {print}

  -- `sprintf(day, n < 10 ? "0%d" : "%d", n)`
  unfoldable pub two_digits : ℕ → Bytes
  two_digits n = if ltb n 10 then b'0' ∷ print n else print n

  unfoldable pub utc_rfc1123_date : Tm → Bytes
  utc_rfc1123_date t =
      get_or day_names t.wday []
      ++ (codes ", "
          ++ (two_digits t.mday
              ++ (b' '
                  ∷ (get_or month_names t.mon []
                      ++ (b' '
                          ∷ (print (t.year + 1900)
                              ++ (b' '
                                  ∷ (two_digits t.hour
                                      ++ (b':'
                                          ∷ (two_digits t.min
                                              ++ (b':'
                                                  ∷ (two_digits t.sec ++ codes " GMT"))))))))))))

  -- The lines from the range on, which the three formats share.
  unfoldable pub from_range : BlkRequest → Bytes → Bytes
  from_range req date =
      codes "x-ms-range: bytes="
      ++ (print (range_start req)
          ++ (b'-'
              ∷ (print (range_end req)
                  ++ (codes "\r\nx-ms-date: "
                      ++ (date
                          ++ codes
                              "\r\nUserAgent: dysk/0.0.1\r\nx-ms-version: 2017-04-17\r\n\r\n")))))

  unfoldable pub put_request_head : DyskDef → BlkRequest → Bytes → Bytes
  put_request_head def req date =
      codes "PUT "
      ++ (c_str def.path
          ++ (codes "?comp=page&"
              ++ (c_str def.sas
                  ++ (codes " HTTP/1.1\r\nHost: "
                      ++ (c_str def.host
                          ++ (codes "\r\nx-ms-lease-id: "
                              ++ (c_str def.lease_id
                                  ++ (codes "\r\nContent-Length: "
                                      ++ (print (blk_rq_bytes req)
                                          ++ (codes "\r\nx-ms-page-write: update\r\n"
                                              ++ from_range req date))))))))))

  unfoldable pub get_request_head : DyskDef → BlkRequest → Bytes → Bytes
  get_request_head def req date =
      codes "GET "
      ++ (c_str def.path
          ++ (b'?'
              ∷ (c_str def.sas
                  ++ (codes " HTTP/1.1\r\nHost: "
                      ++ (c_str def.host
                          ++ (codes "\r\nx-ms-lease-id: "
                              ++ (c_str def.lease_id
                                  ++ (codes "\r\nContent-Length: "
                                      ++ (print 0 ++ (codes "\r\n" ++ from_range req date))))))))))

  unfoldable pub get_request_head_no_lease : DyskDef → BlkRequest → Bytes → Bytes
  get_request_head_no_lease def req date =
      codes "GET "
      ++ (c_str def.path
          ++ (b'?'
              ∷ (c_str def.sas
                  ++ (codes " HTTP/1.1\r\nHost: "
                      ++ (c_str def.host
                          ++ (codes "\r\nContent-Length: "
                              ++ (print 0 ++ (codes "\r\n" ++ from_range req date))))))))

  -- make_header: the text, `none` when there is no memory for the date.
  unfoldable pub make_header : Bool → Tm → DyskDef → BlkRequest → Option Bytes
  make_header date_alloc now def req =
      let date = utc_rfc1123_date now in
      if not date_alloc
      then none
      else some (
          if req.write
          then put_request_head def req date
          else if def.read_only == 1
          then get_request_head_no_lease def req date
          else get_request_head def req date)
