-- ===== src/ErrorList.antt =====
-- The error list of soem/ethercatmain.c: `ec_eringt`, `ecx_pusherror`, `ecx_poperror`,
-- `ecx_iserror` and the functions that report an error through it.
pub mod Queue
pub mod Ring
mod Tests
use e_rob_soem_linux.Base.{
  ℕ, ◌+◌, ◌/◌, ◌%◌, Bool, true, false, not, List, if◌then◌else◌, ltb, ◌==◌, get_or, set,
}
use e_rob_soem_linux.Osal.{Time}

-- `ec_err_type`
pub data ErrType : Type 0 where
  sdo_error emergency packet_error sdoinfo_error foe_error foe_buf2small : ErrType
  foe_packetnumber soe_error mbx_error foe_file_notfound eoe_invalid_rx_data : ErrType

-- `ec_errort`, with the union read as its struct; `AbortCode` lies over the first fields of it.
pub record Error : Type 0 where
  pub time : Time
  pub signal : Bool
  pub slave : ℕ
  pub index : ℕ
  pub sub_idx : ℕ
  pub etype : ErrType
  pub error_code : ℕ
  pub error_reg : ℕ
  pub b1 : ℕ
  pub w1 : ℕ
  pub w2 : ℕ

abbrev pub max_elist : ℕ
max_elist = 64

-- `ec_eringt` with the flag `ecaterror` of the context; `error` has `max_elist + 1` places.
pub record Ering : Type 0 where
  pub head : ℕ
  pub tail : ℕ
  pub error : List Error
  pub ecaterror : Bool

-- What a read outside the array would give: never used, by `IsValid`.
abbrev pub blank : Error
blank = record {
  time = record { sec = 0; usec = 0 };
  signal = false;
  slave = 0;
  index = 0;
  sub_idx = 0;
  etype = sdo_error;
  error_code = 0;
  error_reg = 0;
  b1 = 0;
  w1 = 0;
  w2 = 0;
}

-- `i++; if (i > EC_MAXELIST) i = 0;`
abbrev pub next : ℕ → ℕ
next i = if ltb max_elist (i + 1) then 0 else i + 1

unfoldable pub push_error : Error → Ering → Ering
push_error ec l =
    let head' = next l.head in
    let tail' = if head' == l.tail then l.tail + 1 else l.tail in
    record {
      head = head';
      tail = if ltb max_elist tail' then 0 else tail';
      error = set l.error l.head (record ec { signal = true });
      ecaterror = true;
    }

-- The result, what goes out through `Ec`, and the list.
unfoldable pub pop_error : Ering → Bool × Error × Ering
pop_error l =
    let not_empty = not (l.head == l.tail) in
    let ec = get_or l.error l.tail blank in
    let l' = record l { error = set l.error l.tail (record ec { signal = false }) } in
    (
      not_empty,
      ec,
      if not_empty then record l' { tail = next l.tail } else record l' { ecaterror = false },
    )

unfoldable pub is_error : Ering → Bool
is_error l = not (l.head == l.tail)

-- The reports; the clock's reading is an argument, and the parameters have their C widths.
unfoldable pub packet_error_report : Time → ℕ → ℕ → ℕ → ℕ → Ering → Ering
packet_error_report now slave index sub_idx code l =
    push_error
      (record blank {
        time = now;
        slave = slave;
        index = index;
        sub_idx = sub_idx;
        etype = packet_error;
        error_code = code;
      })
      (record l { ecaterror = true })

unfoldable pub mbx_error_report : Time → ℕ → ℕ → Ering → Ering
mbx_error_report now slave detail l =
    push_error (record blank { time = now; slave = slave; etype = mbx_error; error_code = detail })
      l

unfoldable pub mbx_emergency_report : Time → ℕ → ℕ → ℕ → ℕ → ℕ → ℕ → Ering → Ering
mbx_emergency_report now slave code reg b1 w1 w2 l =
    push_error
      (record blank {
        time = now;
        slave = slave;
        etype = emergency;
        error_code = code;
        error_reg = reg % 256;
        b1 = b1;
        w1 = w1;
        w2 = w2;
      })
      l

-- `ecx_SDOerror` of soem/ethercatcoe.c
unfoldable pub sdo_error_report : Time → ℕ → ℕ → ℕ → ℕ → Ering → Ering
sdo_error_report now slave index sub_idx abort_code l =
    push_error
      (record blank {
        time = now;
        slave = slave;
        index = index;
        sub_idx = sub_idx;
        etype = sdo_error;
        error_code = abort_code % 65536;
        error_reg = abort_code / 65536 % 256;
        b1 = abort_code / 16777216 % 256;
      })
      (record l { ecaterror = true })

-- `ecx_SoEerror` of soem/ethercatsoe.c
unfoldable pub soe_error_report : Time → ℕ → ℕ → ℕ → Ering → Ering
soe_error_report now slave idn code l =
    push_error
      (record blank {
        time = now;
        slave = slave;
        index = idn;
        etype = soe_error;
        error_code = code;
      })
      (record l { ecaterror = true })
