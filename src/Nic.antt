-- ===== src/Nic.antt =====
-- oshw/linux/nicdrv.h and oshw/linux/nicdrv.c: the frame buffers of a port, and which of them are
-- in use. Sending and receiving are in `Link`.
pub mod Index
pub mod Tests
use e_rob_soem_linux.Base.{
  ℕ, zero, suc, ◌+◌, ◌%◌, Bool, true, false, List, [], ◌∷◌, if◌then◌else◌, leb, Bytes, get_or, set,
}
use e_rob_soem_linux.Base.Int.{ℤ}

-- `ec_bufstate`
pub data BufState : Type 0 where
  empty alloc tx rcvd complete : BufState

abbrev pub is_empty : BufState → Bool
is_empty empty = true
is_empty _ = false

abbrev pub is_tx : BufState → Bool
is_tx tx = true
is_tx _ = false

abbrev pub is_rcvd : BufState → Bool
is_rcvd rcvd = true
is_rcvd _ = false

-- The receiving half of `ec_stackT`: the fields that the primary and the redundant port each have.
pub record Stack : Type 0 where
  pub rxbuf : List Bytes
  pub rxbufstat : List BufState
  pub rxsa : List ℕ
  pub tempbuf : Bytes

-- `ecx_portt`. Both stacks point to the same transmit buffers. `redundant` is
-- `redstate != ECT_RED_NONE`; without it the redundant port `secondary` is not looked at.
pub record Port : Type 0 where
  pub primary : Stack
  pub secondary : Stack
  pub redundant : Bool
  pub txbuf : List Bytes
  pub txbuflength : List ℕ
  pub txbuf2 : Bytes
  pub txbuflength2 : ℕ
  pub tempinbufs : ℤ
  pub lastidx : ℕ

abbrev pub max_buf : ℕ
max_buf = 16

abbrev pub bufstat : Stack → ℕ → BufState
bufstat s i = get_or s.rxbufstat i complete

abbrev pub put_bufstat : ℕ → BufState → Stack → Stack
put_bufstat i b s = record s { rxbufstat = set s.rxbufstat i b }

-- `ecx_setbufstat`
unfoldable pub set_buf_stat : Port → ℕ → BufState → Port
set_buf_stat p idx b = record p {
  primary = put_bufstat idx b p.primary;
  secondary = if p.redundant then put_bufstat idx b p.secondary else p.secondary;
}

-- `idx++; if (idx >= EC_MAXBUF) idx = 0;` on a uint8.
abbrev pub next_idx : ℕ → ℕ
next_idx i = if leb max_buf ((i + 1) % 256) then 0 else (i + 1) % 256

-- The search of `ecx_getindex`; the first argument is `EC_MAXBUF - cnt`.
find_unused : ℕ → List BufState → ℕ → ℕ
find_unused zero stats idx = idx
find_unused (suc n) stats idx =
    let rest = find_unused n stats (next_idx idx) in
    if is_empty (get_or stats idx complete) then idx else rest

-- `ecx_getindex`, under its mutex.
unfoldable pub get_index : Port → ℕ × Port
unfolding find_unused
get_index p =
    let idx = find_unused max_buf p.primary.rxbufstat (next_idx p.lastidx) in
    (
      idx,
      record p {
        primary = put_bufstat idx alloc p.primary;
        secondary = if p.redundant then put_bufstat idx alloc p.secondary else p.secondary;
        lastidx = idx;
      },
    )

-- `ecx_clear_rxbufstat`
unfoldable clear_rxbufstat : ℕ → List BufState
clear_rxbufstat zero = []
clear_rxbufstat (suc n) = empty ∷ clear_rxbufstat n
