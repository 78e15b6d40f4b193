-- ===== src/ProcessData/Segments.antt =====
-- One segment of the process data: its frame on the wire, and its entry on the stack.
use e_rob_soem_linux.Base.{
  ℕ, ◌+◌, ◌^◌, ◌≤◌, ◌<◌, ◌≡◌, refl, ap₂, read_at, ◌∙◌, arith, Bool, true, false, List, [], ◌∷◌,
  ◌++◌, if◌then◌else◌, Bytes, get_or, length, length-take, length-drop, drop,
}
use e_rob_soem_linux.Osal.{Os}
use e_rob_soem_linux.Nic.{Port, get_index}
use e_rob_soem_linux.Nic.Index.{get_index-lt}
use e_rob_soem_linux.Datagram.{lrw, setup_datagram, setup_frame, add_datagram, add_frame}
use e_rob_soem_linux.IndexStack.{Entry}
use e_rob_soem_linux.IndexStack.Fifo.{push}
use e_rob_soem_linux.ProcessData.{Bus, send_segment}
use e_rob_soem_linux.ProcessData.Buffers.{
  IsRecord, HasBuffers, sent_of, Buffered, setup_datagram-Buffered, add_datagram-Buffered,
  out_frame_red-sent,
}
use e_rob_soem_linux.ProcessData.Frames.{
  Carries, process_request, clock_request, one-Carries, two-Carries, process_request-IsWellFormed,
  clock_request-IsWellFormed,
}

-- Where an entry's data belong, and how many.
abbrev pub place : Entry → ℕ × ℕ
place e = (e.data_ptr, e.len)

-- What a frame leaves: an entry on the stack, and itself on the wire.
pub record Sends {W : Type 0} (sent : W → List Bytes) (dcs : ℕ) (first : Bool)
    (log_adr size at to : ℕ) (b b' : Bus W) : Type 0 where
  pub entry : Entry
  pub frame : Bytes
  pub pushed : b'.idxstack ≡ push entry b.idxstack
  pub placed : place entry ≡ (to, size)
  pub recorded : sent b'.net.world ≡ sent b.net.world ++ (frame ∷ [])
  pub carries : Carries dcs b.dc_time first log_adr (read_at b.iomap at size) entry frame
  pub buffers : HasBuffers b'.net.port
  pub same_image : b'.iomap ≡ b.iomap
  pub same_time : b'.dc_time ≡ b.dc_time

get_index-HasBuffers : (p : Port) → HasBuffers p → HasBuffers (get_index p).1
unfolding get_index
get_index-HasBuffers p v = record {
  places = v.places;
  length_places = v.length_places;
  sizes = v.sizes;
}

length-read_at : (m : Bytes) (at n : ℕ) → at + n ≤ length m → length (read_at m at n) ≡ n
length-read_at m at n h = omega (arith, length-take n (drop at m), length-drop at m)

-- Room for a segment in a frame, with `first` for the second datagram behind it too.
abbrev pub Fits : Bool → ℕ → Type 0
Fits first size = size ≤ (if first then 1470 else 1490)

module _ {W : Type 0} (os : Os W) (sent : W → List Bytes) (seen : IsRecord os sent) (dcs : ℕ)
    (known : dcs < 65536) where
  module _ (log_adr size at to : ℕ) (b : Bus W) (v : HasBuffers b.net.port)
      (small : log_adr < 2 ^ 32) (inside : at + size ≤ length b.iomap)
      (time : length b.dc_time ≡ 8) where
    abbrev idx : ℕ
    idx = (get_index b.net.port).0

    abbrev p : Port
    p = (get_index b.net.port).1

    abbrev image : Bytes
    image = read_at b.iomap at size

    abbrev entry_with : ℕ → Entry
    entry_with dco = record { idx = idx; data_ptr = to; len = size; dc_offset = dco }

    abbrev buf : Bytes
    buf = get_or p.txbuf idx []

    full : length buf ≡ 1518
    full = (get_index-HasBuffers b.net.port v).sizes idx (get_index-lt b.net.port)

    image_size : length image ≡ size
    image_size = length-read_at b.iomap at size inside

    abbrev one : Bytes
    one = setup_frame idx (process_request log_adr image (entry_with 0)) buf

    abbrev first_port : Port
    first_port = setup_datagram p idx (process_request log_adr image (entry_with 0))

    first_port-Buffered : Buffered first_port idx (28 + size) one
    first_port-Buffered =
        setup_datagram-Buffered p idx (process_request log_adr image (entry_with 0))
          (get_index-lt b.net.port)
          (process_request-IsWellFormed dcs b.dc_time log_adr image (entry_with 0) buf full known
            small time image_size)
          (get_index-HasBuffers b.net.port v)

    send_next-Sends :
        size ≤ 1490
        → Sends sent dcs false log_adr size at to b
            (send_segment os dcs lrw false log_adr size at to b)
    unfolding send_segment
    send_next-Sends fits =
        let out =
          out_frame_red-sent os sent seen idx (record { port = first_port; world = b.net.world })
            (get_index-lt b.net.port) first_port-Buffered.buffers in
        record {
          entry = entry_with 0;
          frame = sent_of (28 + size) one;
          pushed = refl;
          placed = refl;
          recorded =
              out.0
              ∙ ap₂ (λ k g. sent b.net.world ++ (sent_of k g ∷ []))
                  first_port-Buffered.stored_length first_port-Buffered.content;
          carries =
              one-Carries dcs b.dc_time log_adr image (entry_with 0) buf full known small time
                image_size fits refl;
          buffers = out.1;
          same_image = refl;
          same_time = refl;
        }

    send_first-Sends :
        size ≤ 1470
        → Sends sent dcs true log_adr size at to b
            (send_segment os dcs lrw true log_adr size at to b)
    unfolding send_segment
    send_first-Sends fits =
        let clock = clock_request dcs b.dc_time in
        let added = add_datagram first_port idx false clock in
        let (dco, two) =
          add_datagram-Buffered first_port idx (28 + size) one clock (get_index-lt b.net.port)
            (omega arith)
            (clock_request-IsWellFormed dcs b.dc_time log_adr image (entry_with 0) buf full known
              small time image_size)
            first_port-Buffered in
        let out =
          out_frame_red-sent os sent seen idx (record { port = added.1; world = b.net.world })
            (get_index-lt b.net.port) two.buffers in
        record {
          entry = entry_with added.0;
          frame = sent_of (28 + size + 12 + 8) (add_frame (28 + size) idx false clock one);
          pushed = refl;
          placed = refl;
          recorded =
              out.0
              ∙ ap₂ (λ k g. sent b.net.world ++ (sent_of k g ∷ [])) two.stored_length two.content;
          carries =
              two-Carries dcs b.dc_time log_adr image (entry_with added.0) buf full known small time
                image_size fits dco;
          buffers = out.1;
          same_image = refl;
          same_time = refl;
        }

  pub send_segment-Sends :
      (first : Bool) (log_adr size at to : ℕ) (b : Bus W)
      → HasBuffers b.net.port
      → log_adr < 2 ^ 32
      → at + size ≤ length b.iomap
      → length b.dc_time ≡ 8
      → Fits first size
      → Sends sent dcs first log_adr size at to b
          (send_segment os dcs lrw first log_adr size at to b)
  send_segment-Sends true = send_first-Sends
  send_segment-Sends false = send_next-Sends
