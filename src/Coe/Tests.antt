-- ===== src/Coe/Tests.antt =====
-- Objects of a slave, and a slave that is lost.
use e_rob_soem_linux.Base.{
  ℕ, suc, ◌+◌, ◌≡◌, refl, arith, true, false, List, [], ◌∷◌, none, some, Bytes, replicate, write_at,
}
use e_rob_soem_linux.Base.Int.{pos, is_positive}
use e_rob_soem_linux.Mailbox.Channel.{Channel, Exchange}
use e_rob_soem_linux.Mailbox.Prepared.{prepared}
use e_rob_soem_linux.Coe.Upload.{SdoRead, Segments, read_segments, sdo_read}
use e_rob_soem_linux.Coe.Upload.Lost.{read_segments_diverges}
use e_rob_soem_linux.Coe.Upload.Reassembly.{
  Uploads, last, more, upload_response, middle_segment, last_segment, sdo_read-Uploads,
}
use e_rob_soem_linux.Coe.Download.Delivery

-- An object of twelve bytes in three parts.
abbrev first_part : Bytes
first_part = 1 ∷ 2 ∷ []

abbrev parts : List Bytes
parts = (3 ∷ 4 ∷ 5 ∷ 6 ∷ 7 ∷ 8 ∷ 9 ∷ []) ∷ (10 ∷ 11 ∷ 12 ∷ []) ∷ []

abbrev response : Bytes
response = upload_response 5 0x6064 0 12 first_part []

abbrev middle : Bytes
middle = middle_segment 0 5 (3 ∷ 4 ∷ 5 ∷ 6 ∷ 7 ∷ 8 ∷ 9 ∷ []) []

abbrev final : Bytes
final = last_segment 1 5 (10 ∷ 11 ∷ 12 ∷ []) (0 ∷ 0 ∷ 0 ∷ 0 ∷ [])

-- The slave answers `m`, whatever it was asked.
answers :
    (n : ℕ) (req : ℕ → Bytes) (m : Bytes) (ms : List Bytes)
    → Exchange prepared (suc n) req (m ∷ ms) m ms
answers n req m ms = record {
  cnt = 5;
  wkc = pos 1;
  wkc' = pos 1;
  counted = m ∷ ms;
  sent = m ∷ ms;
  count_lem = refl;
  send_lem = refl;
  send_positive = refl;
  receive_lem = refl;
  receive_positive = refl;
}

uploads : Uploads prepared 0x6064 0 (suc 699999) 0 (middle ∷ final ∷ []) parts []
uploads =
    more 0 0 5 (3 ∷ 4 ∷ 5 ∷ 6 ∷ 7 ∷ 8 ∷ 9 ∷ []) [] (omega arith) (omega arith)
      (answers 699999 _ middle (final ∷ []))
      (last 0x10 1 5 (10 ∷ 11 ∷ 12 ∷ []) (0 ∷ 0 ∷ 0 ∷ 0 ∷ []) (omega arith) (omega arith)
        (answers 699999 _ final []))

sdo_read-Uploads_example :
    (r : SdoRead) × (sdo_read prepared 2 0x6064 0 false 16
        (replicate 16 0)
        (suc 699999)
        (response ∷ middle ∷ final ∷ [])
      ≡ some (r, []))
    × (r.p ≡ write_at (replicate 16 0) 0 (1 ∷ 2 ∷ 3 ∷ 4 ∷ 5 ∷ 6 ∷ 7 ∷ 8 ∷ 9 ∷ 10 ∷ 11 ∷ 12 ∷ []))
    × (r.psize ≡ 12)
    × (is_positive r.wkc ≡ true)
sdo_read-Uploads_example =
    sdo_read-Uploads prepared 0x6064 0 (suc 699999) 5 12 first_part [] (omega arith) (omega arith)
      (omega arith) 2 0 false 16 (replicate 16 0) (response ∷ middle ∷ final ∷ [])
      (response ∷ middle ∷ final ∷ []) (middle ∷ final ∷ []) [] (pos 0, []) parts refl refl
      (answers 699999 _ response (middle ∷ final ∷ [])) uploads (omega arith) (omega arith)
      (omega arith) (omega arith)

-- A slave that is gone.
abbrev gone : Channel ℕ
gone = record {
  count = λ s. some (5, s);
  send = λ mbx timeout s. some (pos 0, s + timeout);
  receive = λ mbx timeout s. some ((pos 0, mbx), s + timeout);
  sdo_error = λ index subindex code s. some (tt, s);
  packet_error = λ index subindex code s. some (tt, s);
  soe_error = λ idn code s. some (tt, s);
  empty = λ timeout s. some (true, s);
}

abbrev begun : Segments
begun = record { out = record { wkc = pos 1; psize = 2; p = replicate 16 0 }; hp = 2; toggle = 0 }

read_segments_diverges_example : read_segments gone 0x6064 0 700000 90 begun 0 ≡ none
read_segments_diverges_example =
    read_segments_diverges gone 0x6064 0 700000 90 begun 0 (λ t. ((5, t), refl))
      (λ mbx n t. ((pos 0, t + n), refl, refl))

-- A download of twelve bytes through a mailbox of 18 bytes, in two parts and segments of nine.
abbrev acknowledge : ℕ → Bytes
acknowledge cmd = 10 ∷ 0 ∷ 0 ∷ 0 ∷ 0 ∷ 0x53 ∷ 0 ∷ 0x30 ∷ cmd ∷ 0x40 ∷ 0x60 ∷ 2 ∷ 0 ∷ 0 ∷ 0 ∷ 0 ∷ []

abbrev sent_parts : List Bytes
sent_parts = (3 ∷ 4 ∷ 5 ∷ 6 ∷ 7 ∷ 8 ∷ 9 ∷ 10 ∷ 11 ∷ []) ∷ (12 ∷ []) ∷ []
