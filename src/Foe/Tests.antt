-- ===== src/Foe/Tests.antt =====
-- Files of a few bytes through mailboxes of fourteen, which hold two bytes of data.
use e_rob_soem_linux.Base.{
  ℕ, suc, true, ◌+◌, ◌≡◌, refl, arith, List, [], ◌∷◌, ◌++◌, none, some, Bytes, length, replicate,
  le32, write_at, get16, sym, append-nil,
}
use e_rob_soem_linux.Base.Int.{pos, is_positive}
use e_rob_soem_linux.Task.{◌>>=◌}
use e_rob_soem_linux.Mailbox.Channel.{mbx_header}
use e_rob_soem_linux.Mailbox.Prepared.{prepared, prepared-Answers}
use e_rob_soem_linux.Foe.{max_data, packet_number, progress}
use e_rob_soem_linux.Foe.Reading.{FileRead, take_packet, read_packet, read_packets, foe_read}
use e_rob_soem_linux.Foe.Reading.Bounds.{Holds, foe_read-Holds}
use e_rob_soem_linux.Foe.Reading.Reassembly.{Packet, Sends, foe_read-Sends}
use e_rob_soem_linux.Foe.Writing.{FileWrite, foe_write}
use e_rob_soem_linux.Foe.Writing.Total.{foe_write_total}
use e_rob_soem_linux.Foe.Writing.Rounds.{Sent}
use e_rob_soem_linux.Foe.Writing.Delivery.{last, more, foe_write_busy}

abbrev password : ℕ
password = 0x1234

abbrev name : Bytes
name = 97 ∷ 98 ∷ []

-- The packets that the slave sends.
abbrev data_packet : ℕ → Bytes → Bytes
data_packet number d = mbx_header (6 + length d) 4 1 ++ (3 ∷ 0 ∷ (le32 number ++ d))

abbrev acknowledge : ℕ → Bytes
acknowledge number = mbx_header 6 4 1 ++ (4 ∷ 0 ∷ le32 number)

abbrev busy : Bytes
busy = mbx_header 6 4 1 ++ (6 ∷ 0 ∷ le32 0)

abbrev sends_three : List Bytes
sends_three = data_packet 1 (7 ∷ 8 ∷ []) ∷ data_packet 2 (9 ∷ []) ∷ []

reads_three :
    (v : FileRead) × (foe_read prepared none 9 14 name password 4 (replicate 5 0) 10 sends_three
      ≡ some (v, []))
    × (v.p ≡ 7 ∷ 8 ∷ 9 ∷ 0 ∷ 0 ∷ [])
    × (v.psize ≡ 3)
unfolding foe_read read_packets read_packet take_packet progress write_at ◌>>=◌
reads_three = (_, refl, refl, refl)

foe_read-Holds_example :
    (r : FileRead × List Bytes) × (foe_read prepared none 9 14 name password 4
        (replicate 5 0)
        10
        sends_three
      ≡ some r)
    × Holds 4 (replicate 5 0) r.0
foe_read-Holds_example =
    foe_read-Holds prepared prepared-Answers none 9 14 name password 4 (replicate 5 0) 10
      sends_three (omega arith) (omega arith) (omega arith)

-- A file of two bytes, and the empty packet that ends it.
abbrev takes_two : List Bytes
takes_two = acknowledge 0 ∷ acknowledge 1 ∷ acknowledge 2 ∷ []

foe_write_total_example :
    (r : FileWrite × List Bytes) × (foe_write prepared none 9 14 name password 2
        (5 ∷ 6 ∷ [])
        10
        takes_two
      ≡ some r)
    × (r.0.hp + r.0.left ≡ 2)
foe_write_total_example =
    foe_write_total prepared prepared-Answers none 9 14 name password 2 (5 ∷ 6 ∷ []) 10 takes_two
      (omega arith) (omega arith) (omega arith)

taken : (req : ℕ → Bytes) (s : List Bytes) → Sent prepared req s s
taken req s = record {
  cnt = 5;
  wkc = pos 1;
  counted = s;
  count_lem = refl;
  send_lem = refl;
  send_positive = refl;
}

foe_write_busy_example :
    (w : FileWrite) × (foe_write prepared none
        (suc 8)
        14
        name
        password
        2
        (5 ∷ 6 ∷ [])
        (suc 9)
        (busy ∷ takes_two)
      ≡ some (w, takes_two))
    × (w.wkc ≡ pos 1)
    × (w.left ≡ 2)
foe_write_busy_example =
    foe_write_busy prepared 8 14 name password 2 (5 ∷ 6 ∷ []) busy (suc 9) (busy ∷ takes_two)
      (busy ∷ takes_two) (busy ∷ takes_two) takes_two (pos 0, []) (pos 1) refl
      (taken _ (busy ∷ takes_two)) refl refl refl refl

carries_data :
    (number : ℕ) (d : Bytes)
    → packet_number (data_packet number d) ≡ number
    → get16 (data_packet number d) 0 ≡ 6 + length d
    → Packet number d (data_packet number d)
carries_data number d e size = record {
  foe = refl;
  number_lem = e;
  size_lem = size;
  rest = [];
  data_lem = sym (append-nil d);
}

sends :
    (out : Bytes)
    → Sends prepared (suc 9) (max_data 14) 0 out sends_three ((7 ∷ 8 ∷ []) ∷ (9 ∷ []) ∷ []) []
sends out =
    Sends.more 0 out (7 ∷ 8 ∷ []) _ (pos 1) refl refl refl (carries_data 1 (7 ∷ 8 ∷ []) refl refl)
      (taken _ _)
      (Sends.last 1 _ (9 ∷ []) _ (pos 1) (omega arith) refl refl (carries_data 2 (9 ∷ []) refl refl)
        (taken _ _))

foe_read-Sends_example :
    (r : FileRead) × (foe_read prepared none 2 14 name password 4
        (replicate 5 0)
        (suc 9)
        sends_three
      ≡ some (r, []))
    × (is_positive r.wkc ≡ true)
    × (r.p ≡ write_at (replicate 5 0) 0 (7 ∷ 8 ∷ 9 ∷ []))
    × (r.psize ≡ 3)
foe_read-Sends_example =
    foe_read-Sends prepared 2 14 name password 4 (replicate 5 0) (suc 9) sends_three sends_three
      sends_three [] (pos 0, []) ((7 ∷ 8 ∷ []) ∷ (9 ∷ []) ∷ []) (omega arith) (omega arith) refl
      (taken _ sends_three) (sends _) (omega arith) (omega arith)
