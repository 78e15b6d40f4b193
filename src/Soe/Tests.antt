-- ===== src/Soe/Tests.antt =====
-- A parameter of five bytes in two fragments, one that is written in three, and a slave that never ends.
use e_rob_soem_linux.Base.{
  ltb, if◌then◌else◌, ℕ, suc, ◌+◌, ◌≡◌, refl, arith, true, false, Bool, List, [], ◌∷◌, ◌++◌, none,
  some, if◌then◌else◌, Bytes, length, replicate, write_at,
}
use e_rob_soem_linux.Base.Int.{pos}
use e_rob_soem_linux.Task.{◌>>=◌}
use e_rob_soem_linux.Mailbox.Channel.{Channel}
use e_rob_soem_linux.Mailbox.Prepared.{prepared, prepared-Answers}
use e_rob_soem_linux.Soe.{soe_header, reject}
use e_rob_soem_linux.Soe.Reading.{SoeRead, copy_fragment, read_answer, read_answers, soe_read}
use e_rob_soem_linux.Soe.Mapping.{
  IdnMap, add_lengths, add_mapping, add_drive, add_drives, read_idn_map,
}
use e_rob_soem_linux.Soe.Reading.Reassembly.{Fragment, Fragments, last, more, soe_read-Fragments}
use e_rob_soem_linux.Soe.Reading.Endless.{read_answers_diverges}
use e_rob_soem_linux.Soe.Writing.{SoeWrite, soe_write}
use e_rob_soem_linux.Soe.Writing.Total.{soe_write_total}

-- What drive 1 answers about the value (0x40) of a parameter.
abbrev fragment : Bool → ℕ → Bytes → Bytes
fragment goes_on word d = soe_header (length d) 3 (if goes_on then 10 else 2) 1 0x40 word ++ d

abbrev first_part : Bytes
first_part = 1 ∷ 2 ∷ 3 ∷ []

abbrev second_part : Bytes
second_part = 4 ∷ 5 ∷ []

abbrev answers : List Bytes
answers = fragment true 1 first_part ∷ fragment false 36 second_part ∷ []

is_first : Fragment 1 0x40 true first_part (fragment true 1 first_part)
is_first = record { answer = refl; goes_on_lem = refl; size_lem = refl; rest = []; data_lem = refl }

is_second : Fragment 1 0x40 false second_part (fragment false 36 second_part)
is_second = record {
  answer = refl;
  goes_on_lem = refl;
  size_lem = refl;
  rest = [];
  data_lem = refl;
}

sends_both : Fragments prepared 1 0x40 36 (suc 9) answers (first_part ∷ second_part ∷ []) []
sends_both =
    more first_part _ (pos 1) is_first refl refl (last second_part _ (pos 1) is_second refl refl)

-- Four bytes of the five fit.
soe_read-Fragments_example :
    (r : SoeRead) × (soe_read prepared 1 0x40 36 (suc 9) 2 4 (replicate 6 0) answers ≡ some (r, []))
    × (r.p ≡ write_at (replicate 6 0) 0 (1 ∷ 2 ∷ 3 ∷ 4 ∷ []))
    × (r.psize ≡ 4)
soe_read-Fragments_example =
    soe_read-Fragments prepared 1 0x40 36 (suc 9) 2 4 5 (replicate 6 0) answers answers answers
      answers [] (pos 0, []) (pos 1) (first_part ∷ second_part ∷ []) refl refl refl refl sends_both
      (omega arith)

soe_write_total_example :
    (r : SoeWrite × List Bytes) × (soe_write prepared 1 0x40 36 10 6 12 5
        (1 ∷ 2 ∷ 3 ∷ 4 ∷ 5 ∷ [])
        answers
      ≡ some r)
    × (r.0.hp + r.0.left ≡ 5)
soe_write_total_example =
    soe_write_total prepared prepared-Answers 1 0x40 36 10 6 12 5 (1 ∷ 2 ∷ 3 ∷ 4 ∷ 5 ∷ []) answers
      (omega arith) (omega arith)

-- A slave that sends what it has in its mailbox, as long as that is not empty, and keeps it there.
abbrev endless : Channel Bytes
endless = record {
  count = λ s. some (5, s);
  send = λ mbx timeout s. some (pos 1, s);
  receive = λ mbx timeout s. some ((if ltb 0 (length s) then pos 1 else pos 0, s), s);
  sdo_error = λ index subindex code s. some (tt, s);
  packet_error = λ index subindex code s. some (tt, s);
  soe_error = λ idn code s. some (tt, s);
  empty = λ timeout s. some (true, s);
}

abbrev begun : SoeRead
begun = record { wkc = pos 1; psize = 4; totalsize = 0; bp = 0; p = replicate 6 0 }

-- The mailbox holds a fragment that others are to follow.
abbrev Stuck : Bytes → Type 0
Stuck s = s ≡ fragment true 1 first_part

read_answers_diverges_example :
    read_answers endless 1 0x40 36 10 70 4 begun (fragment true 1 first_part) ≡ none
read_answers_diverges_example =
    read_answers_diverges endless Stuck 1 0x40 36 10 70 4 begun (fragment true 1 first_part)
      (λ t e. (_, refl, rw e refl, rw e refl, rw e refl, e)) refl

-- Drive 0 has one parameter of four bytes among its outputs, and nothing else answers.
abbrev maps_one : List Bytes
maps_one =
    (soe_header 6 3 2 0 0x40 24 ++ (2 ∷ 0 ∷ 2 ∷ 0 ∷ 47 ∷ 0 ∷ []))
    ∷ (soe_header 4 3 2 0 4 47 ++ (1 ∷ 0 ∷ 2 ∷ 0 ∷ []))
    ∷ []

maps_one_sizes :
    (v : IdnMap) × (read_idn_map prepared 2 (replicate 132 0) (replicate 4 0) maps_one
      ≡ some ((1, v), []))
    × (v.osize ≡ 48)
    × (v.isize ≡ 0)
unfolding read_idn_map add_drives add_drive add_mapping add_lengths soe_read read_answers
    read_answer copy_fragment reject write_at ◌>>=◌
maps_one_sizes = (_, refl, refl, refl)
