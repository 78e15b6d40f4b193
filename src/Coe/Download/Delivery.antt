-- ===== src/Coe/Download/Delivery.antt =====
-- What `ecx_SDOwrite` sends to a slave that follows the protocol.
use e_rob_soem_linux.Base.{
  ℕ, ◌+◌, ◌-◌, ◌≤◌, ◌<◌, ◌≡◌, sym, ap, ◌∙◌, bit_xor, true, false, List, [], ◌∷◌, ◌++◌, Bytes,
  length, drop, take-append, drop-append, drop-drop, read_at,
}
use e_rob_soem_linux.Mailbox.Channel.{Channel, Exchange}
use e_rob_soem_linux.Coe.Download.{download_segment_request, is_segment_acknowledge}

-- The next piece of the object.
pub read_at-piece :
    (p d rest : Bytes) (hp n : ℕ) → drop hp p ≡ d ++ rest → length d ≡ n → read_at p hp n ≡ d
read_at-piece p d rest hp n e size = rw (← size, e) (take-append d rest)

pub drop-piece :
    (p d rest : Bytes) (hp n : ℕ) → drop hp p ≡ d ++ rest → length d ≡ n → drop (hp + n) p ≡ rest
drop-piece p d rest hp n e size =
    sym (drop-drop hp n p)
    ∙ ap (drop n) e
    ∙ ap (λ k. drop k (d ++ rest)) (sym size)
    ∙ drop-append d rest

module _ {S : Type 0} (ch : Channel S) (index subindex timeout maxdata : ℕ) where
  -- The slave takes the segments `ds` of `left` bytes, the first one with `toggle` and in the mailbox
  -- `out`, and acknowledges each of them.
  pub data Downloads : ℕ → ℕ → Bytes → S → List Bytes → S → Type 0 where
    last :
        {s t : S} (left toggle : ℕ) (out d mbx : Bytes)
        → left ≤ maxdata
        → length d ≡ left
        → Exchange ch timeout (download_segment_request false toggle out left d) s mbx t
        → is_segment_acknowledge mbx ≡ true
        → Downloads left toggle out s (d ∷ []) t
    more :
        {s t u : S} {ds : List Bytes} (left toggle : ℕ) (out d mbx : Bytes)
        → maxdata < left
        → length d ≡ maxdata
        → (x : Exchange ch timeout (download_segment_request true toggle out maxdata d) s mbx t)
        → is_segment_acknowledge mbx ≡ true
        → Downloads
            (left - maxdata)
            (bit_xor toggle 0x10)
            (download_segment_request true toggle out maxdata d x.cnt)
            t
            ds
            u
        → Downloads left toggle out s (d ∷ ds) u
