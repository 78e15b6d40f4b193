-- ===== src/ProcessData/Buffers.antt =====
-- The transmit buffers of a port: what is put into them, and what is sent of them.
use e_rob_soem_linux.Base.{
  ℕ, ◌+◌, ◌-◌, ◌<◌, ◌≡◌, refl, sym, ap, ap₂, ◌∙◌, arith, Bool, true, false, if◌then◌else◌, List, [],
  ◌∷◌, ◌++◌, Bytes, get_or, set, take, length, write_at, get_or-set_self, get_or-set, length-set,
  length-write_at, ◌==◌, ◌%◌,
}
use e_rob_soem_linux.Osal.{Os}
use e_rob_soem_linux.Nic.{Port}
use e_rob_soem_linux.Datagram.{Request, setup_datagram, add_datagram, setup_frame, add_frame}
use e_rob_soem_linux.Datagram.Layout.{IsWellFormed, length-setup_frame, length-add_frame}
use e_rob_soem_linux.Link.{Net, out_frame, out_dummy, out_frame_red, be16, rx_prim}

-- `sent w` are the frames that were sent on the primary socket up to `w`: those of `send`, in order.
pub record IsRecord {W : Type 0} (os : Os W) (sent : W → List Bytes) : Type 0 where
  pub on_primary : (w : W) (f : Bytes) → sent (os.send w false f).1 ≡ sent w ++ (f ∷ [])
  pub on_secondary : (w : W) (f : Bytes) → sent (os.send w true f).1 ≡ sent w

-- The transmit buffers of a port have their sizes, EC_MAXBUF of EC_BUFSIZE bytes.
pub record HasBuffers (p : Port) : Type 0 where
  pub places : length p.txbuf ≡ 16
  pub length_places : length p.txbuflength ≡ 16
  pub sizes : (i : ℕ) → i < 16 → length (get_or p.txbuf i []) ≡ 1518

-- What `ecx_outframe_red` sends of a buffer.
abbrev pub sent_of : ℕ → Bytes → Bytes
sent_of n f = take n (write_at f 8 (be16 rx_prim))

-- The buffers after one of them was written.
set-HasBuffers :
    (p : Port) (idx : ℕ) (f : Bytes)
    → idx < 16
    → length f ≡ 1518
    → HasBuffers p
    → (i : ℕ) → i < 16
    → length (get_or (set p.txbuf idx f) i []) ≡ 1518
set-HasBuffers p idx f h k v i b =
    ap length (get_or-set p.txbuf idx i f [] (omega (arith, v.places))) ∙ chosen (idx == i)
  where
    chosen : (c : Bool) → length (if c then f else get_or p.txbuf i []) ≡ 1518
    chosen true = k
    chosen false = v.sizes i b

module _ {W : Type 0} (os : Os W) (sent : W → List Bytes) (seen : IsRecord os sent) where
  out_dummy-sent :
      (idx : ℕ) (n : Net W)
      → (sent (out_dummy os idx n).world ≡ sent n.world)
        × ((out_dummy os idx n).port.txbuf ≡ n.port.txbuf)
        × ((out_dummy os idx n).port.txbuflength ≡ n.port.txbuflength)
  unfolding out_dummy
  out_dummy-sent idx n = (seen.on_secondary n.world _, ground arith, ground arith)

  out_frame-sent :
      (idx : ℕ) (n : Net W)
      → let n' = (out_frame os idx false n).1 in
        (sent n'.world
          ≡ sent n.world
            ++ (take (get_or n.port.txbuflength idx 0) (get_or n.port.txbuf idx []) ∷ []))
        × (n'.port.txbuf ≡ n.port.txbuf)
        × (n'.port.txbuflength ≡ n.port.txbuflength)
  unfolding out_frame
  out_frame-sent idx n = (seen.on_primary n.world _, ground arith, ground arith)

  -- `ecx_outframe_red` sends the buffer of its index, in its length and with the source address of
  -- the primary port, and changes nothing else of the buffers.
  pub out_frame_red-sent :
      (idx : ℕ) (n : Net W)
      → idx < 16
      → HasBuffers n.port
      → let n' = (out_frame_red os idx n).1 in
        let f = write_at (get_or n.port.txbuf idx []) 8 (be16 rx_prim) in
        (sent n'.world ≡ sent n.world ++ (take (get_or n.port.txbuflength idx 0) f ∷ []))
        × HasBuffers n'.port
  unfolding out_frame_red
  out_frame_red-sent idx n h v =
      let (s₂, b₂, l₂) = out_dummy-sent idx n₁ in
      either n.port.redundant (out_dummy os idx n₁) n₁
        (s₂ ∙ s, buffers (out_dummy os idx n₁).port (b₂ ∙ b) (l₂ ∙ l)) (s, buffers n₁.port b l)
    where
      f : Bytes
      f = write_at (get_or n.port.txbuf idx []) 8 (be16 rx_prim)

      p₀ : Port
      p₀ = let port = n.port in record port { txbuf = set port.txbuf idx f }

      n₀ : Net W
      n₀ = record n { port = p₀ }

      n₁ : Net W
      n₁ = (out_frame os idx false n₀).1

      s : sent n₁.world ≡ sent n.world ++ (take (get_or n.port.txbuflength idx 0) f ∷ [])
      s =
          (out_frame-sent idx n₀).0
          ∙ ap (λ g. sent n.world ++ (take (get_or n.port.txbuflength idx 0) g ∷ []))
              (get_or-set_self n.port.txbuf idx f [] (omega (arith, v.places)))

      b : n₁.port.txbuf ≡ set n.port.txbuf idx f
      b = (out_frame-sent idx n₀).1

      l : n₁.port.txbuflength ≡ n.port.txbuflength
      l = (out_frame-sent idx n₀).2

      buffers :
          (q : Port)
          → q.txbuf ≡ set n.port.txbuf idx f
          → q.txbuflength ≡ n.port.txbuflength
          → HasBuffers q
      buffers q e e' = record {
        places = ap length e ∙ length-set n.port.txbuf idx f ∙ v.places;
        length_places = ap length e' ∙ v.length_places;
        sizes = λ i k.
            ap (λ t. length (get_or t i [])) e
            ∙ set-HasBuffers n.port idx f h
                (length-write_at (get_or n.port.txbuf idx []) 8 (be16 rx_prim) ∙ v.sizes idx h) v i
                k;
      }

      either :
          (c : Bool) (x y : Net W)
          → (sent x.world ≡ sent n.world ++ (take (get_or n.port.txbuflength idx 0) f ∷ []))
            × HasBuffers x.port
          → (sent y.world ≡ sent n.world ++ (take (get_or n.port.txbuflength idx 0) f ∷ []))
            × HasBuffers y.port
          → let z = if c then x else y in
            (sent z.world ≡ sent n.world ++ (take (get_or n.port.txbuflength idx 0) f ∷ []))
            × HasBuffers z.port
      either true x y p q = p
      either false x y p q = q

-- A frame in the buffer of an index, in its length.
pub record Buffered (p : Port) (idx n : ℕ) (f : Bytes) : Type 0 where
  pub buffers : HasBuffers p
  pub content : get_or p.txbuf idx [] ≡ f
  pub stored_length : get_or p.txbuflength idx 0 ≡ n

put-Buffered :
    (p q : Port) (idx n : ℕ) (f : Bytes)
    → idx < 16
    → length f ≡ 1518
    → HasBuffers p
    → q.txbuf ≡ set p.txbuf idx f
    → q.txbuflength ≡ set p.txbuflength idx n
    → Buffered q idx n f
put-Buffered p q idx n f h k v e e' = record {
  buffers = record {
    places = ap length e ∙ length-set p.txbuf idx f ∙ v.places;
    length_places = ap length e' ∙ length-set p.txbuflength idx n ∙ v.length_places;
    sizes = λ i b. ap (λ t. length (get_or t i [])) e ∙ set-HasBuffers p idx f h k v i b;
  };
  content =
      ap (λ t. get_or t idx []) e ∙ get_or-set_self p.txbuf idx f [] (omega (arith, v.places));
  stored_length =
      ap (λ t. get_or t idx 0) e'
      ∙ get_or-set_self p.txbuflength idx n 0 (omega (arith, v.length_places));
}

-- After `ecx_setupdatagram`.
pub setup_datagram-Buffered :
    (p : Port) (idx : ℕ) (r : Request)
    → idx < 16
    → IsWellFormed r
    → HasBuffers p
    → Buffered
        (setup_datagram p idx r)
        idx
        (28 + r.size)
        (setup_frame idx r (get_or p.txbuf idx []))
unfolding setup_datagram
setup_datagram-Buffered p idx r h wf v =
    put-Buffered p (setup_datagram p idx r) idx (28 + r.size)
      (setup_frame idx r (get_or p.txbuf idx [])) h
      (length-setup_frame idx r (get_or p.txbuf idx []) wf ∙ v.sizes idx h) v refl refl

-- After `ecx_adddatagram`, with the offset that it gives.
pub add_datagram-Buffered :
    (p : Port) (idx n : ℕ) (f : Bytes) (r : Request)
    → idx < 16
    → n < 65536
    → IsWellFormed r
    → Buffered p idx n f
    → ((add_datagram p idx false r).0 ≡ n + 10 - 14)
      × Buffered (add_datagram p idx false r).1 idx (n + 12 + r.size) (add_frame n idx false r f)
unfolding add_datagram
add_datagram-Buffered p idx n f r h small wf v =
    let prev : get_or p.txbuflength idx 0 % 65536 ≡ n = omega (arith, v.stored_length) in
    let full : length f ≡ 1518 = ap length (sym v.content) ∙ v.buffers.sizes idx h in
    (
      omega (arith, prev),
      put-Buffered p (add_datagram p idx false r).1 idx (n + 12 + r.size)
          (add_frame n idx false r f) h (length-add_frame n idx false r f wf ∙ full) v.buffers
          (ap₂ (λ k g. set p.txbuf idx (add_frame k idx false r g)) prev v.content)
          (ap (λ k. set p.txbuflength idx k) (omega (arith, prev))),
    )
